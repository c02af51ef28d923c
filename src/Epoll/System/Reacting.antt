-- ===== src/Epoll/System/Reacting.antt =====
-- A thread of reactor tasks keeps the invariant.
use baba_io.Base.{
  ℕ, ◌≡◌, ◌∙◌, sym, refl, ap, ◌⊎◌, inl, inr, true, none, some, Option, List, [], ◌∷◌, ◌++◌, Table,
  insert, insert_self, insert_ne, if◌then◌else◌,
}
use baba_io.Os.Codes.{ErrorCode}
use baba_io.Os.Kernel.{Kernel}
use baba_io.Epoll.State.{
  Service, Event, Descriptor, Strand, Complete, ReactorTask, read_reacts, write_reacts, hands_over,
  completes,
}
use baba_io.Epoll.Memory.{ok}
use baba_io.Epoll.Deletion.Completion.{enqueued, enqueue_lem}
use baba_io.Epoll.Proactor.{run_react, run_reactor_task}
use baba_io.Epoll.Proactor.Reactions.{outcome, reacted, run_react_lem}
use baba_io.Epoll.System.Places.{set, set_self, set_ne}
use baba_io.Epoll.System.Frames.{Frame, Frame-kept, Final-kept, EventOk-frame, ne_or_eq}
use baba_io.Epoll.System.Moves.{some_eq, Queues-set, pop-task, push-task, pop-deletion}
use baba_io.Epoll.System.StrandMoves.{push-completion}
use baba_io.Epoll.System.Owing.{outcome-Owes}
use baba_io.Epoll.System.Invariant.{
  Phase, reacting, handing, completing, finalising, side, task_event, TaskFits, HasStrand, Reacting,
  Completing, Final, EventOk, Queues, Without, Inv,
}
use baba_io.Epoll.System.Turns.{reactor_turn, deletion_turn}

-- A strand that is written is still there, and so are the others.
pub HasStrand-insert :
    (strands : Table Strand) (k j : ℕ) (v : Strand)
    → (t : Strand) × (strands j ≡ some t)
    → (t : Strand) × (insert strands k v j ≡ some t)
HasStrand-insert strands k j v (t, h) = elim (ne_or_eq k j) [
  | inl same ↦ (v, rw (← same) (insert_self strands k v))
  | inr ne ↦ (t, insert_ne strands k j v ne ∙ h)
]

side-some :
    (f : Descriptor → Option ℕ) (o : Option Descriptor) (p : ℕ)
    → side f o ≡ some p
    → (d : Descriptor) × (o ≡ some d) × (f d ≡ some p)
side-some f none p h = cc
side-some f (some d) p h = (d, refl, h)

-- After a step about one event the invariant holds if it does for the queues and for that event.
pub Inv-step :
    {W : Type 0} (s u : Service W) (ph : ℕ → Phase) (doom : ℕ → Option ℕ) (p : ℕ) (n : Phase)
    → Inv s ph doom
    → Queues u.descriptors u.reactor_tasks.queue u.strands u.deletions.queue (set ph p n)
    → Frame s u p
    → EventOk u doom p n
    → Inv u (set ph p n) doom
Inv-step s u ph doom p n inv queues fr ev = record {
  queues = queues;
  events = λ q. elim (ne_or_eq p q) [
    | inl same ↦ rw (← same) (rw (set_self ph p n) ev)
    | inr ne ↦ rw (set_ne ph p q n ne) (EventOk-frame s u doom p fr q ne (ph q) (inv.events q))
  ];
}

module _ {W : Type 0} (os : Kernel W) (s : Service W) (ph : ℕ → Phase) (doom : ℕ → Option ℕ)
    (inv : Inv s ph doom) (p : ℕ) (rest : List ReactorTask) where
  -- The service without the task that a thread has taken.
  abbrev pub taken : Service W
  taken = record s { reactor_tasks = record (s.reactor_tasks) { queue = rest } }

  -- The reaction of an event that the task names.
  pub side-react :
      (x : ReactorTask) (v : Reacting s p)
      → task_event s.descriptors x ≡ some p
      → TaskFits x reacting
      → (e : ErrorCode) × (run_reactor_task os x taken ≡ run_react os v.reaction e taken)
  unfolding run_reactor_task
  side-react (read_reacts d e) v key fits =
      let (desc, found, evt) = side-some (λ d. d.read_event) (s.descriptors d) p key in
      (e, rw (found, evt, v.found, v.reacts))
  side-react (write_reacts d e) v key fits =
      let (desc, found, evt) = side-some (λ d. d.write_event) (s.descriptors d) p key in
      (e, rw (found, evt, v.found, v.reacts))
  side-react (hands_over f) v key fits = cc

  module _ (x : ReactorTask) (hq : s.reactor_tasks.queue ≡ x ∷ rest)
      (key : task_event s.descriptors x ≡ some p) where
    -- The task is run unless the service has been stopped.
    pub turn-opened :
        reactor_turn os s ≡ (if s.run then run_reactor_task os x taken else ok (tt, taken))
    unfolding reactor_turn
    turn-opened = rw hq

    turn-taken : s.run ≡ true → reactor_turn os s ≡ run_reactor_task os x taken
    turn-taken live =
        turn-opened ∙ ap (λ b. if b then run_reactor_task os x taken else ok (tt, taken)) live

    pub left :
        (ph p ≡ reacting) ⊎ (ph p ≡ handing)
        → Queues s.descriptors rest s.strands s.deletions.queue ph
          × Without s.descriptors rest s.strands s.deletions.queue p
    left busy =
        pop-task s.descriptors s.strands s.deletions.queue ph p x rest (rw hq at inv.queues) key
          busy

    module _ (v : Reacting s p) (busy : ph p ≡ reacting) (fits : TaskFits x reacting)
        (live : s.run ≡ true) where
      abbrev pub e : ErrorCode
      e = (side-react x v key fits).0

      abbrev pub came : Complete × W
      came = outcome os v.reaction e v.descriptor.in_scope v.descriptor.fd s.world

      abbrev pub after : Service W
      after = reacted os taken p v.strand v.event v.queue.0 came.0 came.1

      reacted-Completing : Completing after p
      reacted-Completing =
          let (mine, (call, owed)) =
            outcome-Owes os p e v.descriptor.fd s.world v.reaction v.descriptor.in_scope v.mine in
          record {
            event = record (v.event) { complete = some came.0; react = none };
            found = insert_self s.registrar.register p _;
            completion = came.0;
            holds = refl;
            mine = mine;
            call = call;
            owed = owed;
            io_desc = v.io_desc;
            io = v.io;
            descriptor = v.descriptor;
            open_io = v.open_io;
            active = v.active;
          }

      reacted-Frame : Frame s after p
      reacted-Frame = record {
        others = λ q ne. insert_ne s.registrar.register p q _ ne;
        kept = λ event found. (
          _,
          insert_self s.registrar.register p _,
          ap (λ (y : Event). y.id) (some_eq (sym v.found ∙ found)),
        );
        descriptors = refl;
        strands = λ k h. HasStrand-insert s.strands v.strand k _ h;
      }

      -- A reaction that is run leaves its event with a completion in the queue of its strand.
      pub react_turn :
          (reactor_turn os s ≡ ok (tt, after)) × Inv after (set ph p (completing v.strand)) doom
      react_turn = (
        turn-taken live
            ∙ (side-react x v key fits).1
            ∙ run_react_lem os taken p v.io_desc v.strand v.event v.descriptor v.queue.0 v.found
                v.io v.open_io v.on v.queue.1 v.reaction e v.mine,
        Inv-step s after ph doom p (completing v.strand) inv
            (let (queues, without) = left (inl busy) in
              push-completion s.descriptors rest s.strands s.deletions.queue
                (set ph p (completing v.strand)) v.strand v.queue.0 v.queue.1
                (Queues-set s.descriptors rest s.strands s.deletions.queue ph p
                  (completing v.strand) queues without)
                p without (inl (set_self ph p (completing v.strand))))
            reacted-Frame reacted-Completing,
      )

    -- A final event that is handed over enters the queue of its strand.
    module _ (v : Final s doom p) (busy : ph p ≡ handing) (same : x ≡ hands_over p)
        (live : s.run ≡ true) where
      abbrev pub handed : Service W
      handed = enqueued taken v.strand v.queue.0 (completes p)

      run_hands_over : run_reactor_task os (hands_over p) taken ≡ ok (tt, handed)
      unfolding run_reactor_task
      run_hands_over = enqueue_lem taken p v.strand v.event v.queue.0 v.found v.on v.queue.1

      strands_kept : (k : ℕ) → HasStrand s k → HasStrand handed k
      strands_kept k h = HasStrand-insert s.strands v.strand k _ h

      pub hands_over_turn :
          (reactor_turn os s ≡ ok (tt, handed)) × Inv handed (set ph p (finalising v.strand)) doom
      hands_over_turn = (
        turn-taken live ∙ ap (λ y. run_reactor_task os y taken) same ∙ run_hands_over,
        Inv-step s handed ph doom p (finalising v.strand) inv
            (let (queues, without) = left (inr busy) in
              push-completion s.descriptors rest s.strands s.deletions.queue
                (set ph p (finalising v.strand)) v.strand v.queue.0 v.queue.1
                (Queues-set s.descriptors rest s.strands s.deletions.queue ph p
                  (finalising v.strand) queues without)
                p without (inr (set_self ph p (finalising v.strand))))
            (Frame-kept s handed p refl refl strands_kept)
            (Final-kept s handed doom p refl strands_kept v),
      )

module _ {W : Type 0} (s : Service W) (ph : ℕ → Phase) (doom : ℕ → Option ℕ) (inv : Inv s ph doom)
    (p : ℕ) (rest : List ℕ) (hq : s.deletions.queue ≡ p ∷ rest) (live : s.run ≡ true)
    (v : Final s doom p) where
  -- The final event at the front of the deletion queue joins the reactor tasks.
  abbrev pub moved_on : Service W
  moved_on = record s {
    deletions = record { queue = rest };
    reactor_tasks = record (s.reactor_tasks) { queue = s.reactor_tasks.queue ++ hands_over p ∷ [] };
  }

  turn-moved_on : deletion_turn s ≡ (if s.run then ok (tt, moved_on) else ok (tt, s))
  unfolding deletion_turn
  turn-moved_on = rw hq

  pub deletes_turn : (deletion_turn s ≡ ok (tt, moved_on)) × Inv moved_on (set ph p handing) doom
  deletes_turn = (
    turn-moved_on ∙ ap (λ b. if b then ok (tt, moved_on) else ok (tt, s)) live,
    Inv-step s moved_on ph doom p handing inv
        (let (queues, without) =
            pop-deletion s.descriptors s.reactor_tasks.queue s.strands ph p rest
              (rw hq at inv.queues) in
          push-task s.descriptors s.strands rest (set ph p handing) p (hands_over p)
            s.reactor_tasks.queue
            (Queues-set s.descriptors s.reactor_tasks.queue s.strands rest ph p handing queues
              without)
            without refl (set_self ph p handing))
        (Frame-kept s moved_on p refl refl (λ k h. h))
        (Final-kept s moved_on doom p refl (λ k h. h) v).0,
  )
