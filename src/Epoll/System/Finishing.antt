-- ===== src/Epoll/System/Finishing.antt =====
-- The thread of a strand keeps the invariant.
use baba_io.Base.{
  ℕ, suc, ◌≡◌, ◌≢◌, ◌∙◌, sym, refl, ap, ◌⊎◌, inl, inr, Bool, true, false, some, Option, List, ◌∷◌,
  insert, erase, insert_self, insert_ne, arith, if◌then◌else◌,
}
use baba_io.Epoll.State.{Service, Event, Strand, Task, completes, posted, task_call}
use baba_io.Epoll.Memory.{pure, ok, with_register}
use baba_io.Epoll.Deletion.Completion.{enqueued, complete_final_lem}
use baba_io.Epoll.Proactor.{run_task, run_complete}
use baba_io.Epoll.Proactor.Callbacks.{completed, run_complete_lem}
use baba_io.Epoll.System.Places.{set, set_self, set_ne}
use baba_io.Epoll.System.Frames.{Frame, Frame-kept, Final-kept, EventOk-frame, ne_or_eq}
use baba_io.Epoll.System.Moves.{holding, some_eq, Queues-set}
use baba_io.Epoll.System.StrandMoves.{pop-posted, pop-completion, push-completion}
use baba_io.Epoll.System.Reacting.{Inv-step, HasStrand-insert}
use baba_io.Epoll.System.Invariant.{
  Phase, resting, reacting, deleting, handing, completing, finalising, HasStrand, Completing, Final,
  EventOk, Queues, Without, Inv,
}
use baba_io.Epoll.System.Deleting.{EventOk-deleted}
use baba_io.Epoll.System.Turns.{strand_turn}

not_both : {b : Bool} → b ≡ false → b ≡ true → ⊥
not_both h k = cc (sym h ∙ k)

module _ {W : Type 0} (s : Service W) (ph : ℕ → Phase) (doom : ℕ → Option ℕ) (inv : Inv s ph doom)
    (k : ℕ) (t : Strand) (ht : s.strands k ≡ some t) (rest : List Task) where
  -- The service without the task that the strand has taken.
  abbrev pub taken : Service W
  taken = record s { strands = insert s.strands k (holding t rest) }

  strands_kept : (j : ℕ) → HasStrand s j → HasStrand taken j
  strands_kept j h = HasStrand-insert s.strands k j (holding t rest) h

  module _ (x : Task) (hq : t.completion_queue.queue ≡ x ∷ rest) where
    -- The task is run unless the strand has been stopped.
    pub turn-opened : strand_turn k s ≡ (if t.run then run_task x else pure tt) taken
    unfolding strand_turn
    turn-opened = rw (ht, strand_turn, hq)

    turn-taken : t.run ≡ true → strand_turn k s ≡ run_task x taken
    turn-taken live = turn-opened ∙ ap (λ b. (if b then run_task x else pure tt) taken) live

    pub left : Queues s.descriptors s.reactor_tasks.queue taken.strands s.deletions.queue ph
    left =
        pop-posted s.descriptors s.reactor_tasks.queue s.strands s.deletions.queue ph k t ht
          inv.queues x rest hq

  -- A task of the user is called.
  pub posts_turn :
      (task : ℕ)
      → t.completion_queue.queue ≡ posted task ∷ rest
      → t.run ≡ true
      → (strand_turn k s ≡ ok (tt, record taken { calls = task_call task ∷ s.calls }))
        × Inv (record taken { calls = task_call task ∷ s.calls }) ph doom
  unfolding run_task
  posts_turn task hq live = (
    turn-taken (posted task) hq live,
    record {
      queues = left (posted task) hq;
      events = λ q.
          EventOk-frame s (record taken { calls = task_call task ∷ s.calls }) doom (suc q)
            (Frame-kept s (record taken { calls = task_call task ∷ s.calls }) (suc q) refl refl
              strands_kept)
            q (λ e. omega arith) (ph q) (inv.events q);
    },
  )

  module _ (p : ℕ) (hq : t.completion_queue.queue ≡ completes p ∷ rest) (live : t.run ≡ true) where
    gone :
        (ph p ≡ completing k) ⊎ (ph p ≡ finalising k)
        → Without s.descriptors s.reactor_tasks.queue taken.strands s.deletions.queue p
    gone busy =
        pop-completion s.descriptors s.reactor_tasks.queue s.strands s.deletions.queue ph k t ht
          inv.queues p (completes p) rest hq refl busy

    -- The completion of an operation ends with its event at rest.
    module _ (v : Completing s p) (busy : ph p ≡ completing k) where
      abbrev pub after : Service W
      after = completed taken p v.event v.descriptor.in_scope v.call

      run_completes : run_task (completes p) taken ≡ ok (tt, after)
      unfolding run_task
      run_completes =
          rw (v.found, v.holds)
            (run_complete_lem taken p v.io_desc v.event v.descriptor v.found v.io v.open_io
              v.completion v.call v.mine v.owed)

      after-Frame : Frame s after p
      after-Frame = record {
        others = λ q ne. insert_ne s.registrar.register p q _ ne;
        kept = λ event found. (
          _,
          insert_self s.registrar.register p _,
          ap (λ (y : Event). y.id) (some_eq (sym v.found ∙ found)),
        );
        descriptors = refl;
        strands = strands_kept;
      }

      pub completes_turn : (strand_turn k s ≡ ok (tt, after)) × Inv after (set ph p resting) doom
      completes_turn = (
        turn-taken (completes p) hq live ∙ run_completes,
        Inv-step s after ph doom p resting inv
            (Queues-set s.descriptors s.reactor_tasks.queue taken.strands s.deletions.queue ph p
              resting (left (completes p) hq) (gone (inl busy)))
            after-Frame tt,
      )

    -- The final event of an active one goes to the back of the queue; that of an event at rest deletes
    -- both.
    module _ (v : Final s doom p) (same : v.strand ≡ k) (busy : ph p ≡ finalising k) where
      apart : v.victim ≢ p
      apart e = cc (sym v.free ∙ ap doom (sym e) ∙ v.dooms)

      abbrev pub waiting : Service W
      waiting = enqueued taken k (holding t rest) (completes p)

      abbrev pub deleted : Service W
      deleted = with_register taken (erase (erase s.registrar.register v.victim) p)

      run_finalises :
          run_task (completes p) taken
          ≡ (if v.target.has_active_event then ok (tt, waiting) else ok (tt, deleted))
      unfolding run_task run_complete
      run_finalises =
          rw (v.found, v.closure)
            (complete_final_lem taken v.victim p k v.target v.event (holding t rest) v.target_found
              v.found v.target_id v.id apart (v.on ∙ ap (λ j. some j) same)
              (insert_self s.strands k (holding t rest)))

      waiting_kept : (j : ℕ) → HasStrand s j → HasStrand waiting j
      waiting_kept j h = HasStrand-insert taken.strands k j _ (strands_kept j h)

      pub waits_turn :
          v.target.has_active_event ≡ true
          → (strand_turn k s ≡ ok (tt, waiting)) × Inv waiting (set ph p (finalising k)) doom
      waits_turn active = (
        turn-taken (completes p) hq live
            ∙ run_finalises
            ∙ ap (λ (b : Bool). if b then ok (tt, waiting) else ok (tt, deleted)) active,
        Inv-step s waiting ph doom p (finalising k) inv
            (push-completion s.descriptors s.reactor_tasks.queue taken.strands s.deletions.queue
              (set ph p (finalising k)) k (holding t rest)
              (insert_self s.strands k (holding t rest))
              (Queues-set s.descriptors s.reactor_tasks.queue taken.strands s.deletions.queue ph p
                (finalising k) (left (completes p) hq) (gone (inr busy)))
              p (gone (inr busy)) (inr (set_self ph p (finalising k))))
            (Frame-kept s waiting p refl refl waiting_kept)
            (let (g, e) = Final-kept s waiting doom p refl waiting_kept v in (g, e ∙ same)),
      )

      -- An event that is not active is in no queue.
      victim_rests :
          (n : Phase) → v.target.has_active_event ≡ false → EventOk s doom v.victim n → n ≡ resting
      victim_rests resting idle h = refl
      victim_rests reacting idle h = absurd (
          not_both idle (
            ap (λ (y : Event). y.has_active_event) (some_eq (sym v.target_found ∙ h.found))
            ∙ h.active))
      victim_rests (completing j) idle h = absurd (
          not_both idle (
            ap (λ (y : Event). y.has_active_event) (some_eq (sym v.target_found ∙ h.found))
            ∙ h.active))
      victim_rests deleting idle h = cc (sym h.free ∙ v.dooms)
      victim_rests handing idle h = cc (sym h.free ∙ v.dooms)
      victim_rests (finalising j) idle (h, e) = cc (sym h.free ∙ v.dooms)

      others_same :
          (q : ℕ)
          → p ≢ q
          → v.victim ≢ q
          → erase (erase s.registrar.register v.victim) p q ≡ s.registrar.register q
      others_same q other survivor = ground arith

      pub deletes_turn :
          v.target.has_active_event ≡ false
          → (strand_turn k s ≡ ok (tt, deleted)) × Inv deleted (set ph p resting) doom
      deletes_turn idle = (
        turn-taken (completes p) hq live
            ∙ run_finalises
            ∙ ap (λ (b : Bool). if b then ok (tt, waiting) else ok (tt, deleted)) idle,
        record {
          queues =
              Queues-set s.descriptors s.reactor_tasks.queue taken.strands s.deletions.queue ph p
                resting (left (completes p) hq) (gone (inr busy));
          events = λ q. elim (ne_or_eq p q) [
            | inl it ↦ rw (← it) (rw (set_self ph p resting) tt)
            | inr other ↦ rw (set_ne ph p q resting other) (elim (ne_or_eq v.victim q) [
              | inl it ↦ rw (← it) (rw (victim_rests (ph v.victim) idle (inv.events v.victim)) tt)
              | inr survivor ↦
                  EventOk-deleted s deleted doom p v.victim v.dooms v.free others_same refl
                    strands_kept q other survivor (ph q) (inv.events q)
            ])
          ];
        },
      )
