-- ===== src/Epoll/System/StrandTurns.antt =====
-- The thread of a strand, running or stopped, and those that post to it keep the invariant.
use baba_io.Base.{
  ℕ, ◌≡◌, ◌∙◌, refl, ap, inl, inr, true, false, Bool-cases, none, some, Option, List, [], ◌∷◌, ◌++◌,
  insert, insert_same, suc, arith, if◌then◌else◌,
}
use baba_io.Epoll.State.{Service, Strand, Task, ReactorTask, read_reacts, write_reacts, hands_over}
use baba_io.Epoll.State
use baba_io.Epoll.Memory.{ok, pure}
use baba_io.Epoll.Proactor.{run_task}
use baba_io.Epoll.System.Frames.{Frame-kept, EventOk-frame}
use baba_io.Epoll.System.Moves.{holding}
use baba_io.Epoll.System.StrandMoves.{push-posted}
use baba_io.Epoll.System.Invariant.{Phase, finalising, Final, Inv}
use baba_io.Epoll.System.Reacting.{HasStrand-insert}
use baba_io.Epoll.System.Finishing.{posts_turn, completes_turn, waits_turn}
use baba_io.Epoll.System.Finishing
use baba_io.Epoll.System.Keeping.{Keeps, keeps}
use baba_io.Epoll.System.Turns.{strand_turn, posting_turn}

module _ {W : Type 0} (s : Service W) (ph : ℕ → Phase) (doom : ℕ → Option ℕ)
    (inv : Inv s ph doom) where
  module _ (k : ℕ) (t : Strand) (ht : s.strands k ≡ some t) where
    -- A final event waits or deletes.
    finalises-Keeps :
        (p : ℕ) (rest : List Task)
        → t.completion_queue.queue ≡ State.completes p ∷ rest
        → (v : Final s doom p) → v.strand ≡ k
        → ph p ≡ finalising k
        → t.run ≡ true
        → Keeps s doom (strand_turn k)
    finalises-Keeps p rest hq v same busy live = elim (Bool-cases (v.target.has_active_event)) [
      | inl active ↦
          keeps s (strand_turn k)
            (waits_turn s ph doom inv k t ht rest p hq live v same busy active)
      | inr idle ↦
          keeps s (strand_turn k)
            (Finishing.deletes_turn s ph doom inv k t ht rest p hq live v same busy idle)
    ]

    -- A strand with nothing in its queue is as it was.
    nothing :
        t.completion_queue.queue ≡ []
        → strand_turn k s ≡ ok (tt, record s { strands = insert s.strands k t })
    unfolding strand_turn
    nothing hq = rw (ht, strand_turn, hq)

    -- The task at the front of the queue of a strand that has been stopped is dropped.
    dropped_task-Keeps :
        (x : Task) (rest : List Task)
        → t.completion_queue.queue ≡ x ∷ rest
        → t.run ≡ false
        → Keeps s doom (strand_turn k)
    dropped_task-Keeps x rest hq dead =
        let u = Finishing.taken s ph doom inv k t ht rest in
        (
          u,
          ph,
          Finishing.turn-opened s ph doom inv k t ht rest x hq
              ∙ ap (λ b. (if b then run_task x else pure tt) u) dead,
          record {
            queues = Finishing.left s ph doom inv k t ht rest x hq;
            events = λ q.
                EventOk-frame s u doom (suc q)
                  (Frame-kept s u (suc q) refl refl (λ j h. HasStrand-insert s.strands k j _ h)) q
                  (λ e. omega arith) (ph q) (inv.events q);
          },
        )

    live-Keeps :
        (x : Task) (rest : List Task)
        → t.completion_queue.queue ≡ x ∷ rest
        → t.run ≡ true
        → Keeps s doom (strand_turn k)
    live-Keeps (State.posted task) rest hq live =
        keeps s (strand_turn k) (posts_turn s ph doom inv k t ht rest task hq live)
    live-Keeps (State.completes p) rest hq live =
        let (placed, _) = rw hq at (inv.queues.completions_placed k t ht) in
        elim placed [
          | inl busy ↦
              keeps s (strand_turn k) (
                completes_turn s ph doom inv k t ht rest p hq live (rw busy at (inv.events p)) busy)
          | inr busy ↦
              let (v, same) = rw busy at (inv.events p) in
              finalises-Keeps p rest hq v same busy live
        ]

    strand-Keeps :
        (tasks : List Task) → t.completion_queue.queue ≡ tasks → Keeps s doom (strand_turn k)
    strand-Keeps (x ∷ rest) hq = elim (Bool-cases (t.run)) [
      | inl live ↦ live-Keeps x rest hq live
      | inr dead ↦ dropped_task-Keeps x rest hq dead
    ]
    strand-Keeps [] hq =
        let same = ap (λ strands. record s { strands = strands }) (insert_same s.strands k t ht) in
        (s, ph, nothing hq ∙ ap (λ u. ok (tt, u)) same, inv)

  pub thread-Keeps : (k : ℕ) (o : Option Strand) → s.strands k ≡ o → Keeps s doom (strand_turn k)
  unfolding strand_turn
  thread-Keeps k none ht = (s, ph, rw (ht, strand_turn), inv)
  thread-Keeps k (some t) ht = strand-Keeps k t ht t.completion_queue.queue refl

  module _ (k task : ℕ) where
    abbrev posted_to : Strand → Service W
    posted_to t = record s {
      strands = insert s.strands k (holding t (t.completion_queue.queue ++ State.posted task ∷ []));
    }

    posting_runs :
        (t : Strand) → s.strands k ≡ some t → posting_turn k task s ≡ ok (tt, posted_to t)
    unfolding posting_turn
    posting_runs t ht = rw (ht, posting_turn, ht)

    pub posting-Keeps : (o : Option Strand) → s.strands k ≡ o → Keeps s doom (posting_turn k task)
    unfolding posting_turn
    posting-Keeps none ht = (s, ph, rw (ht, posting_turn), inv)
    posting-Keeps (some t) ht = (
      posted_to t,
      ph,
      posting_runs t ht,
      record {
        queues =
            push-posted s.descriptors s.reactor_tasks.queue s.strands s.deletions.queue ph k t ht
              inv.queues task;
        events = λ q.
            EventOk-frame s (posted_to t) doom (suc q)
              (Frame-kept s (posted_to t) (suc q) refl refl
                (λ j h. HasStrand-insert s.strands k j _ h))
              q (λ e. omega arith) (ph q) (inv.events q);
      },
    )
