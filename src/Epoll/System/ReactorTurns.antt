-- ===== src/Epoll/System/ReactorTurns.antt =====
-- The threads of the reactor, running or stopped, keep the invariant.
use baba_io.Base.{
  ℕ, ◌≡◌, ◌∙◌, refl, ap, ◌⊎◌, inl, inr, true, false, Bool-cases, some, Option, List, [], ◌∷◌, suc,
  arith, if◌then◌else◌,
}
use baba_io.Os.Kernel.{Kernel}
use baba_io.Epoll.State.{Service, ReactorTask, read_reacts, write_reacts, hands_over}
use baba_io.Epoll.Memory.{ok}
use baba_io.Epoll.Proactor.{run_reactor_task}
use baba_io.Epoll.System.Frames.{Frame-kept, EventOk-frame}
use baba_io.Epoll.System.Invariant.{Phase, reacting, handing, task_event, TaskFits, Inv}
use baba_io.Epoll.System.Reacting.{react_turn, hands_over_turn, HasStrand-insert}
use baba_io.Epoll.System.Reacting
use baba_io.Epoll.System.Keeping.{Keeps, keeps}
use baba_io.Epoll.System.Turns.{reactor_turn, deletion_turn}

reaction_phase : (x : ReactorTask) (n : Phase) → TaskFits x n → (n ≡ reacting) ⊎ (n ≡ handing)
reaction_phase (read_reacts d e) n h = inl h
reaction_phase (write_reacts d e) n h = inl h
reaction_phase (hands_over evt) n h = inr h

module _ {W : Type 0} (os : Kernel W) (s : Service W) (ph : ℕ → Phase) (doom : ℕ → Option ℕ)
    (inv : Inv s ph doom) where
  handed_over :
      (x : ReactorTask) (p : ℕ)
      → task_event s.descriptors x ≡ some p
      → TaskFits x handing
      → x ≡ hands_over p
  handed_over (read_reacts d e) p key h = cc
  handed_over (write_reacts d e) p key h = cc
  handed_over (hands_over evt) p key h = cc

  -- Running the task at the front of the queue keeps the invariant and leaves the rest of the queue.
  pub task-Takes :
      (x : ReactorTask) (rest : List ReactorTask)
      → s.reactor_tasks.queue ≡ x ∷ rest
      → (p : ℕ) → task_event s.descriptors x ≡ some p
      → TaskFits x (ph p)
      → s.run ≡ true
      → (u : Service W) × (phases : ℕ → Phase) × (reactor_turn os s ≡ ok (tt, u))
        × Inv u phases doom
        × (u.reactor_tasks.queue ≡ rest)
  task-Takes x rest hq p key fits live = elim (reaction_phase x (ph p) fits) [
    | inl busy ↦
        let (runs, inv₁) =
          react_turn os s ph doom inv p rest x hq key (rw busy at (inv.events p)) busy
            (rw busy at fits) live in
        (_, _, runs, inv₁, refl)
    | inr busy ↦
        let (runs, inv₁) =
          hands_over_turn os s ph doom inv p rest x hq key (rw busy at (inv.events p)) busy
            (handed_over x p key (rw busy at fits)) live in
        (_, _, runs, inv₁, refl)
  ]

  -- The task at the front of the queue of a service that has been stopped is dropped.
  pub dropped-Keeps :
      (x : ReactorTask) (rest : List ReactorTask)
      → s.reactor_tasks.queue ≡ x ∷ rest
      → (p : ℕ) → task_event s.descriptors x ≡ some p
      → TaskFits x (ph p)
      → s.run ≡ false
      → Keeps s doom (reactor_turn os)
  dropped-Keeps x rest hq p key fits dead =
      let u = Reacting.taken os s ph doom inv p rest in
      (
        u,
        ph,
        Reacting.turn-opened os s ph doom inv p rest x hq key
            ∙ ap (λ b. if b then run_reactor_task os x u else ok (tt, u)) dead,
        record {
          queues =
              (Reacting.left os s ph doom inv p rest x hq key (reaction_phase x (ph p) fits)).0;
          events = λ q.
              EventOk-frame s u doom (suc q) (Frame-kept s u (suc q) refl refl (λ j h. h)) q
                (λ e. omega arith) (ph q) (inv.events q);
        },
      )

  pub reactor-Keeps :
      (tasks : List ReactorTask) → s.reactor_tasks.queue ≡ tasks → Keeps s doom (reactor_turn os)
  unfolding reactor_turn
  reactor-Keeps [] hq = (s, ph, rw hq, inv)
  reactor-Keeps (x ∷ rest) hq =
      let known = (rw hq at inv.queues.tasks_known).0 in
      let fits = rw known.1 at (rw hq at inv.queues.tasks_placed).0 in
      elim (Bool-cases (s.run)) [
        | inl live ↦
            let (u, phases, runs, inv₁, _) = task-Takes x rest hq known.0 known.1 fits live in
            (u, phases, runs, inv₁)
        | inr dead ↦ dropped-Keeps x rest hq known.0 known.1 fits dead
      ]

  nothing_to_delete :
      s.deletions.queue ≡ [] → deletion_turn s ≡ (if s.run then ok (tt, s) else ok (tt, s))
  unfolding deletion_turn
  nothing_to_delete hq = simp (deletion_turn, hq)

  pub deletion-Keeps : (evts : List ℕ) → s.deletions.queue ≡ evts → Keeps s doom deletion_turn
  unfolding deletion_turn
  deletion-Keeps [] hq = elim (Bool-cases (s.run)) [
    | inl live ↦
        (s, ph, nothing_to_delete hq ∙ ap (λ b. if b then ok (tt, s) else ok (tt, s)) live, inv)
    | inr dead ↦
        (s, ph, nothing_to_delete hq ∙ ap (λ b. if b then ok (tt, s) else ok (tt, s)) dead, inv)
  ]
  deletion-Keeps (p ∷ rest) hq =
      let (busy, _) = rw hq at inv.queues.deletions_placed in
      elim (Bool-cases (s.run)) [
        | inl live ↦
            keeps s deletion_turn
              (Reacting.deletes_turn s ph doom inv p rest hq live (rw busy at (inv.events p)))
        | inr dead ↦ (s, ph, rw (dead, deletion_turn), inv)
      ]
