-- ===== src/Epoll/System/Draining.antt =====
-- The loops of the reactor over the two queues that it serves end, and keep the invariant.
use baba_io.Base.{
  ℕ, zero, suc, ◌<◌, length, ◌≡◌, ◌∙◌, refl, ap, inl, inr, true, false, Bool-cases, Option, List,
  [], ◌∷◌, arith, if◌then◌else◌,
}
use baba_io.Os.Kernel.{Kernel}
use baba_io.Epoll.State.{Service, ReactorTask}
use baba_io.Epoll.Memory.{ok, bind}
use baba_io.Epoll.Proactor.{run_reactor_task, process_reactor_queue}
use baba_io.Epoll.System.Invariant.{Phase, Inv}
use baba_io.Epoll.System.Keeping.{Keeps}
use baba_io.Epoll.System.ReactorTurns.{task-Takes, dropped-Keeps}
use baba_io.Epoll.System.Turns.{reactor_turn}

module _ {W : Type 0} (os : Kernel W) where
  module _ (s : Service W) (x : ReactorTask) (rest : List ReactorTask)
      (hq : s.reactor_tasks.queue ≡ x ∷ rest) (fuel : ℕ) where
    abbrev without : Service W
    without = record s { reactor_tasks = record (s.reactor_tasks) { queue = rest } }

    -- A round of the loop, and a turn.
    round : process_reactor_queue os (suc fuel) s ≡ (
        if s.run
        then bind (run_reactor_task os x without) (λ _. process_reactor_queue os fuel)
        else ok (tt, without))
    unfolding process_reactor_queue
    round = rw hq

    turn : reactor_turn os s ≡ (if s.run then run_reactor_task os x without else ok (tt, without))
    unfolding reactor_turn
    turn = rw hq

    going_on :
        s.run ≡ true
        → process_reactor_queue os (suc fuel) s
          ≡ bind (reactor_turn os s) (λ _. process_reactor_queue os fuel)
    going_on live = rw (round, turn, live)

    stopping : s.run ≡ false → process_reactor_queue os (suc fuel) s ≡ reactor_turn os s
    stopping dead = rw (round, turn, dead)

  draining :
      (doom : ℕ → Option ℕ) (tasks : List ReactorTask) (fuel : ℕ) (s : Service W) (ph : ℕ → Phase)
      → Inv s ph doom
      → s.reactor_tasks.queue ≡ tasks
      → length tasks < fuel
      → Keeps s doom (process_reactor_queue os fuel)
  unfolding process_reactor_queue
  draining doom [] zero s ph inv hq enough = absurd (omega arith)
  draining doom [] (suc fuel) s ph inv hq enough = (s, ph, rw hq, inv)
  draining doom (x ∷ rest) zero s ph inv hq enough = absurd (omega arith)
  draining doom (x ∷ rest) (suc fuel) s ph inv hq enough =
      let known = (rw hq at inv.queues.tasks_known).0 in
      let fits = rw known.1 at (rw hq at inv.queues.tasks_placed).0 in
      elim (Bool-cases (s.run)) [
        | inl live ↦
            let (u, ph₁, runs, inv₁, hq₁) =
              task-Takes os s ph doom inv x rest hq known.0 known.1 fits live in
            let (v, ph₂, runs₂, inv₂) = draining doom rest fuel u ph₁ inv₁ hq₁ (omega arith) in
            (
              v,
              ph₂,
              going_on s x rest hq fuel live
                  ∙ ap (λ r. bind r (λ _. process_reactor_queue os fuel)) runs
                  ∙ runs₂,
              inv₂,
            )
        | inr dead ↦
            let (u, ph₁, runs, inv₁) =
              dropped-Keeps os s ph doom inv x rest hq known.0 known.1 fits dead in
            (u, ph₁, stopping s x rest hq fuel dead ∙ runs, inv₁)
      ]

  -- A thread of reactor tasks that processes the queue, in a service that satisfies the invariant,
  -- returns without a fault and keeps the invariant. One round more than the queue has tasks is
  -- enough, running or stopped.
  pub process_reactor_queue-Keeps :
      (s : Service W) (ph : ℕ → Phase) (doom : ℕ → Option ℕ) (fuel : ℕ)
      → Inv s ph doom
      → length s.reactor_tasks.queue < fuel
      → Keeps s doom (process_reactor_queue os fuel)
  process_reactor_queue-Keeps s ph doom fuel inv enough =
      draining doom s.reactor_tasks.queue fuel s ph inv refl enough
