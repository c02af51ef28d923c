-- ===== src/Epoll/System/Safety.antt =====
-- Whatever turns the threads of a service take, none faults.
use baba_io.Base.{ℕ, ◌∙◌, refl, ap, Option, List, [], ◌∷◌}
use baba_io.Os.Kernel.{Kernel}
use baba_io.Epoll.State.{Service}
use baba_io.Epoll.Memory.{bind}
use baba_io.Epoll.System.Invariant.{Phase, Inv}
use baba_io.Epoll.System.Keeping.{Keeps}
use baba_io.Epoll.System.Turns.{
  Turn, reacts, deletes, posts, reactor_turn, strand_turn, deletion_turn, posting_turn, take_turn,
  run_turns,
}
use baba_io.Epoll.System.Turns
use baba_io.Epoll.System.ReactorTurns.{reactor-Keeps, deletion-Keeps}
use baba_io.Epoll.System.StrandTurns.{thread-Keeps, posting-Keeps}

module _ {W : Type 0} (os : Kernel W) (s : Service W) (ph : ℕ → Phase) (doom : ℕ → Option ℕ)
    (inv : Inv s ph doom) where
  pub take_turn-Keeps : (turn : Turn) → Keeps s doom (take_turn os turn)
  unfolding take_turn
  take_turn-Keeps reacts = reactor-Keeps os s ph doom inv s.reactor_tasks.queue refl
  take_turn-Keeps deletes = deletion-Keeps os s ph doom inv s.deletions.queue refl
  take_turn-Keeps (Turns.completes k) = thread-Keeps s ph doom inv k (s.strands k) refl
  take_turn-Keeps (posts k task) = posting-Keeps s ph doom inv k task (s.strands k) refl

-- From a service that satisfies the invariant, whatever turns the threads of the reactor tasks, of the
-- strands and of the deletion queue take, in any order, and whatever tasks are posted meanwhile, no
-- turn faults, and the service in the end satisfies the invariant with the same final events.
pub run_turns-Keeps :
    {W : Type 0} (os : Kernel W) (s : Service W) (ph : ℕ → Phase) (doom : ℕ → Option ℕ)
    → Inv s ph doom
    → (turns : List Turn) → Keeps s doom (run_turns os turns)
unfolding run_turns
run_turns-Keeps os s ph doom inv [] = (s, ph, refl, inv)
run_turns-Keeps os s ph doom inv (turn ∷ turns) =
    let (u, ph₁, runs, inv₁) = take_turn-Keeps os s ph doom inv turn in
    let (v, ph₂, runs₂, inv₂) = run_turns-Keeps os u ph₁ doom inv₁ turns in
    (v, ph₂, ap (λ r. bind r (λ _. run_turns os turns)) runs ∙ runs₂, inv₂)
