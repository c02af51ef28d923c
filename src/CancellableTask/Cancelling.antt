-- ===== src/CancellableTask/Cancelling.antt =====
-- No task runs once its owner has gone, and every task runs before.
use mathlib.Core.List.{append-nil}
use baba_io.Base.{ℕ, ◌≡◌, refl, ap, ◌∙◌, ◌≢◌, true, false, none, some, List, [], ◌∷◌, ◌++◌, map}
use baba_io.CancellableTask.{Shared, Step, runs, cancels, releases, create, cancel, run}

run-out_of_scope : (steps : List Step) (s : Shared) → s ≢ create → (run steps s).0 ≡ []
unfolding run
run-out_of_scope [] s h = refl
run-out_of_scope (runs task ∷ steps) none h = run-out_of_scope steps none h
run-out_of_scope (runs task ∷ steps) (some true) h = absurd (h refl)
run-out_of_scope (runs task ∷ steps) (some false) h = run-out_of_scope steps (some false) h
run-out_of_scope (cancels ∷ steps) none h = run-out_of_scope steps none h
run-out_of_scope (cancels ∷ steps) (some b) h = run-out_of_scope steps (some false) (λ e. cc)
run-out_of_scope (releases ∷ steps) s h = run-out_of_scope steps none (λ e. cc)

cancelled : (s : Shared) → cancel s ≢ create
unfolding cancel
cancelled none e = cc
cancelled (some b) e = cc

run-live :
    (tasks : List ℕ) (s : List Step)
    → (run (map runs tasks ++ s) create).0 ≡ tasks ++ (run s create).0
unfolding run
run-live [] s = refl
run-live (t ∷ tasks) s = ap (λ calls. t ∷ calls) (run-live tasks s)

-- The tasks that run before the owner cancels are called, each once and in order, and no task that
-- runs later is, whether the object has been released by then or not.
pub cancels-silent :
    (tasks : List ℕ) (later : List Step)
    → (run (map runs tasks ++ cancels ∷ later) create).0 ≡ tasks
unfolding run
cancels-silent tasks later =
    run-live tasks (cancels ∷ later)
    ∙ ap (λ calls. tasks ++ calls) (run-out_of_scope later (cancel create) (cancelled create))
    ∙ append-nil tasks
