-- ===== src/CancellableTask.antt =====
-- inc/baba/cancellable_task.h and src/cancellable_task.cpp. The mutex makes the run of a task and
-- `cancel` single steps. The owner cancels and then releases the shared state, which a task that runs
-- at that moment may keep for a while: the two are steps of their own.
pub mod Cancelling
mod Tests
use baba_io.Base.{ℕ, Bool, true, false, Option, none, some, List, [], ◌∷◌, ◌++◌, if◌then◌else◌}

-- `cancellable_task_`: whether it is in scope, and `none` when no pointer to it is left.
abbrev pub Shared : Type 0
Shared = Option Bool

abbrev pub create : Shared
create = some true

unfoldable pub cancel : Shared → Shared
cancel none = none
cancel (some in_scope) = some false

unfoldable pub release : Shared → Shared
release shared = none

-- The closure that `operator()` returns for a task: it calls the task if it can lock its weak pointer
-- and the object is in scope. The list holds the calls.
unfoldable pub run_task : (task : ℕ) → Shared → List ℕ
run_task task none = []
run_task task (some in_scope) = if in_scope then task ∷ [] else []

-- What threads do with one object and the closures made of it.
pub data Step : Type 0 where
  runs : (task : ℕ) → Step
  cancels releases : Step

-- The calls of a sequence of steps, in order, and the object afterwards.
unfoldable pub run : List Step → Shared → List ℕ × Shared
unfolding cancel release run_task
run [] s = ([], s)
run (runs task ∷ steps) s = let (calls, s') = run steps s in (run_task task s ++ calls, s')
run (cancels ∷ steps) s = run steps (cancel s)
run (releases ∷ steps) s = run steps (release s)
