-- ===== src/CancellableTask/Tests.antt =====
-- The theorem on cancelled tasks at a run with two tasks before and two after.
use baba_io.Base.{◌≡◌, [], ◌∷◌}
use baba_io.CancellableTask.{create, run, runs, cancels, releases}
use baba_io.CancellableTask.Cancelling.{cancels-silent}

cancels-silent_example :
    (run (runs 3 ∷ runs 4 ∷ cancels ∷ runs 5 ∷ releases ∷ runs 6 ∷ []) create).0 ≡ 3 ∷ 4 ∷ []
cancels-silent_example = cancels-silent (3 ∷ 4 ∷ []) (runs 5 ∷ releases ∷ runs 6 ∷ [])
