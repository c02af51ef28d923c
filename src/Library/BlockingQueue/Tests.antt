-- ===== src/Library/BlockingQueue/Tests.antt =====
-- The theorems about the queue at concrete calls.
use baba_io.Base.{ℕ, ◌≡◌, ◌≢◌, refl, true, none, some, List, [], ◌∷◌, ◌++◌}
use baba_io.Library.BlockingQueue.{BlockingQueue, Op, enqueues, dequeues, stops, run, wait}
use baba_io.Library.BlockingQueue.Order.{inputs, run-order}
use baba_io.Library.BlockingQueue.Waiting.{Outcome, wait-Outcome, wait-stops}

abbrev calls : List (Op ℕ)
calls = enqueues 1 ∷ enqueues 2 ∷ dequeues ∷ enqueues 3 ∷ stops ∷ dequeues ∷ []

abbrev start : BlockingQueue ℕ
start = record { active = true; queue = 9 ∷ [] }

run-order_example : (run calls start).0 ++ (run calls start).1.queue ≡ start.queue ++ inputs calls
run-order_example = run-order calls start

calls_result :
    run calls start ≡ (9 ∷ 1 ∷ [], record { active = mathlib.Core.Bool.false; queue = 2 ∷ 3 ∷ [] })
unfolding run
calls_result = refl

-- The element of the first wake-up is taken by another thread.
abbrev stolen : List (List (Op ℕ))
stolen = (enqueues 1 ∷ dequeues ∷ []) ∷ (enqueues 2 ∷ []) ∷ []

abbrev idle : BlockingQueue ℕ
idle = record { active = true; queue = [] }

wait-Outcome_example : Outcome stolen idle (wait stolen idle)
wait-Outcome_example = wait-Outcome stolen idle

stolen_result : wait stolen idle ≡ some (record { active = true; queue = 2 ∷ [] }, [])
unfolding wait
stolen_result = refl

wait-stops_example : wait ((dequeues ∷ []) ∷ (dequeues ∷ stops ∷ []) ∷ []) idle ≢ none
wait-stops_example = wait-stops ((dequeues ∷ []) ∷ []) (dequeues ∷ []) [] [] idle
