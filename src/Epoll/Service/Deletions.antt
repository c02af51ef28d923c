-- ===== src/Epoll/Service/Deletions.antt =====
-- The deletion queue is handed over to the reactor tasks.
use mathlib.Core.List.{append_assoc, append-nil}
use baba_io.Base.{
  ℕ, zero, suc, ◌<◌, ◌≡◌, sym, ap, ◌∙◌, true, List, [], ◌∷◌, ◌++◌, map, length, arith, suc-eq-zero,
}
use baba_io.Epoll.State.{Service, ReactorTask, hands_over}
use baba_io.Epoll.Memory.{ok}
use baba_io.Epoll.Service.{process_deletion_queue}

-- A running service with the given final events in its deletion queue and the given tasks.
abbrev pub queued : {W : Type 0} → Service W → List ℕ → List ReactorTask → Service W
queued s q tasks = record s {
  run = true;
  deletions = record { queue = q };
  reactor_tasks = record (s.reactor_tasks) { queue = tasks };
}

-- While the service runs, its deletion queue is emptied, with as many rounds as it has entries and one
-- more: the final events join the reactor tasks behind all that are queued there, in their order, and
-- nothing else changes.
pub process_deletion_queue_lem :
    {W : Type 0} (q : List ℕ) (fuel : ℕ) (tasks : List ReactorTask) (s : Service W)
    → length q < fuel
    → process_deletion_queue fuel (queued s q tasks)
      ≡ ok (tt, queued s [] (tasks ++ map hands_over q))
unfolding process_deletion_queue
process_deletion_queue_lem q zero tasks s h = absurd (omega arith)
process_deletion_queue_lem [] (suc fuel) tasks s h =
    ap (λ t. ok (tt, queued s [] t)) (sym (append-nil tasks))
process_deletion_queue_lem (evt ∷ q) (suc fuel) tasks s h =
    (rw (suc-eq-zero (length q))
      (process_deletion_queue_lem q fuel (tasks ++ hands_over evt ∷ []) s (omega arith)))
    ∙ ap (λ t. ok (tt, queued s [] t)) (append_assoc tasks (hands_over evt ∷ []) (map hands_over q))
