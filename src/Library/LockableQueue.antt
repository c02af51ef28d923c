-- ===== src/Library/LockableQueue.antt =====
-- detail/library/lockable_queue.h. `enqueue` takes the mutex itself; the callers of `size` and
-- `dequeue` hold it.
use baba_io.Base.{ℕ, Option, none, some, List, [], ◌∷◌, ◌++◌, length}

pub record LockableQueue {ℓ} (A : Type ℓ) : Type ℓ where
  pub queue : List A

module _ {ℓ} {A : Type ℓ} where
  unfoldable pub empty : LockableQueue A
  empty = record { queue = [] }

  unfoldable pub enqueue : A → LockableQueue A → LockableQueue A
  enqueue e q = record { queue = q.queue ++ e ∷ [] }

  abbrev pop : List A → Option (A × LockableQueue A)
  pop [] = none
  pop (evt ∷ rest) = some (evt, record { queue = rest })

  -- `none` where the assertion `size() > 0` fails.
  unfoldable pub dequeue : LockableQueue A → Option (A × LockableQueue A)
  dequeue q = pop q.queue

  unfoldable pub size : LockableQueue A → ℕ
  size q = length q.queue
