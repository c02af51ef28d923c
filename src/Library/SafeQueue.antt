-- ===== src/Library/SafeQueue.antt =====
-- detail/library/safe_queue.h. Each member function holds the mutex for its whole body.
use baba_io.Base.{ℕ, Option, none, some, List, [], ◌∷◌, ◌++◌, length}

pub record SafeQueue {ℓ} (A : Type ℓ) : Type ℓ where
  pub queue : List A

module _ {ℓ} {A : Type ℓ} where
  unfoldable pub empty : SafeQueue A
  empty = record { queue = [] }

  unfoldable pub enqueue : A → SafeQueue A → SafeQueue A
  enqueue e q = record { queue = q.queue ++ e ∷ [] }

  abbrev pop : List A → Option A × SafeQueue A
  pop [] = (none, record { queue = [] })
  pop (evt ∷ rest) = (some evt, record { queue = rest })

  unfoldable pub dequeue : SafeQueue A → Option A × SafeQueue A
  dequeue q = pop q.queue

  unfoldable pub size : SafeQueue A → ℕ
  size q = length q.queue
