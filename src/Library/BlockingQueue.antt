-- ===== src/Library/BlockingQueue.antt =====
-- detail/library/blocking_queue.h. Each member function holds the mutex for its whole body, so it is
-- one step on the state; the head of the list is the front of the deque.
pub mod Order
pub mod Waiting
mod Tests
use baba_io.Base.{
  ℕ, Bool, true, false, ◌&&◌, Option, none, some, List, [], ◌∷◌, ◌++◌, length, ◌==◌, if◌then◌else◌,
}

pub record BlockingQueue {ℓ} (A : Type ℓ) : Type ℓ where
  pub active : Bool
  pub queue : List A

-- The calls that threads make on one queue, in the order in which they take the mutex.
pub data Op {ℓ} (A : Type ℓ) : Type ℓ where
  enqueues : A → Op A
  dequeues : Op A
  stops : Op A

module _ {ℓ} {A : Type ℓ} where
  unfoldable pub empty : BlockingQueue A
  empty = record { active = true; queue = [] }

  unfoldable pub enqueue : A → BlockingQueue A → BlockingQueue A
  enqueue e q = record q { queue = q.queue ++ e ∷ [] }

  unfoldable pub size : BlockingQueue A → ℕ
  size q = length q.queue

  abbrev pop_front : List A → Option (A × List A)
  pop_front [] = none
  pop_front (evt ∷ rest) = some (evt, rest)

  -- The value that is returned, and the queue afterwards.
  unfoldable pub dequeue : BlockingQueue A → Option A × BlockingQueue A
  dequeue q = elim (pop_front q.queue) [
    | none ↦ (none, q)
    | some (evt, rest) ↦ (some evt, record q { queue = rest })
  ]

  unfoldable pub stop : BlockingQueue A → BlockingQueue A
  stop q = record q { active = false }

  unfoldable pub clear : BlockingQueue A → BlockingQueue A
  clear q = record q { queue = [] }

  -- The condition under which `wait` goes on sleeping.
  unfoldable pub sleeps : BlockingQueue A → Bool
  unfolding size
  sleeps q = q.active && size q == 0

  abbrev pub prepend : Option A → List A → List A
  prepend none xs = xs
  prepend (some x) xs = x ∷ xs

  -- What the dequeues return, and the queue in the end.
  unfoldable pub run : List (Op A) → BlockingQueue A → List A × BlockingQueue A
  unfolding enqueue dequeue stop
  run [] q = ([], q)
  run (enqueues x ∷ ops) q = run ops (enqueue x q)
  run (dequeues ∷ ops) q = let (x, q') = dequeue q in let (xs, r) = run ops q' in (prepend x xs, r)
  run (stops ∷ ops) q = run ops (stop q)

  -- `wait`, given for each wake-up the calls that other threads have made before the waiter has the
  -- mutex again. `none` means that it sleeps still after the last of them; otherwise the queue on
  -- return and the wake-ups that it did not need.
  unfoldable pub wait :
      List (List (Op A)) → BlockingQueue A → Option (BlockingQueue A × List (List (Op A)))
  unfolding sleeps run
  wait [] q = if sleeps q then none else some (q, [])
  wait (ops ∷ rest) q =
      let later = wait rest (run ops q).1 in if sleeps q then later else some (q, ops ∷ rest)
