-- ===== src/Library/BlockingQueue/Order.antt =====
-- First in, first out: what is dequeued is what was enqueued, in that order.
use mathlib.Core.List.{append_assoc, append-nil}
use baba_io.Base.{◌≡◌, refl, sym, ap, ◌∙◌, Option, none, some, List, [], ◌∷◌, ◌++◌, arith}
use baba_io.Library.BlockingQueue.{
  BlockingQueue, Op, enqueues, dequeues, stops, enqueue, dequeue, stop, prepend, run,
}

module _ {ℓ} {A : Type ℓ} where
  unfoldable pub inputs : List (Op A) → List A
  inputs [] = []
  inputs (enqueues x ∷ ops) = x ∷ inputs ops
  inputs (dequeues ∷ ops) = inputs ops
  inputs (stops ∷ ops) = inputs ops

  dequeue_lem : (q : BlockingQueue A) → prepend (dequeue q).0 (dequeue q).1.queue ≡ q.queue
  unfolding dequeue
  dequeue_lem q = ground arith

  prepend-append : (x : Option A) (xs ys : List A) → prepend x xs ++ ys ≡ prepend x (xs ++ ys)
  prepend-append none xs ys = refl
  prepend-append (some x) xs ys = refl

  -- Whatever calls are made on a queue, the elements that the dequeues returned followed by those
  -- still queued are the elements queued at first followed by those enqueued, in order: nothing is
  -- lost, repeated or overtaken.
  pub run-order :
      (ops : List (Op A)) (q : BlockingQueue A)
      → (run ops q).0 ++ (run ops q).1.queue ≡ q.queue ++ inputs ops
  unfolding run inputs
  run-order [] q = sym (append-nil q.queue)
  run-order (enqueues x ∷ ops) q =
      run-order ops (enqueue x q) ∙ append_assoc q.queue (x ∷ []) (inputs ops)
  run-order (dequeues ∷ ops) q =
      prepend-append (dequeue q).0 _ _
      ∙ ap (prepend (dequeue q).0) (run-order ops (dequeue q).1)
      ∙ sym (prepend-append (dequeue q).0 (dequeue q).1.queue (inputs ops))
      ∙ ap (λ xs. xs ++ inputs ops) (dequeue_lem q)
  run-order (stops ∷ ops) q = run-order ops (stop q)
