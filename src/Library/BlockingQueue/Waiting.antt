-- ===== src/Library/BlockingQueue/Waiting.antt =====
-- When `wait` returns: only on a queue with an element or a stopped one, and on every stopped one.
use baba_io.Base.{
  ◌≡◌, ◌≢◌, refl, true, false, Option, none, some, List, [], ◌∷◌, ◌++◌, arith, ap, Bool-cases, inl,
  inr,
}
use baba_io.Library.BlockingQueue.{
  BlockingQueue, Op, enqueues, dequeues, stops, enqueue, dequeue, stop, sleeps, run, wait,
}

module _ {ℓ} {A : Type ℓ} where
  pub wait-awake :
      (rounds : List (List (Op A))) (q : BlockingQueue A)
      → sleeps q ≡ false
      → wait rounds q ≡ some (q, rounds)
  unfolding wait
  wait-awake [] q h = rw h
  wait-awake (ops ∷ rounds) q h = rw h

  -- The queue after the calls of several wake-ups.
  unfoldable pub after : List (List (Op A)) → BlockingQueue A → BlockingQueue A
  unfolding run
  after [] q = q
  after (ops ∷ rounds) q = after rounds (run ops q).1

  -- Where a waiter returns: after some of the wake-ups, on a queue that no longer lets it sleep.
  pub record Returned (rounds rest : List (List (Op A))) (q q' : BlockingQueue A) : Type ℓ where
    pub used : List (List (Op A))
    pub split : rounds ≡ used ++ rest
    pub reached : q' ≡ after used q
    pub awake : sleeps q' ≡ false

  -- Where it does not: it is asleep after all of them.
  pub record Asleep (rounds : List (List (Op A))) (q : BlockingQueue A) : Type ℓ where
    pub asleep : sleeps (after rounds q) ≡ true

  abbrev pub Outcome :
      List (List (Op A)) → BlockingQueue A → Option (BlockingQueue A × List (List (Op A))) → Type ℓ
  Outcome rounds q none = Asleep rounds q
  Outcome rounds q (some (q', rest)) = Returned rounds rest q q'

  Returned-now :
      (rounds : List (List (Op A))) (q : BlockingQueue A)
      → sleeps q ≡ false
      → Returned rounds rounds q q
  unfolding after
  Returned-now rounds q h = record { used = []; split = refl; reached = refl; awake = h }

  Outcome-later :
      (ops : List (Op A)) (rounds : List (List (Op A))) (q : BlockingQueue A)
      (r : Option (BlockingQueue A × List (List (Op A))))
      → Outcome rounds (run ops q).1 r
      → Outcome (ops ∷ rounds) q r
  unfolding after
  Outcome-later ops rounds q none h = record { asleep = h.asleep }
  Outcome-later ops rounds q (some (q', rest)) h = record {
    used = ops ∷ h.used;
    split = ap (λ xs. ops ∷ xs) h.split;
    reached = h.reached;
    awake = h.awake;
  }

  -- A call of `wait` either returns, after some of the wake-ups and on a queue that holds an element
  -- or is stopped, or sleeps through all of them, and then the queue is active and empty.
  pub wait-Outcome :
      (rounds : List (List (Op A))) (q : BlockingQueue A) → Outcome rounds q (wait rounds q)
  unfolding wait after
  wait-Outcome [] q = elim (Bool-cases (sleeps q)) [
    | inl asleep ↦ rw asleep (record { asleep = asleep })
    | inr awake ↦ rw awake (Returned-now [] q awake)
  ]
  wait-Outcome (ops ∷ rounds) q = elim (Bool-cases (sleeps q)) [
    | inl asleep ↦ rw asleep (Outcome-later ops rounds q _ (wait-Outcome rounds (run ops q).1))
    | inr awake ↦ rw awake (Returned-now (ops ∷ rounds) q awake)
  ]

  pub inactive-awake : (q : BlockingQueue A) → q.active ≡ false → sleeps q ≡ false
  unfolding sleeps
  inactive-awake q h = rw h

  run-inactive :
      (ops : List (Op A)) (q : BlockingQueue A) → q.active ≡ false → (run ops q).1.active ≡ false
  unfolding run
  run-inactive [] q h = h
  run-inactive (enqueues x ∷ ops) q h = run-inactive ops (enqueue x q) h
  run-inactive (dequeues ∷ ops) q h = run-inactive ops (dequeue q).1 (ground arith)
  run-inactive (stops ∷ ops) q h = run-inactive ops (stop q) refl

  run-stops :
      (before later : List (Op A)) (q : BlockingQueue A)
      → (run (before ++ stops ∷ later) q).1.active ≡ false
  unfolding run
  run-stops [] later q = run-inactive later (stop q) refl
  run-stops (enqueues x ∷ ops) later q = run-stops ops later (enqueue x q)
  run-stops (dequeues ∷ ops) later q = run-stops ops later (dequeue q).1
  run-stops (stops ∷ ops) later q = run-stops ops later (stop q)

  -- A `stop` by another thread makes every waiter return, at the latest with the wake-up that
  -- follows it, whatever other calls surround it.
  pub wait-stops :
      (rounds : List (List (Op A))) (before later : List (Op A)) (rest : List (List (Op A)))
      (q : BlockingQueue A)
      → wait (rounds ++ (before ++ stops ∷ later) ∷ rest) q ≢ none
  unfolding wait
  wait-stops [] before later rest q = elim (Bool-cases (sleeps q)) [
    | inl asleep ↦ rw asleep (
        rw
          (wait-awake rest (run (before ++ stops ∷ later) q).1
            (inactive-awake (run (before ++ stops ∷ later) q).1 (run-stops before later q)))
          (λ e. cc))
    | inr awake ↦ rw awake (λ e. cc)
  ]
  wait-stops (ops ∷ rounds) before later rest q = elim (Bool-cases (sleeps q)) [
    | inl asleep ↦ rw asleep (wait-stops rounds before later rest (run ops q).1)
    | inr awake ↦ rw awake (λ e. cc)
  ]
