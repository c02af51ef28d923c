-- ===== src/Epoll/Proactor/Queue.antt =====
-- One round of the loop over a completion queue.
use baba_io.Base.{
  ℕ, suc, ◌+◌, ◌≡◌, ap, ◌∙◌, Bool, true, some, List, [], ◌∷◌, ◌++◌, map, length, arith, insert,
  insert_self, insert-insert,
}
use baba_io.Epoll.State.{Service, Event, Strand, Task, completes, posted, Call, task_call}
use baba_io.Epoll.Memory.{ok, ◌>>◌}
use baba_io.Epoll.Strand
use baba_io.Epoll.Deletion.Completion.{enqueue_lem}
use baba_io.Epoll.Proactor.{run_task, process_completion_queue}

-- A strand that runs, with the given tasks in its queue, and the service with that strand.
abbrev pub running : (active : Bool) → List Task → Strand
running active q = record { run = true; completion_queue = record { active = active; queue = q } }

abbrev pub at : {W : Type 0} → Service W → (strand : ℕ) → Bool → List Task → Service W
at s strand a q = record s { strands = insert s.strands strand (running a q) }

module _ {W : Type 0} (s : Service W) (strand : ℕ) (a : Bool) where
  pub at_strand : (q : List Task) → (at s strand a q).strands strand ≡ some (running a q)
  at_strand q = insert_self s.strands strand (running a q)

  at-at : (q r : List Task) → at (at s strand a q) strand a r ≡ at s strand a r
  at-at q r =
      ap (λ u. record s { strands = u })
        (insert-insert s.strands strand (running a q) (running a r))

  pub process-nil :
      (fuel : ℕ)
      → process_completion_queue (suc fuel) strand (at s strand a []) ≡ ok (tt, at s strand a [])
  unfolding process_completion_queue
  process-nil fuel = rw (at_strand []) (ap (λ u. ok (tt, u)) (at-at [] []))

  pub process-cons :
      (fuel : ℕ) (k : Task) (rest : List Task)
      → process_completion_queue (suc fuel) strand (at s strand a (k ∷ rest))
        ≡ (run_task k >> process_completion_queue fuel strand) (at s strand a rest)
  unfolding process_completion_queue
  process-cons fuel k rest =
      rw (at_strand (k ∷ rest))
        (ap (run_task k >> process_completion_queue fuel strand) (at-at (k ∷ rest) rest))

  pub enqueue-at :
      (evt : ℕ) (e : Event) (q : List Task)
      → s.registrar.register evt ≡ some e
      → e.strand ≡ some strand
      → Strand.enqueue evt (at s strand a q) ≡ ok (tt, at s strand a (q ++ completes evt ∷ []))
  enqueue-at evt e q he hs =
      enqueue_lem (at s strand a q) evt strand e (running a q) he hs (at_strand q)
      ∙ ap (λ u. ok (tt, u)) (at-at q (q ++ completes evt ∷ []))

-- The calls of posted tasks, latest first.
abbrev pub called : List ℕ → List Call → List Call
called [] calls = calls
called (x ∷ xs) calls = called xs (task_call x ∷ calls)

pub process-posted :
    {W : Type 0} (xs : List ℕ) (fuel : ℕ) (rest : List Task) (s : Service W) (strand : ℕ) (a : Bool)
    → process_completion_queue (length xs + suc fuel) strand (at s strand a (map posted xs ++ rest))
      ≡ process_completion_queue
          (suc fuel)
          strand
          (at (record s { calls = called xs s.calls }) strand a rest)
unfolding run_task
process-posted [] fuel rest s strand a =
    ap (λ n. process_completion_queue n strand (at s strand a rest)) (omega arith)
process-posted (x ∷ xs) fuel rest s strand a =
    ap (λ n. process_completion_queue n strand (at s strand a (posted x ∷ map posted xs ++ rest)))
      (omega arith)
    ∙ process-cons s strand a (length xs + suc fuel) (posted x) (map posted xs ++ rest)
    ∙ process-posted xs fuel rest (record s { calls = task_call x ∷ s.calls }) strand a
