-- ===== src/Kqueue/Service/Draining.antt =====
-- A pass of the proactor's thread over a queue of any length.
use baba_io.Base.{ℕ, zero, suc, ◌≡◌, ◌<◌, ◌∙◌, refl, ap, some, List, [], ◌∷◌, length, arith, Table}
use baba_io.Epoll.Memory.{ok}
use baba_io.Kqueue.State.{Service, Event, Kqueue, Operations, Call}
use baba_io.Kqueue.Memory.{bind}
use baba_io.Kqueue.Reactor.Outcomes.{makes}
use baba_io.Kqueue.Service.{process_completion_queue, complete}
use baba_io.Kqueue.Service.Deletion.{popped, completes_first, completes_none}
use baba_io.Kqueue.Service.Reports.{calls_user}

-- The events of a queue have completions that make these calls, in this order.
pub data Owes (register : Table Event) : List ℕ → List Call → Type 0 where
  nothing : Owes register [] []
  owing :
      (p : ℕ)
      → (v : Event) → (c : Call) → (ps : List ℕ) → (cs : List Call) → register p ≡ some v
      → v.complete ≡ some (makes c)
      → Owes register ps cs
      → Owes register (p ∷ ps) (c ∷ cs)

-- The calls made, the latest first.
abbrev pub after : List Call → List Call → List Call
after [] calls = calls
after (c ∷ cs) calls = after cs (c ∷ calls)

module _ {W : Type 0} (kq : Kqueue W) (ops : Operations W) where
  one_call :
      (s : Service W)
      → (p : ℕ) → (v : Event) → (c : Call) → s.register p ≡ some v
      → v.complete ≡ some (makes c)
      → complete kq ops p s ≡ ok (tt, record s { calls = c ∷ s.calls })
  unfolding complete
  one_call s p v c hp hc = simp hp (simp hc (ap (λ f. f s) (calls_user kq ops c)))

  -- A pass over a completion queue of any length, whose events are registered and have completions that
  -- call the user, ends when it has more rounds than the queue has entries: the calls are made in the
  -- order of the queue, whether or not the scopes of the events have ended, the queue is empty, and nothing
  -- else has changed.
  pub process_completion_queue-calls :
      (s : Service W)
      → (ps : List ℕ) → (cs : List Call) → (f : ℕ) → Owes s.register ps cs
      → s.completion_queue.queue ≡ ps
      → length ps < f
      → process_completion_queue kq ops f s
        ≡ ok (
          tt,
          record s {
            completion_queue = record (s.completion_queue) { queue = [] };
            calls = after cs s.calls;
          },
        )
  process_completion_queue-calls s ps cs zero owes hq h = ground arith
  process_completion_queue-calls s ps cs (suc f) nothing hq h =
      completes_none kq ops s hq f
      ∙ (λ i. ok (tt, record s { completion_queue = record (s.completion_queue) { queue = hq i } }))
  process_completion_queue-calls s ps cs (suc f) (owing p v c ps' cs' hp hc rest) hq h =
      completes_first kq ops s p ps' hq f
      ∙ ap (λ x. bind x (λ _. process_completion_queue kq ops f))
          (one_call (popped s ps') p v c hp hc)
      ∙ process_completion_queue-calls (record (popped s ps') { calls = c ∷ s.calls }) ps' cs' f
          rest refl (omega arith)
