-- ===== src/Kqueue/Service/Race.antt =====
-- A report of an event that comes in the round in which its final event is initiated.
use baba_io.Base.{
  ℕ, suc, pos, ◌==ℤ◌, ◌≡◌, ◌≢◌, ◌∙◌, sym, refl, ap, some, List, [], ◌∷◌, ◌++◌, false, insert_self,
  key_other, key_same,
}
use baba_io.Os.Kernel.{Ret}
use baba_io.Epoll.Memory.{ok, fault, dangling_event}
use baba_io.Kqueue.State.{Service, Event, Descriptor, Kqueue, Operations, React, Udata, registered}
use baba_io.Kqueue.Memory.{◌>>◌}
use baba_io.Kqueue.Reactor.{entry, max_kqueue_events}
use baba_io.Kqueue.Reactor.Outcomes.{reacts_on, outcome, makes, completing, entry-outcome}
use baba_io.Kqueue.Service.{process_completion_queue, reactor_round, complete}
use baba_io.Kqueue.Service.Deletion.{
  final_done, initiated, completes_first, completes_final, closed,
}
use baba_io.Kqueue.Service.Reports.{wait_one}
use baba_io.Kqueue.Service.Lifetime.{Idle, gone, one, other, goes, starts, kept, written}

module _ {W : Type 0} (kq : Kqueue W) (ops : Operations W) (s : Service W) (p io_desc : ℕ)
    (v : Event) (d : Descriptor) (idle : Idle kq s p io_desc v d) (r : React)
    (hr : v.react ≡ some r) (mine : reacts_on r ≡ p) (apart : (d.fd ==ℤ s.interrupter_fd) ≡ false)
    (ret : Ret) (evts : List Udata) (w : W) where
  abbrev k : ℕ
  k = s.id_generator

  distinct : p ≢ k
  distinct = other kq ops s p io_desc v d idle

  -- The state when the wait returns.
  abbrev waited : Service W
  waited = record (initiated (one kq s p io_desc d) p k) { world = w }

  abbrev reported : Service W
  reported = completing waited p v (makes (outcome ops r d.fd w).0) (outcome ops r d.fd w).1

  reports : entry kq ops (registered p) waited ≡ ok (tt, reported)
  reports =
      entry-outcome kq ops waited p io_desc v (record d { refs = 1 })
        (kept kq ops s p io_desc v d idle) idle.points
        (insert_self s.descriptors io_desc (record d { refs = 1 })) r hr mine apart

  dangles : (n : ℕ) → process_completion_queue kq ops (suc (suc n)) reported ≡ fault dangling_event
  unfolding complete
  dangles n =
      completes_final kq ops reported p k io_desc
        (record v { complete = some (makes (outcome ops r d.fd w).0) }) (record d { refs = 1 })
        (p ∷ []) (ap (λ q. (q ++ k ∷ []) ++ p ∷ []) idle.no_completions) distinct
        (simp (key_other p k distinct)
          (insert_self (one kq s p io_desc d).register k (final_done p k)))
        (insert_self waited.register p _) idle.own idle.points
        (insert_self s.descriptors io_desc (record d { refs = 1 })) refl idle.valid (suc n)
      ∙ completes_first kq ops (closed kq reported p k io_desc (record d { refs = 1 }) (p ∷ [])) p
          [] refl n
      ∙ simp (key_other k p (λ e. distinct (sym e)), key_same p) refl

  -- The destructor of an object that is idle but for an operation in progress, which has its reaction,
  -- when the wait of the round that starts the final event reports the event, on a handle that is not
  -- that of the self pipe: the pass over the completion queue deletes the event for the final event, and
  -- then reads it, deleted, for the completion that the report has queued.
  pub destroy-reactor_round :
      kq.kevent_wait s.reactor_fd max_kqueue_events (written kq s p io_desc d)
        ≡ (ret, registered p ∷ evts, w)
      → ret.value ≡ pos 1
      → (m n : ℕ)
      → (gone kq p io_desc
            >> reactor_round kq ops (suc (suc m))
            >> process_completion_queue kq ops (suc (suc n)))
          s
        ≡ fault dangling_event
  unfolding reactor_round
  destroy-reactor_round told ready m n = simp (goes kq ops s p io_desc v d idle) (
      simp (starts kq ops s p io_desc v d idle m) (
        simp
          (wait_one kq ops (initiated (one kq s p io_desc d) p k) p evts ret w told ready reported
            reports)
          (dangles n)))
