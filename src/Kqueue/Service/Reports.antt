-- ===== src/Kqueue/Service/Reports.antt =====
-- An operation from the report of its event to the call of the user.
use baba_io.Base.{
  ℕ, suc, pos, ◌==ℤ◌, ◌≡◌, ◌∙◌, refl, ap, some, List, [], ◌∷◌, ◌++◌, false, int_same, key_same,
}
use baba_io.Library.SafeQueue
use baba_io.Os.Codes.{ok_code}
use baba_io.Os.Kernel.{Ret}
use baba_io.Epoll.Memory.{ok}
use baba_io.Kqueue.State.{
  Service, Event, Descriptor, Kqueue, Operations, React, Call, code_call, bytes_call, Udata,
  registered,
}
use baba_io.Kqueue.Memory.{bind, pure, call, ◌>>◌}
use baba_io.Kqueue.Impl
use baba_io.Kqueue.Reactor.{run_complete, entry, entries, wait, max_kqueue_events}
use baba_io.Kqueue.Reactor.Outcomes.{reacts_on, outcome, makes, completing, entry-outcome}
use baba_io.Kqueue.Service.{
  process_initiation_queue, process_completion_queue, reactor_round, complete,
}
use baba_io.Kqueue.Service.Deletion.{popped, completes_first, completes_none}

module _ {W : Type 0} (kq : Kqueue W) (ops : Operations W) (s : Service W) (p : ℕ)
    (evts : List Udata) (r : Ret) (w : W) where
  -- One entry that is reported runs, and the wait ends with the code of success.
  pub wait_one :
      kq.kevent_wait s.reactor_fd max_kqueue_events s.world ≡ (r, registered p ∷ evts, w)
      → r.value ≡ pos 1
      → (t : Service W) → entry kq ops (registered p) (record s { world = w }) ≡ ok (tt, t)
      → wait kq ops s ≡ ok (ok_code, t)
  unfolding wait entries Impl.wait
  wait_one h one t e =
      simp h (simp one (ap (λ x. bind (bind x (λ _. pure tt)) (λ _. pure ok_code)) e))

module _ {W : Type 0} (kq : Kqueue W) (ops : Operations W) where
  pub calls_user : (c : Call) → run_complete kq ops (makes c) ≡ call c
  unfolding run_complete
  calls_user (code_call cb e) = refl
  calls_user (bytes_call cb e bytes) = refl

module _ {W : Type 0} (s : Service W) (p : ℕ) (v : Event) (c : Call) (w : W) where
  -- The service once a completion that is queued has made its call.
  abbrev pub called : Service W
  called = record (completing s p v (makes c) w) {
    completion_queue = record (s.completion_queue) { queue = [] };
    calls = c ∷ s.calls;
  }

module _ {W : Type 0} (kq : Kqueue W) (ops : Operations W) (s : Service W) (p : ℕ) (v : Event)
    (c : Call) (w : W) where
  pub completed_call :
      s.completion_queue.queue ≡ []
      → (n : ℕ)
      → process_completion_queue kq ops (suc (suc n)) (completing s p v (makes c) w)
        ≡ ok (tt, called s p v c w)
  unfolding complete
  completed_call hc n =
      completes_first kq ops (completing s p v (makes c) w) p [] (ap (λ q. q ++ p ∷ []) hc) (suc n)
      ∙ simp (key_same p) (
          ap
            (λ f.
              bind (f (popped (completing s p v (makes c) w) []))
                (λ _. process_completion_queue kq ops (suc n)))
            (calls_user kq ops c)
          ∙ completes_none kq ops (called s p v c w) refl n)

module _ {W : Type 0} (kq : Kqueue W) (ops : Operations W) (s : Service W) where
  pub initiates_none :
      s.initiation_queue.queue ≡ []
      → (n : ℕ) → process_initiation_queue kq ops (suc n) s ≡ ok (tt, s)
  unfolding process_initiation_queue SafeQueue.size
  initiates_none h n = simp h refl

module _ {W : Type 0} (kq : Kqueue W) (ops : Operations W) (s : Service W) (p io_desc : ℕ)
    (v : Event) (d : Descriptor) (r : React) (ret : Ret) (evts : List Udata) (w : W) where
  abbrev waited : Service W
  waited = record s { world = w }

  abbrev reported : Service W
  reported = completing waited p v (makes (outcome ops r d.fd w).0) (outcome ops r d.fd w).1

  -- Nothing is queued, and the kernel reports one event, which is registered with its descriptor and the
  -- reaction of an operation of its own, of any of the seven kinds, on a handle that is not that of the
  -- self pipe. Then a round of the reactor and a pass over the completion queue call the user once, with
  -- what the operation's call of the system returns (a connection and a timer with success), and change
  -- nothing else but the event's completion and the state of the operating system.
  pub reactor_round-calls :
      s.register p ≡ some v
      → v.descriptor ≡ some io_desc
      → s.descriptors io_desc ≡ some d
      → v.react ≡ some r
      → reacts_on r ≡ p
      → (d.fd ==ℤ s.interrupter_fd) ≡ false
      → s.initiation_queue.queue ≡ []
      → s.completion_queue.queue ≡ []
      → kq.kevent_wait s.reactor_fd max_kqueue_events s.world ≡ (ret, registered p ∷ evts, w)
      → ret.value ≡ pos 1
      → (m n : ℕ)
      → (reactor_round kq ops (suc m) >> process_completion_queue kq ops (suc (suc n))) s
        ≡ ok (tt, called waited p v (outcome ops r d.fd w).0 (outcome ops r d.fd w).1)
  unfolding reactor_round
  reactor_round-calls hp hd hs hr mine apart hq hc told ready m n =
      simp (initiates_none kq ops s hq m) (
        simp
          (wait_one kq ops s p evts ret w told ready reported
            (entry-outcome kq ops waited p io_desc v d hp hd hs r hr mine apart))
          (completed_call kq ops waited p v (outcome ops r d.fd w).0 (outcome ops r d.fd w).1 hc n))

module _ {W : Type 0} (kq : Kqueue W) (ops : Operations W) (s : Service W) (p io_desc : ℕ)
    (v : Event) (d : Descriptor) (ret : Ret) (evts : List Udata) (w : W) where
  skips :
      s.register p ≡ some v
      → v.descriptor ≡ some io_desc
      → s.descriptors io_desc ≡ some d
      → d.fd ≡ s.interrupter_fd
      → entry kq ops (registered p) (record s { world = w }) ≡ ok (tt, record s { world = w })
  unfolding entry
  skips hp hd hs same = simp (hp, hd, hs) (simp same (simp (int_same s.interrupter_fd) refl))

  -- A report of an event whose handle has the number of the self pipe's read end, as the ident of a
  -- timer may have: nothing is run and no completion is queued, though the kernel has dropped the event.
  pub reactor_round-skips :
      s.register p ≡ some v
      → v.descriptor ≡ some io_desc
      → s.descriptors io_desc ≡ some d
      → d.fd ≡ s.interrupter_fd
      → s.initiation_queue.queue ≡ []
      → kq.kevent_wait s.reactor_fd max_kqueue_events s.world ≡ (ret, registered p ∷ evts, w)
      → ret.value ≡ pos 1
      → (m : ℕ) → reactor_round kq ops (suc m) s ≡ ok (tt, record s { world = w })
  unfolding reactor_round
  reactor_round-skips hp hd hs same hq told ready m = simp (initiates_none kq ops s hq m) (
      simp
        (wait_one kq ops s p evts ret w told ready (record s { world = w }) (skips hp hd hs same))
        refl)
