-- ===== src/Kqueue/Service/Initiations.antt =====
-- The start of an operation on the reactor's thread, for all kinds but a connection.
use baba_io.Base.{
  ℕ, suc, pos, ◌==◌, ◌==ℤ◌, ◌≡◌, ◌∙◌, refl, some, [], ◌∷◌, insert, true, false, inl, inr,
  Bool-cases, if◌then◌else◌, minus_one,
}
use baba_io.Library.SafeQueue
use baba_io.Os.Codes.{ErrorCode, ok_code, IoHandle}
use baba_io.Os.Kernel.{Ret}
use baba_io.Epoll.Memory.{Run, ok}
use baba_io.Kqueue.State.{
  Service, Event, Descriptor, Kqueue, Operations, Initiate, Filter, Call, code_call, bytes_call,
  registered, recv_initiates, send_initiates, accept_initiates, recv_from_initiates,
  send_to_initiates, timer_initiates, evfilt_read, evfilt_write, evfilt_timer,
}
use baba_io.Kqueue.Service.Deletion.{completes_none}
use baba_io.Kqueue.Service.Reports.{initiates_none, completed_call}
use baba_io.Kqueue.Memory.{◌>>◌}
use baba_io.Kqueue.Impl
use baba_io.Kqueue.Events
use baba_io.Kqueue.Events.Recv
use baba_io.Kqueue.Events.Send
use baba_io.Kqueue.Events.Accept
use baba_io.Kqueue.Events.RecvFrom
use baba_io.Kqueue.Events.SendTo
use baba_io.Kqueue.Events.Timer
use baba_io.Kqueue.Reactor
use baba_io.Kqueue.Reactor.Outcomes.{makes, completing, completes, load_fd_lem}
use baba_io.Kqueue.Service.{process_initiation_queue, process_completion_queue}

-- What the start of an operation asks of the kernel, and the call that the user is owed when it fails.
pub record Arming : Type 0 where
  pub event_filter : Filter
  pub fflags : ℕ
  pub amount : ℕ
  pub refusal : ErrorCode → Call

abbrev bytes_refusal : ℕ → ErrorCode → Call
bytes_refusal cb e = bytes_call cb e (pos 0)

abbrev pub bytes_arming : Filter → (cb : ℕ) → Arming
bytes_arming event_filter cb = record {
  event_filter = event_filter;
  fflags = 0;
  amount = 0;
  refusal = bytes_refusal cb;
}

abbrev pub accept_arming : (cb : ℕ) → Arming
accept_arming cb = record {
  event_filter = evfilt_read;
  fflags = 0;
  amount = 0;
  refusal = code_call cb;
}

abbrev pub timer_arming : (timeout_ms cb : ℕ) → Arming
timer_arming timeout_ms cb = record {
  event_filter = evfilt_timer;
  fflags = Timer.note_useconds;
  amount = Timer.microseconds timeout_ms;
  refusal = code_call cb;
}

-- The operation of the event `p` that asks for this.
pub data Asks (p : ℕ) : Initiate → Arming → Type 0 where
  recv_asks : (cb : ℕ) → Asks p (recv_initiates p cb) (bytes_arming evfilt_read cb)
  send_asks : (cb : ℕ) → Asks p (send_initiates p cb) (bytes_arming evfilt_write cb)
  accept_asks : (cb : ℕ) → Asks p (accept_initiates p cb) (accept_arming cb)
  recv_from_asks : (cb : ℕ) → Asks p (recv_from_initiates p cb) (bytes_arming evfilt_read cb)
  send_to_asks : (cb : ℕ) → Asks p (send_to_initiates p cb) (bytes_arming evfilt_write cb)
  timer_asks :
      (timeout_ms cb : ℕ) → Asks p (timer_initiates p timeout_ms cb) (timer_arming timeout_ms cb)

module _ {W : Type 0} (kq : Kqueue W) (ops : Operations W) (s : Service W) (p : ℕ)
    (fd : IoHandle) where
  pub initiates_on :
      (f : Initiate)
      → (a : Arming) → Asks p f a
      → Reactor.run_initiate kq ops f fd s
        ≡ Events.initiate_on kq a.event_filter a.fflags a.amount p (λ e. makes (a.refusal e)) fd s
  unfolding Reactor.run_initiate Recv.initiate Send.initiate Accept.initiate RecvFrom.initiate
      SendTo.initiate Timer.initiate Events.initiate_on Events.register_to_reactor
  initiates_on f a (recv_asks cb) = refl
  initiates_on f a (send_asks cb) = refl
  initiates_on f a (accept_asks cb) = refl
  initiates_on f a (recv_from_asks cb) = refl
  initiates_on f a (send_to_asks cb) = refl
  initiates_on f a (timer_asks timeout_ms cb) = refl

module _ {W : Type 0} (kq : Kqueue W) (s : Service W) (p : ℕ) (d : Descriptor) (a : Arming) where
  -- What the kernel is asked: the handle of the object, once, with the event to report.
  abbrev pub asked : Ret × W
  asked =
      kq.kevent_add s.reactor_fd
        (record {
          ident = d.fd;
          filter = a.event_filter;
          oneshot = true;
          fflags = a.fflags;
          amount = a.amount;
          udata = registered p;
        })
        s.world

  -- The event is armed, and nothing else happens until a report.
  abbrev pub armed : Service W
  armed = record s { initiation_queue = record { queue = [] }; world = asked.1 }

module _ {W : Type 0} (kq : Kqueue W) (s : Service W) (p : ℕ) (v : Event) (d : Descriptor)
    (a : Arming) where
  abbrev code : ErrorCode
  code = (asked kq s p d a).0.errno

  -- The event is refused, and the user is told the kernel's code.
  abbrev pub refused : Service W
  refused = record (armed kq s p d a) {
    register = insert s.register p (record v { complete = some (makes (a.refusal code)) });
    completion_queue = record (s.completion_queue) { queue = [] };
    calls = a.refusal code ∷ s.calls;
  }

module _ {W : Type 0} (kq : Kqueue W) (ops : Operations W) (s : Service W) (p : ℕ) (v : Event)
    (f : Initiate) where
  -- An initiation that is taken from the queue runs, and is the only one.
  pub first :
      s.register p ≡ some v
      → v.initiate ≡ some f
      → s.initiation_queue.queue ≡ p ∷ []
      → (t : Service W)
      → Reactor.run_initiate kq ops f s.reactor_fd
          (record s { initiation_queue = record { queue = [] } })
        ≡ ok (tt, t)
      → t.initiation_queue.queue ≡ []
      → (m : ℕ) → process_initiation_queue kq ops (suc (suc m)) s ≡ ok (tt, t)
  unfolding process_initiation_queue SafeQueue.size SafeQueue.dequeue Reactor.initiate
  first hp hf hq t runs done m =
      simp hq (simp hp (simp hf (simp runs (initiates_none kq ops t done m))))

module _ {W : Type 0} (kq : Kqueue W) (s : Service W) (p io_desc : ℕ) (v : Event) (d : Descriptor)
    (a : Arming) (hp : s.register p ≡ some v) (hd : v.descriptor ≡ some io_desc)
    (hs : s.descriptors io_desc ≡ some d) where
  abbrev on : Run (Unit {0} × Service W)
  on =
      Events.initiate_on kq a.event_filter a.fflags a.amount p (λ e. makes (a.refusal e))
        s.reactor_fd s

  pub arms :
      ((asked kq s p d a).0.value ==ℤ minus_one) ≡ false
      → on ≡ ok (tt, record s { world = (asked kq s p d a).1 })
  unfolding Events.initiate_on Events.register_to_reactor Impl.arm
  arms done = simp (load_fd_lem s p io_desc v d hp hd hs) (simp done refl)

  refuses :
      ((asked kq s p d a).0.value ==ℤ minus_one) ≡ true
      → ((asked kq s p d a).0.errno == ok_code) ≡ false
      → on
        ≡ ok (
          tt,
          completing s p v (makes (a.refusal (asked kq s p d a).0.errno)) (asked kq s p d a).1,
        )
  unfolding Events.initiate_on Events.register_to_reactor Impl.arm
  refuses failed bad =
      simp (load_fd_lem s p io_desc v d hp hd hs)
        (simp failed (simp bad (completes s p io_desc v d hp _ _)))

module _ {W : Type 0} (kq : Kqueue W) (ops : Operations W) (s : Service W) (p io_desc : ℕ)
    (v : Event) (d : Descriptor) (f : Initiate) (a : Arming) (hp : s.register p ≡ some v)
    (hd : v.descriptor ≡ some io_desc) (hs : s.descriptors io_desc ≡ some d)
    (hf : v.initiate ≡ some f) (asks : Asks p f a) (hq : s.initiation_queue.queue ≡ p ∷ [])
    (hc : s.completion_queue.queue ≡ []) where
  abbrev emptied : Service W
  emptied = record s { initiation_queue = record { queue = [] } }

  -- The operation of any kind but a connection, queued for its start as the only one, on an event that
  -- is registered with its descriptor: the kernel is asked once, for the handle, filter and time of the
  -- kind. Where it refuses, with an error other than the code of success, a pass over each queue calls
  -- the user once with the error (and no bytes), whether or not the scope of the event has ended; where it
  -- does not, nothing is called, and nothing else changes.
  pub initiation-outcome :
      (((asked kq s p d a).0.value ==ℤ minus_one) ≡ true
        → ((asked kq s p d a).0.errno == ok_code) ≡ false)
      → (m n : ℕ)
      → (process_initiation_queue kq ops (suc (suc m))
            >> process_completion_queue kq ops (suc (suc n)))
          s
        ≡ ok (
          tt,
          if (asked kq s p d a).0.value ==ℤ minus_one
              then refused kq s p v d a
              else armed kq s p d a,
        )
  initiation-outcome errs m n = elim (Bool-cases ((asked kq s p d a).0.value ==ℤ minus_one)) [
    | inl e ↦ simp e (
        simp
          (first kq ops s p v f hp hf hq _
            (initiates_on kq ops emptied p s.reactor_fd f a asks
              ∙ refuses kq emptied p io_desc v d a hp hd hs e (errs e))
            refl m)
          (completed_call kq ops emptied p v (a.refusal (asked kq s p d a).0.errno)
            (asked kq s p d a).1 hc n))
    | inr e ↦ simp e (
        simp
          (first kq ops s p v f hp hf hq _
            (initiates_on kq ops emptied p s.reactor_fd f a asks
              ∙ arms kq emptied p io_desc v d a hp hd hs e)
            refl m)
          (completes_none kq ops (armed kq s p d a) hc (suc n)))
  ]
