-- ===== src/Kqueue/Service/Twice.antt =====
-- A connection that the system refuses at once, after its event is armed.
use baba_io.Base.{
  ℕ, suc, pos, ◌==◌, ◌==ℤ◌, ◌≡◌, refl, some, List, [], ◌∷◌, false, insert_self, minus_one,
}
use baba_io.Os.Codes.{ErrorCode, ok_code}
use baba_io.Os.Kernel.{Ret}
use baba_io.Epoll.Memory.{ok}
use baba_io.Kqueue.State.{
  Service, Event, Descriptor, Kqueue, Operations, Udata, registered, code_call, connect_initiates,
  connect_reacts, evfilt_write,
}
use baba_io.Kqueue.Memory.{◌>>◌}
use baba_io.Kqueue.Impl
use baba_io.Kqueue.Events
use baba_io.Kqueue.Events.Connect
use baba_io.Kqueue.Reactor
use baba_io.Kqueue.Reactor.Outcomes.{makes, completing, completes, load_fd_lem}
use baba_io.Kqueue.Service.{process_initiation_queue, process_completion_queue, reactor_round}
use baba_io.Kqueue.Service.Initiations.{Arming, first, asked}
use baba_io.Kqueue.Service.Reports.{called, completed_call, reactor_round-calls}

abbrev writable : Arming
writable = record { event_filter = evfilt_write; fflags = 0; amount = 0; refusal = code_call 0 }

module _ {W : Type 0} (kq : Kqueue W) (ops : Operations W) (s : Service W)
    (p io_desc peer_ep cb : ℕ) (v : Event) (d : Descriptor) (e : ErrorCode) (w : W)
    (hp : s.register p ≡ some v) (hd : v.descriptor ≡ some io_desc)
    (hs : s.descriptors io_desc ≡ some d)
    (adds : ((asked kq s p d writable).0.value ==ℤ minus_one) ≡ false)
    (fails : ops.do_connect d.fd peer_ep (asked kq s p d writable).1 ≡ (e, w))
    (bad : (e == ok_code) ≡ false) where
  -- The event is armed, and the operation completes with the code of the call.
  pub connect-completes :
      Reactor.run_initiate kq ops (connect_initiates p peer_ep cb) s.reactor_fd s
      ≡ ok (tt, completing s p v (makes (code_call cb e)) w)
  unfolding Reactor.run_initiate Connect.initiate Events.register_to_reactor Impl.arm
  connect-completes = simp (load_fd_lem s p io_desc v d hp hd hs) (
      simp adds (
        simp (load_fd_lem (record s { world = (asked kq s p d writable).1 }) p io_desc v d hp hd hs)
          (simp fails (simp bad (completes s p io_desc v d hp (makes (code_call cb e)) w)))))

module _ {W : Type 0} (kq : Kqueue W) (ops : Operations W) (s : Service W)
    (p io_desc peer_ep cb : ℕ) (v : Event) (d : Descriptor) (e : ErrorCode) (w : W) (ret : Ret)
    (evts : List Udata) (w' : W) where
  abbrev emptied : Service W
  emptied = record s { initiation_queue = record { queue = [] } }

  -- The user has been called with the code of the failure.
  abbrev told : Service W
  told = called emptied p v (code_call cb e) w

  -- The user has been called with the code of success after that.
  abbrev pub told_twice : Service W
  told_twice =
      called (record told { world = w' }) p (record v { complete = some (makes (code_call cb e)) })
        (code_call cb ok_code) w'

  -- A connection is started, as the only thing that is queued, on an event with its descriptor and
  -- closures, whose handle is not that of the self pipe; the kernel takes the event, the call of connect
  -- fails, and the next wait reports the event. Then passes over the queues call the user twice: with
  -- the code of the failure, and with the code of success after that, whether or not the scope of the event
  -- has ended.
  pub connect-calls_twice :
      s.register p ≡ some v
      → v.descriptor ≡ some io_desc
      → s.descriptors io_desc ≡ some d
      → v.initiate ≡ some (connect_initiates p peer_ep cb)
      → v.react ≡ some (connect_reacts p cb)
      → (d.fd ==ℤ s.interrupter_fd) ≡ false
      → s.initiation_queue.queue ≡ p ∷ []
      → s.completion_queue.queue ≡ []
      → ((asked kq emptied p d writable).0.value ==ℤ minus_one) ≡ false
      → ops.do_connect d.fd peer_ep (asked kq emptied p d writable).1 ≡ (e, w)
      → (e == ok_code) ≡ false
      → kq.kevent_wait s.reactor_fd Reactor.max_kqueue_events w ≡ (ret, registered p ∷ evts, w')
      → ret.value ≡ pos 1
      → (a b m n : ℕ)
      → (process_initiation_queue kq ops (suc (suc a))
            >> process_completion_queue kq ops (suc (suc b))
            >> reactor_round kq ops (suc m)
            >> process_completion_queue kq ops (suc (suc n)))
          s
        ≡ ok (tt, told_twice)
  connect-calls_twice hp hd hs hi hr apart hq hc adds fails bad reported one a b m n =
      let started =
        first kq ops s p v (connect_initiates p peer_ep cb) hp hi hq
          (completing emptied p v (makes (code_call cb e)) w)
          (connect-completes kq ops emptied p io_desc peer_ep cb v d e w hp hd hs adds fails bad)
          refl a in
      simp started (
        simp (completed_call kq ops emptied p v (code_call cb e) w hc b) (
          reactor_round-calls kq ops told p io_desc
            (record v { complete = some (makes (code_call cb e)) }) d (connect_reacts p cb) ret evts
            w' (insert_self s.register p _) hd hs hr refl apart refl refl reported one m n))
