-- ===== src/Iocp/Expirations.antt =====
-- A timer of the completion port, from its start to the call of the user.
use baba_io.Base.{
  ℕ, suc, pos, ◌+◌, ◌*◌, ◌%◌, ◌^◌, ◌==ℤ◌, ◌≡◌, ◌<◌, refl, ap, some, List, [], ◌∷◌, insert, arith,
  false, true, insert-insert, key_same,
}
use baba_io.Library.SafeQueue
use baba_io.Library.BlockingQueue
use baba_io.Os.Codes.{ok_code, IoHandle}
use baba_io.Os.Kernel.{Ret}
use baba_io.Epoll.Memory.{ok}
use baba_io.Iocp.State.{Service, Event, Windows, code_completes, timer_reacts}
use baba_io.Iocp.Memory.{◌>>◌}
use baba_io.Iocp.Impl
use baba_io.Iocp.TimerImpl.{delay, due_time}
use baba_io.Iocp.TimerImpl
use baba_io.Iocp.Events
use baba_io.Iocp.Events.{run_react, run_complete}
use baba_io.Iocp.Service.{
  wait, entries, process_completion_queue, process_deletion_queue, reactor_round, max_iocp_entries,
}
use baba_io.Iocp.Timer.{AsyncTimer, timeout}

-- For a timeout that fits 32 bits, the two halves of the due time are a 64-bit number that is minus the
-- timeout in units of 100 nanoseconds, modulo 2 ^ 64.
pub due_time_lem :
    (t : ℕ) → t < 2 ^ 32 → ((due_time t).low + 2 ^ 32 * (due_time t).high + t * 10000) % 2 ^ 64 ≡ 0
unfolding due_time delay
due_time_lem t h = omega arith

module _ (self : AsyncTimer) (v : Event) (cb : ℕ) where
  abbrev set : Event
  set = record v { react = some (timer_reacts self.timer cb) }

  abbrev pub expired : Event
  expired = record set { complete = some (code_completes ok_code cb) }

module _ {W : Type 0} (win : Windows W) (s : Service W) (self : AsyncTimer) (v : Event)
    (fd : IoHandle) (t cb : ℕ) where
  -- The timer is set, and its event has the reaction.
  abbrev started : Service W
  started = record s {
    register = insert s.register self.timer (set self v cb);
    world = win.set_threadpool_timer fd (due_time t) s.world;
  }

module _ {W : Type 0} (s : Service W) (self : AsyncTimer) (v : Event) (cb : ℕ) (w : W) where
  abbrev reported : Service W
  reported = record s {
    register = insert s.register self.timer (expired self v cb);
    completion_queue = record (s.completion_queue) { queue = self.timer ∷ [] };
    world = w;
  }

  -- The user has been called with the code of success.
  abbrev pub notified : Service W
  notified = record s {
    register = insert s.register self.timer (expired self v cb);
    completion_queue = record (s.completion_queue) { queue = [] };
    calls = record { cb = cb; code = ok_code } ∷ s.calls;
    world = w;
  }

module _ {W : Type 0} (win : Windows W) (s : Service W) (self : AsyncTimer) (v : Event) (d : ℕ)
    (fd : IoHandle) (t cb : ℕ) (r : Ret) (rest : List ℕ) (w : W)
    (hp : s.register self.timer ≡ some v) (hd : v.descriptor ≡ some d) (he : v.enqueues ≡ true)
    (hs : s.descriptors d ≡ some fd) (hq : s.deletion_queue.queue ≡ [])
    (hc : s.completion_queue.queue ≡ []) where
  starts : timeout win self t cb s ≡ ok (tt, started win s self v fd t cb)
  unfolding timeout Events.timeout TimerImpl.init_timer
  starts = simp hp (simp (key_same self.timer) (simp hd (simp hs refl)))

  runs :
      entries 1 (self.timer ∷ rest) (record (started win s self v fd t cb) { world = w })
      ≡ ok (tt, reported s self v cb w)
  unfolding entries run_react Events.react Events.enqueue_for_completion BlockingQueue.enqueue
  runs = simp (key_same self.timer) (
      simp he (
        simp hc (
          ap (λ x. ok (tt, record (reported s self v cb w) { register = x }))
            (insert-insert s.register self.timer _ _))))

  finishes :
      (n : ℕ)
      → process_completion_queue (suc (suc n)) (reported s self v cb w)
        ≡ ok (tt, notified s self v cb w)
  unfolding process_completion_queue BlockingQueue.size BlockingQueue.dequeue run_complete
  finishes n = simp (key_same self.timer) refl

  -- A timer is set in a service with nothing queued, on an event that has its descriptor and the function
  -- that queues it, and the wait of the next round reports the event. Then the kernel has been given the
  -- due time, and a pass over the completion queue calls the user once, with the code of success,
  -- whether or not the scope of the event has ended, and changes nothing else but the closures of the event and the state of the system.
  pub timeout-notified :
      win.get_queued_completion_status_ex s.reactor_fd max_iocp_entries
          (win.set_threadpool_timer fd (due_time t) s.world)
        ≡ (r, 1, self.timer ∷ rest, w)
      → (r.value ==ℤ pos 0) ≡ false
      → (m n : ℕ)
      → (timeout win self t cb
            >> reactor_round win (suc m)
            >> process_completion_queue (suc (suc n)))
          s
        ≡ ok (tt, notified s self v cb w)
  unfolding reactor_round process_deletion_queue SafeQueue.size wait Impl.wait
  timeout-notified told fine m n =
      simp starts (simp hq (simp told (simp fine (simp runs (finishes n)))))
