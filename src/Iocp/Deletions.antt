-- ===== src/Iocp/Deletions.antt =====
-- How a timer of the completion port ends, and what a report comes to.
use baba_io.Base.{
  ℕ, suc, ◌+◌, ◌%◌, ◌^◌, ◌≡◌, ◌≢◌, refl, ap, none, some, [], ◌∷◌, insert, arith, insert-insert,
  key_other, key_same,
}
use baba_io.Library.SafeQueue
use baba_io.Os.Codes.{IoHandle}
use baba_io.Epoll.Memory.{ok, fault, bad_function_call}
use baba_io.Iocp.State.{Service, Event, Windows, final_completes}
use baba_io.Iocp.Memory.{◌>>◌, take, fresh_event}
use baba_io.Iocp.TimerImpl.{delay, due_time}
use baba_io.Iocp.TimerImpl
use baba_io.Iocp.Events
use baba_io.Iocp.Events.{run_react, run_complete}
use baba_io.Iocp.Service.{process_deletion_queue, reactor_round}
use baba_io.Iocp.Timer.{AsyncTimer, destroy, close_timer}

module _ {W : Type 0} (win : Windows W) (s : Service W) (self : AsyncTimer) (v : Event) (d : ℕ)
    (fd : IoHandle) (hp : s.register self.timer ≡ some v) (hd : v.descriptor ≡ some d)
    (hs : s.descriptors d ≡ some fd) (free : s.register s.id_generator ≡ none)
    (hq : s.deletion_queue.queue ≡ []) where
  abbrev k : ℕ
  k = s.id_generator

  other : self.timer ≢ k
  other e = let h : some v ≡ none = cc (hp, free, e) in ground arith

  abbrev final : Event
  final = record (fresh_event) { complete = some (final_completes self.timer k); id = k }

  -- The timer is closed and has no descriptor, and the final event is queued.
  abbrev gone : Service W
  gone = record s {
    register = insert (insert s.register self.timer (record v { descriptor = none })) k final;
    id_generator = (k + 1) % 2 ^ 64;
    deletion_queue = record { queue = k ∷ [] };
    world = win.close_threadpool_timer fd s.world;
  }

  goes : destroy win self s ≡ ok (tt, gone)
  unfolding destroy Events.destroy close_timer TimerImpl.close take Events.enqueue_for_deletion
      SafeQueue.enqueue
  goes =
      simp (hp, hd, hs)
        (simp (key_other self.timer k other, free, key_same k)
          (simp hq (
            ap (λ t. ok (tt, record gone { register = t }))
              (insert-insert (insert s.register self.timer (record v { descriptor = none })) k _
                _))))

  faults : (m : ℕ) → process_deletion_queue (suc m) gone ≡ fault bad_function_call
  unfolding process_deletion_queue SafeQueue.size SafeQueue.dequeue Events.enqueue_for_completion
  faults m = simp (key_same k) refl

  -- The destructor of a timer whose event and descriptor are there, in a service whose next key is free and
  -- whose deletion queue is empty: the next round of the reactor calls the empty function of the final
  -- event, which no code sets.
  pub destroy-reactor_round_fault :
      (m : ℕ) → (destroy win self >> reactor_round win (suc m)) s ≡ fault bad_function_call
  unfolding reactor_round
  destroy-reactor_round_fault m = simp goes (simp (faults m) refl)
