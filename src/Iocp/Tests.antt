-- ===== src/Iocp/Tests.antt =====
-- The theorems about the completion port at a service with one timer: event 0, descriptor 0, handle 9.
use baba_io.Base.{ℕ, Bool, false, ◌+◌, pos, ◌≡◌, refl, true, none, some, [], ◌∷◌, insert}
use baba_io.Os.Kernel.{Ret}
use baba_io.Epoll.Memory.{ok, fault, bad_function_call}
use baba_io.Iocp.State.{Service, Event, Windows}
use baba_io.Iocp.Memory.{fresh_event, ◌>>◌}
use baba_io.Iocp.Service.{initial, reactor_round, process_completion_queue}
use baba_io.Iocp.Timer.{AsyncTimer, timeout, destroy}
use baba_io.Iocp.Expirations.{notified, timeout-notified}
use baba_io.Iocp.Deletions.{destroy-reactor_round_fault}

abbrev yes_answer : Ret
yes_answer = record { value = pos 1; errno = 0 }

-- A system that counts the timers that are set, and reports event 0.
abbrev small_windows : Windows ℕ
small_windows = record {
  create_io_completion_port = λ fd existing w. (yes_answer, w);
  get_queued_completion_status_ex = λ fd size w. (yes_answer, 1, 0 ∷ [], w);
  post_queued_completion_status = λ fd evt w. w;
  close_handle = λ fd w. w;
  read_file = λ fd buffer size w. (yes_answer, pos 0, w);
  write_file = λ fd buffer size w. (yes_answer, pos 0, w);
  create_threadpool_timer = λ ctx w. (yes_answer, w);
  close_threadpool_timer = λ fd w. w;
  set_threadpool_timer = λ fd due w. w + 1;
}

abbrev timer_event : Event
timer_event = record (fresh_event) { scope = some 5; descriptor = some 0; enqueues = true }

-- The lifetimes when the user has let all go.
abbrev ended : ℕ → Bool
ended scope = false

abbrev service : Service ℕ
service = record (initial ended 0) {
  register = insert (λ k. none) 0 timer_event;
  id_generator = 1;
  descriptors = insert (λ d. none) 0 (pos 9);
  next_object = 2;
  reactor_fd = pos 3;
}

abbrev user_timer : AsyncTimer
user_timer = record { descriptor = 0; iocp_ctx = 1; timer = 0 }

timeout-notified_example :
    (timeout small_windows user_timer 500 11
        >> reactor_round small_windows 1
        >> process_completion_queue 2)
      service
    ≡ ok (tt, notified service user_timer timer_event 11 1)
timeout-notified_example =
    timeout-notified small_windows service user_timer timer_event 0 (pos 9) 500 11 yes_answer [] 1
      refl refl refl refl refl refl refl refl 0 0

destroy-reactor_round_fault_example :
    (destroy small_windows user_timer >> reactor_round small_windows 1) service
    ≡ fault bad_function_call
destroy-reactor_round_fault_example =
    destroy-reactor_round_fault small_windows service user_timer timer_event 0 (pos 9) refl refl
      refl refl refl 0
