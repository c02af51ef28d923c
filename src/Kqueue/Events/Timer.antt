-- ===== src/Kqueue/Events/Timer.antt =====
-- detail/os/reactor/kqueue/events/kqueue_timer.cpp.
use baba_io.Base.{ℕ, ◌*◌, ◌%◌, ◌^◌, Option, some}
use baba_io.Os.Codes.{ok_code, IoHandle}
use baba_io.Kqueue.State.{Kqueue, code_completes, evfilt_timer, timer_initiates, timer_reacts}
use baba_io.Kqueue.Memory.{M, ◌>>◌, modify_event, complete_with}
use baba_io.Kqueue.Events

unfoldable pub construct : {W : Type 0} → (scope io_desc : Option ℕ) → M W ℕ
unfolding Events.construct
construct scope io_desc = Events.construct scope io_desc

-- NOTE_USECONDS.
abbrev pub note_useconds : ℕ
note_useconds = 2

-- The time that is set, a product of 32 bits.
unfoldable pub microseconds : ℕ → ℕ
microseconds timeout_ms = timeout_ms * 1000 % 2 ^ 32

module _ {W : Type 0} (kq : Kqueue W) where
  -- The closure `initiate`.
  unfoldable pub initiate : (evt timeout_ms cb : ℕ) → IoHandle → M W (Unit {0})
  unfolding Events.initiate_on microseconds
  initiate evt timeout_ms cb kqueue_fd =
      Events.initiate_on kq evfilt_timer note_useconds (microseconds timeout_ms) evt
        (λ ec. code_completes ec cb) kqueue_fd

-- The closure `react`.
unfoldable pub react : {W : Type 0} → (evt cb : ℕ) → M W (Unit {0})
unfolding complete_with
react evt cb = complete_with evt (code_completes ok_code cb)

module _ {W : Type 0} (kq : Kqueue W) where
  unfoldable pub destroy : (self : ℕ) → M W (Unit {0})
  unfolding Events.destroy
  destroy self = Events.destroy kq self

  unfoldable pub timeout : (self : ℕ) → (timeout_ms : ℕ) → (cb : ℕ) → M W (Unit {0})
  unfolding Events.enqueue_for_initiation
  timeout self timeout_ms cb = do
    modify_event self (λ e. record e { initiate = some (timer_initiates self timeout_ms cb) })
    modify_event self (λ e. record e { react = some (timer_reacts self cb) })
    Events.enqueue_for_initiation kq self

  -- The same operation once more, with the closures that are there.
  unfoldable pub timeout_again : (self : ℕ) → M W (Unit {0})
  unfolding Events.enqueue_for_initiation
  timeout_again self = Events.enqueue_for_initiation kq self
