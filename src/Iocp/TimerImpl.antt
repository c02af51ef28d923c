-- ===== src/Iocp/TimerImpl.antt =====
-- detail/os/impl/windows_timer_impl.cpp.
use baba_io.Base.{ℕ, pos, ◌-◌, ◌*◌, ◌/◌, ◌%◌, ◌^◌, ◌==ℤ◌, if◌then◌else◌}
use baba_io.Os.Codes.{ErrorCode, ok_code, IoHandle, invalid_handle}
use baba_io.Iocp.State.{Windows, TimerContext, FileTime}

-- A LONGLONG by its two's complement, a number of 64 bits.
unfoldable pub delay : (timeout_ms : ℕ) → ℕ
delay timeout_ms = (2 ^ 64 - timeout_ms * 10000) % 2 ^ 64

-- The shift of a LONGLONG keeps the sign; its lower 32 bits are the upper ones of the number.
unfoldable pub due_time : (timeout_ms : ℕ) → FileTime
unfolding delay
due_time timeout_ms = record {
  low = delay timeout_ms % 2 ^ 32;
  high = delay timeout_ms / 2 ^ 32 % 2 ^ 32;
}

module _ {W : Type 0} (win : Windows W) where
  -- What the timer's thread runs.
  unfoldable pub timer_callback : TimerContext → W → W
  timer_callback ctx w = win.post_queued_completion_status ctx.iocp_fd ctx.evt w

  -- The assertion holds of an address.
  unfoldable pub open_timer : (ctx : ℕ) → W → (ErrorCode × IoHandle) × W
  open_timer ctx w =
      let (r, w') = win.create_threadpool_timer ctx w in
      if r.value ==ℤ pos 0 then ((r.errno, invalid_handle), w') else ((ok_code, r.value), w')

  unfoldable pub close : IoHandle → W → W
  close fd w = win.close_threadpool_timer fd w

  unfoldable pub init_timer : IoHandle → (timeout_ms : ℕ) → W → ErrorCode × W
  unfolding due_time
  init_timer fd timeout_ms w = (ok_code, win.set_threadpool_timer fd (due_time timeout_ms) w)
