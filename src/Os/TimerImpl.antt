-- ===== src/Os/TimerImpl.antt =====
-- detail/os/impl/linux_timer_impl.cpp.
pub mod Units
use baba_io.Base.{ℕ, ◌*◌, ◌^◌, ◌/◌, ◌%◌, ◌==ℤ◌, minus_one, if◌then◌else◌}
use baba_io.Os.Codes.{ErrorCode, ok_code, IoHandle, invalid_handle}
use baba_io.Os.Kernel.{Kernel, Expiration}

-- The time that is set: whole seconds, and the nanoseconds left, a product of 32 bits. The interval
-- is zero: the timer expires once.
unfoldable pub expiration : ℕ → Expiration
expiration timeout_ms = record {
  sec = timeout_ms / 1000;
  nsec = timeout_ms % 1000 * 1000000 % 2 ^ 32;
}

module _ {W : Type 0} (os : Kernel W) where
  -- `linux_timer_impl::open`
  unfoldable pub open_timer : W → (ErrorCode × IoHandle) × W
  open_timer w =
      let (r, w') = os.timerfd_create w in
      if r.value ==ℤ invalid_handle
      then ((r.errno, invalid_handle), w')
      else ((ok_code, r.value), w')

  unfoldable pub init_timer : IoHandle → ℕ → W → ErrorCode × W
  unfolding expiration
  init_timer fd timeout_ms w =
      let (r, w') = os.timerfd_settime fd (expiration timeout_ms) w in
      if r.value ==ℤ minus_one then (r.errno, w') else (ok_code, w')
