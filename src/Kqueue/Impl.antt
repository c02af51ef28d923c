-- ===== src/Kqueue/Impl.antt =====
-- detail/os/impl/kqueue_impl.cpp and kqueue_timer_impl.cpp.
use baba_io.Base.{
  ℕ, ℤ, pos, ◌+◌, ◌%◌, ◌^◌, ◌==◌, ◌==ℤ◌, minus_one, true, not, ◌&&◌, List, if◌then◌else◌,
}
use baba_io.Os.Codes.{ErrorCode, ok_code, IoHandle, eintr}
use baba_io.Kqueue.State.{Kqueue, Filter, Udata}

-- `wait_result`.
pub record WaitResult : Type 0 where
  pub ec : ErrorCode
  pub ready_io_count : ℤ

module _ {W : Type 0} (kq : Kqueue W) where
  unfoldable pub create : W → (ErrorCode × IoHandle) × W
  create w =
      let (r, w') = kq.kqueue w in
      if r.value ==ℤ minus_one then ((r.errno, minus_one), w') else ((ok_code, r.value), w')

  unfoldable pub arm :
      IoHandle → IoHandle → Filter → (fflags amount : ℕ) → Udata → W → ErrorCode × W
  arm kqueue_fd fd event_filter fflags amount udata w =
      let (r, w') =
        kq.kevent_add kqueue_fd
          (record {
            ident = fd;
            filter = event_filter;
            oneshot = true;
            fflags = fflags;
            amount = amount;
            udata = udata;
          })
          w in
      if r.value ==ℤ minus_one then (r.errno, w') else (ok_code, w')

  -- A wait that a signal interrupts is no error, and has no entries.
  unfoldable pub wait : IoHandle → (size : ℕ) → W → WaitResult × List Udata × W
  wait kqueue_fd size w =
      let (r, evts, w') = kq.kevent_wait kqueue_fd size w in
      if (r.value ==ℤ minus_one) && not (r.errno == eintr)
      then (record { ec = r.errno; ready_io_count = r.value }, evts, w')
      else (record { ec = ok_code; ready_io_count = r.value }, evts, w')

-- `kqueue_timer_impl::create`: the ident, and the generator afterwards, a number of 16 bits.
unfoldable pub create_timer : ℕ → IoHandle × ℕ
create_timer ident_generator = (pos ident_generator, (ident_generator + 1) % 2 ^ 16)
