-- ===== src/Os/EpollImpl.antt =====
-- detail/os/impl/epoll_impl.cpp.
use baba_io.Base.{ℕ, ℤ, ◌==ℤ◌, minus_one, ◌+◌, ◌/◌, ◌%◌, Bool, not, ◌&&◌, List, ◌==◌, if◌then◌else◌}
use baba_io.Os.Codes.{ErrorCode, ok_code, IoHandle, invalid_handle, enoent, eintr}
use baba_io.Os.Kernel.{Kernel, EpollEvent, epoll_ctl_add, epoll_ctl_mod, epoll_ctl_del}
pub mod Arming

-- EPOLLONESHOT is bit 30; `events | EPOLLONESHOT` adds it unless it is set.
abbrev pub oneshot : ℕ
oneshot = 0x4000_0000

unfoldable pub with_oneshot : ℕ → ℕ
with_oneshot events = if events / oneshot % 2 == 1 then events else events + oneshot

pub record WaitResult : Type 0 where
  pub ec : ErrorCode
  pub ready_io_count : ℤ

module _ {W : Type 0} (os : Kernel W) where
  unfoldable pub create : W → (ErrorCode × IoHandle) × W
  create w =
      let (r, w') = os.epoll_create1 w in
      if r.value ==ℤ invalid_handle
      then ((r.errno, invalid_handle), w')
      else ((ok_code, r.value), w')

  -- The second call of `epoll_ctl`, for a descriptor that is not registered.
  unfoldable pub arm_add : IoHandle → IoHandle → EpollEvent → W → ErrorCode × W
  arm_add epoll_fd fd evt w =
      let (r, w') = os.epoll_ctl epoll_fd epoll_ctl_add fd evt w in
      if r.value ==ℤ minus_one then (r.errno, w') else (ok_code, w')

  unfoldable pub arm : IoHandle → IoHandle → ℕ → ℕ → W → ErrorCode × W
  unfolding with_oneshot arm_add
  arm epoll_fd fd events ptr w =
      let evt : EpollEvent = record { events = with_oneshot events; ptr = ptr } in
      let (r, w') = os.epoll_ctl epoll_fd epoll_ctl_mod fd evt w in
      if r.value ==ℤ minus_one
      then (if not (r.errno == enoent) then (r.errno, w') else arm_add epoll_fd fd evt w')
      else (ok_code, w')

  -- The error is logged only. The event that is passed is not initialised, and not read by the call.
  unfoldable pub remove : IoHandle → IoHandle → W → W
  remove epoll_fd fd w =
      (os.epoll_ctl epoll_fd epoll_ctl_del fd (record { events = 0; ptr = 0 }) w).1

  unfoldable pub wait : IoHandle → ℕ → W → WaitResult × List EpollEvent × W
  wait epoll_fd size w =
      let (r, event_list, w') = os.epoll_wait epoll_fd size w in
      (
        record {
          ec = if (r.value ==ℤ minus_one) && not (r.errno == eintr) then r.errno else ok_code;
          ready_io_count = r.value;
        },
        event_list,
        w',
      )
