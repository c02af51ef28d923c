-- ===== src/Epoll/Arm.antt =====
-- The closures that the objects of detail/os/reactor/epoll/io give to their events as `init_…`: each
-- marks its side in the mask of the descriptor, and arms the descriptor with the whole mask.
pub mod Rollback
use baba_io.Base.{ℕ, Bool, not, none, some, ◌==◌, if◌then◌else◌}
use baba_io.Os.Codes.{ErrorCode, ok_code}
use baba_io.Os.Kernel.{Kernel}
use baba_io.Os.EpollImpl
use baba_io.Os.TimerImpl
use baba_io.Epoll.State.{Service, Event, Descriptor}
use baba_io.Epoll.Memory.{
  M, ok, pure, null_pointer, ◌>>=◌, ◌>>◌, require, lift, load_event, load_descriptor,
  modify_descriptor,
}
use baba_io.Epoll.Mask.{set_read_mask, set_write_mask}

module _ {W : Type 0} (os : Kernel W) where
  -- `epoll_impl::arm(epoll_fd, fd, event_mask, descriptor)`.
  unfoldable pub arm_descriptor : ℕ → M W ErrorCode
  arm_descriptor io_desc s =
      (do
        d ← load_descriptor io_desc
        lift (EpollImpl.arm os s.reactor.fd d.fd d.event_mask io_desc))
        s

  -- In async_acceptor, and as `init_recv` in async_tcp.
  unfoldable pub init_read : ℕ → M W ErrorCode
  unfolding arm_descriptor set_read_mask
  init_read evt = do
    e ← load_event evt
    io_desc ← require null_pointer e.descriptor
    modify_descriptor io_desc set_read_mask
    arm_descriptor io_desc

  -- In async_connector, and as `init_send` in async_tcp.
  unfoldable pub init_write : ℕ → M W ErrorCode
  unfolding arm_descriptor set_write_mask
  init_write evt = do
    e ← load_event evt
    io_desc ← require null_pointer e.descriptor
    modify_descriptor io_desc set_write_mask
    arm_descriptor io_desc

  -- In async_timer.
  unfoldable pub init_timer : ℕ → ℕ → M W ErrorCode
  unfolding init_read
  init_timer evt timeout_ms = do
    ec ← init_read evt
    if not (ec == ok_code) then pure ec else (do
      e ← load_event evt
      io_desc ← require null_pointer e.descriptor
      d ← load_descriptor io_desc
      lift (TimerImpl.init_timer os d.fd timeout_ms))
