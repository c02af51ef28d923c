-- ===== src/Kqueue/Timer.antt =====
-- detail/os/reactor/kqueue/io/async_timer.h.
pub mod Idents
use baba_io.Base.{ℕ, ◌+◌, Option, none, some, insert}
use baba_io.Epoll.Memory.{ok}
use baba_io.Kqueue.State.{Service, Descriptor, Kqueue}
use baba_io.Os.Codes.{IoHandle, invalid_handle}
use baba_io.Kqueue.Memory.{M, pure, ◌>>=◌, ◌>>◌, update, load_descriptor, store_descriptor, release}
use baba_io.Kqueue.Impl
use baba_io.Kqueue.Events.Timer

pub record AsyncTimer : Type 0 where
  pub descriptor : ℕ
  pub timer : ℕ

-- `new reactor_io_descriptor()`, with the pointer of the object to it.
unfoldable pub new_descriptor : {W : Type 0} → M W ℕ
new_descriptor s =
    let d = s.next_descriptor in
    ok (
      d,
      record s {
        descriptors = insert s.descriptors d (record { fd = invalid_handle; refs = 1 });
        next_descriptor = d + 1;
      },
    )

abbrev take_ident : {W : Type 0} → M W IoHandle
take_ident s =
    let (ident, next) = Impl.create_timer s.ident_generator in
    ok (ident, record s { ident_generator = next })

-- The ident of the timer stands where other objects have their handle.
unfoldable pub construct : {W : Type 0} → (scope : Option ℕ) → M W AsyncTimer
unfolding new_descriptor Timer.construct Impl.create_timer
construct scope = do
  io_desc ← new_descriptor
  timer ← Timer.construct scope (some io_desc)
  ident ← take_ident
  d ← load_descriptor io_desc
  store_descriptor io_desc (record d { fd = ident })
  pure (record { descriptor = io_desc; timer = timer })

module _ {W : Type 0} (kq : Kqueue W) where
  unfoldable pub timeout : AsyncTimer → (timeout_ms cb : ℕ) → M W (Unit {0})
  unfolding Timer.timeout
  timeout self timeout_ms cb = Timer.timeout kq self.timer timeout_ms cb

  unfoldable pub timeout_again : AsyncTimer → M W (Unit {0})
  unfolding Timer.timeout_again
  timeout_again self = Timer.timeout_again kq self.timer

  -- The destructor: the members go in the reverse of their order.
  unfoldable pub destroy : AsyncTimer → M W (Unit {0})
  unfolding Timer.destroy release
  destroy self = do Timer.destroy kq self.timer; release kq self.descriptor
