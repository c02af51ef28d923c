-- ===== src/Interface/Timers.antt =====
-- src/timer.cpp and src/pimpl/timer_pimpl.h.
use baba_io.Base.{ℕ, Option, none, some}
use baba_io.Os.Kernel.{Kernel}
use baba_io.Epoll.Memory.{M, pure, null_pointer, ◌>>=◌, require}
use baba_io.Epoll.Io.Timer
use baba_io.Epoll.Io.Timer.{AsyncTimer, empty_timer}
use baba_io.Interface.Owned.{IoStrand, Owned, taken, strand_of, delete, replaced}

abbrev pub UserTimer : Type 0
UserTimer = Owned AsyncTimer

unfoldable pub default_timer : UserTimer
default_timer = record { strand = none; pimpl = some empty_timer }

unfoldable pub moved : UserTimer → UserTimer × UserTimer
moved tmp = taken tmp

unfoldable pub strand : {W : Type 0} → UserTimer → M W ℕ
strand self = strand_of self

module _ {W : Type 0} (os : Kernel W) where
  unfoldable pub construct : IoStrand → M W UserTimer
  unfolding Timer.construct
  construct strand = do
    impl ← Timer.construct os strand.impl
    pure (record { strand = some strand.place; pimpl = some impl })

  unfoldable pub destroy : UserTimer → M W (Unit {0})
  unfolding Timer.destroy
  destroy self = delete (Timer.destroy os) self.pimpl

  unfoldable pub move_assign : (self tmp : UserTimer) → M W (UserTimer × UserTimer)
  unfolding Timer.destroy
  move_assign self tmp = replaced (Timer.destroy os) self tmp

  unfoldable pub timeout : UserTimer → (timeout_ms : ℕ) → (cb : Option ℕ) → M W (Unit {0})
  unfolding Timer.timeout
  timeout self timeout_ms cb = do
    impl ← require null_pointer self.pimpl
    Timer.timeout os impl timeout_ms cb
