-- ===== src/Epoll/Io/Timer.antt =====
-- detail/os/reactor/epoll/io/epoll_async_timer.h.
use baba_io.Base.{ℕ, Option, none, some, ◌==◌}
use baba_io.Os.Codes.{ok_code}
use baba_io.Os.Kernel.{Kernel}
use baba_io.Os.TimerImpl
use baba_io.Epoll.Memory.{M, pure, ◌>>=◌, ◌>>◌, lift, modify_descriptor, when}
use baba_io.Epoll.Interrupter.{new_descriptor}
use baba_io.Epoll.Arm.{init_timer}
use baba_io.Epoll.Events.Timer
use baba_io.Epoll.Events.Timer.{EpollTimer}
use baba_io.Epoll.Io.Scope.{CompletionStrand, leave_scope}

pub record AsyncTimer : Type 0 where
  pub strand_for_user : Option CompletionStrand
  pub strand : Option ℕ
  pub descriptor : Option ℕ
  pub timer : EpollTimer

-- `async_timer()`, and what a move leaves behind.
abbrev pub empty_timer : AsyncTimer
empty_timer = record {
  strand_for_user = none;
  strand = none;
  descriptor = none;
  timer = record { evt = none };
}

-- The move constructor, and the move assignment, which does not look at the value that it replaces.
unfoldable pub moved : AsyncTimer → AsyncTimer × AsyncTimer
moved tmp = (tmp, empty_timer)

unfoldable pub move_assign : (self tmp : AsyncTimer) → AsyncTimer × AsyncTimer
unfolding moved
move_assign self tmp = moved tmp

module _ {W : Type 0} (os : Kernel W) where
  unfoldable pub construct : CompletionStrand → M W AsyncTimer
  unfolding new_descriptor Timer.construct TimerImpl.open_timer
  construct strand = do
    io_desc ← new_descriptor
    timer ← Timer.construct io_desc strand.impl
    (e, fd) ← lift (TimerImpl.open_timer os)
    when (e == ok_code) (modify_descriptor io_desc (λ d. record d { fd = fd }))
    pure (record {
      strand_for_user = some strand;
      strand = some (strand.impl);
      descriptor = some io_desc;
      timer = timer;
    })

  unfoldable pub destroy : AsyncTimer → M W (Unit {0})
  unfolding leave_scope Timer.dispose
  destroy self = leave_scope os self.strand self.descriptor (Timer.dispose os self.timer)

  unfoldable pub timeout : AsyncTimer → (timeout_ms : ℕ) → (cb : Option ℕ) → M W (Unit {0})
  unfolding Timer.timeout init_timer
  timeout self timeout_ms cb = Timer.timeout (init_timer os) self.timer timeout_ms cb
