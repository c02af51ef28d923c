-- ===== src/Iocp/Timer.antt =====
-- detail/os/reactor/iocp/io/async_timer.h.
use baba_io.Base.{ℕ, ◌+◌, ◌==◌, Option, none, some, insert, if◌then◌else◌}
use baba_io.Os.Codes.{ok_code, invalid_handle}
use baba_io.Epoll.Memory.{ok, dangling_descriptor}
use baba_io.Iocp.State.{Windows}
use baba_io.Iocp.Memory.{M, pure, ◌>>=◌, ◌>>◌, update, require, lift, load_event, modify_event}
use baba_io.Iocp.TimerImpl
use baba_io.Iocp.Events

-- The descriptor and the context by their addresses, and the event.
pub record AsyncTimer : Type 0 where
  pub descriptor : ℕ
  pub iocp_ctx : ℕ
  pub timer : ℕ

-- The objects that the constructor begins with: a new descriptor, and the context in the timer.
abbrev new_objects : {W : Type 0} → M W (ℕ × ℕ)
new_objects s =
    let d = s.next_object in
    let ctx = s.next_object + 1 in
    ok (
      (d, ctx),
      record s {
        descriptors = insert s.descriptors d invalid_handle;
        contexts = insert s.contexts ctx (record { iocp_fd = invalid_handle; evt = none });
        next_object = s.next_object + 2;
      },
    )

module _ {W : Type 0} (win : Windows W) where
  -- The function that opens the timer; the assertion holds of a key.
  unfoldable pub open_timer : (descriptor iocp_ctx : ℕ) → (evt : ℕ) → M W (Unit {0})
  unfolding TimerImpl.open_timer
  open_timer descriptor iocp_ctx evt = do
    update (λ s. record s {
      contexts = insert s.contexts iocp_ctx (record { iocp_fd = s.reactor_fd; evt = some evt });
    })
    (e, fd) ← lift (TimerImpl.open_timer win iocp_ctx)
    if e == ok_code
        then update (λ s. record s { descriptors = insert s.descriptors descriptor fd })
        else pure tt

  abbrev close_descriptor : (evt : ℕ) → Option ℕ → M W (Unit {0})
  close_descriptor evt none = pure tt
  close_descriptor evt (some d) = do
    fd ← λ s. require dangling_descriptor (s.descriptors d) s
    update (λ s. record s { world = TimerImpl.close win fd s.world })
    modify_event evt (λ e. record e { descriptor = none })

  -- The function that closes the timer.
  unfoldable pub close_timer : (evt : ℕ) → M W (Unit {0})
  unfolding TimerImpl.close
  close_timer evt = do e ← load_event evt; close_descriptor evt e.descriptor

  unfoldable pub construct : (scope : Option ℕ) → M W AsyncTimer
  unfolding Events.construct open_timer
  construct scope = do
    (descriptor, iocp_ctx) ← new_objects
    timer ← Events.construct scope (some descriptor) (open_timer descriptor iocp_ctx)
    pure (record { descriptor = descriptor; iocp_ctx = iocp_ctx; timer = timer })

  unfoldable pub timeout : AsyncTimer → (timeout_ms cb : ℕ) → M W (Unit {0})
  unfolding Events.timeout TimerImpl.init_timer
  timeout self timeout_ms cb = Events.timeout self.timer (TimerImpl.init_timer win) timeout_ms cb

  -- The destructor, which is that of the member `_timer`.
  unfoldable pub destroy : AsyncTimer → M W (Unit {0})
  unfolding Events.destroy close_timer
  destroy self = Events.destroy self.timer (close_timer)
