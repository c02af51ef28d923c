-- ===== src/Epoll/Events/Timer.antt =====
-- detail/os/reactor/epoll/events/epoll_timer.cpp. `init_timer` and `fin_timer` are the functions that the
-- constructor is given.
use baba_io.Base.{ℕ, false, not, Option, none, some, ◌==◌, if◌then◌else◌}
use baba_io.Os.Codes.{ErrorCode, ok_code, IoHandle}
use baba_io.Os.Kernel.{Kernel}
use baba_io.Os.FileImpl.{IoResult}
use baba_io.Epoll.State.{timer_react, expired, code_call}
use baba_io.Epoll.Memory.{
  M, null_pointer, pure, ◌>>=◌, ◌>>◌, require, lift, call, load_event, modify_event,
  load_descriptor, modify_descriptor, assertion_failed,
}
use baba_io.Epoll.Strand
use baba_io.Epoll.Deletion

-- The object: its event, `none` if default constructed or moved from. The registrar pointer and the
-- functions move with it.
pub record EpollTimer : Type 0 where
  pub evt : Option ℕ

-- The move constructor and the move assignment: the object, and what is left of the other.
unfoldable pub moved : EpollTimer → EpollTimer × EpollTimer
moved tmp = (tmp, record { evt = none })

unfoldable pub construct : {W : Type 0} → (io_desc strand : ℕ) → M W EpollTimer
unfolding Deletion.take_event
construct io_desc strand = do
  evt ← Deletion.take_event io_desc strand
  modify_descriptor io_desc (λ d. record d { read_event = some evt })
  pure (record { evt = some evt })

unfoldable pub dispose : {W : Type 0} → Kernel W → EpollTimer → M W (Unit {0})
unfolding Deletion.dispose
dispose os self = Deletion.dispose os self.evt

unfoldable pub for_completion :
    {W : Type 0} → (evt : ℕ) → (e : ErrorCode) → (cb : ℕ) → M W (Unit {0})
unfolding Strand.enqueue
for_completion evt e cb = do
  modify_event evt (λ v. record v { complete = some (expired evt e cb) })
  modify_event evt (λ v. record v { react = none })
  Strand.enqueue evt

-- The closure that `for_completion` stores.
unfoldable pub complete : {W : Type 0} → (evt : ℕ) → (e : ErrorCode) → (cb : ℕ) → M W (Unit {0})
complete evt e cb = do
  modify_event evt (λ v. record v { complete = none })
  v ← load_event evt
  io_desc ← require null_pointer v.descriptor
  d ← load_descriptor io_desc
  modify_event evt (λ x. record x { has_active_event = false })
  if d.in_scope then call (code_call cb e) else pure tt

-- The buffer of 8 bytes that `fin_timer` fills is a variable of the closure, at address 0 here.
unfoldable pub do_react :
    {W : Type 0} → (IoHandle → ℕ → ℕ → W → IoResult × W) → (evt : ℕ) → M W ErrorCode
do_react fin_timer evt = do
  v ← load_event evt
  io_desc ← require null_pointer v.descriptor
  d ← load_descriptor io_desc
  if d.in_scope then (do r ← lift (fin_timer d.fd 0 8); pure r.ec) else pure ok_code

-- The closure that `timeout` stores.
unfoldable pub react :
    {W : Type 0}
    → (IoHandle → ℕ → ℕ → W → IoResult × W)
    → (evt cb : ℕ) → (e : ErrorCode) → M W (Unit {0})
unfolding do_react for_completion
react fin_timer evt cb e =
    if not (e == ok_code)
    then for_completion evt e cb
    else (do ec ← do_react fin_timer evt; for_completion evt ec cb)

unfoldable pub timeout :
    {W : Type 0}
    → (ℕ → ℕ → M W ErrorCode)
    → EpollTimer
    → (timeout_ms : ℕ) → (cb : Option ℕ) → M W (Unit {0})
unfolding for_completion
timeout init_timer self timeout_ms cb = do
  evt ← require assertion_failed self.evt
  f ← require assertion_failed cb
  modify_event evt (λ v. record v { react = some (timer_react evt f) })
  ec ← init_timer evt timeout_ms
  if not (ec == ok_code) then for_completion evt ec f else pure tt
