-- ===== src/Epoll/Events/Connect.antt =====
-- detail/os/reactor/epoll/events/epoll_connect.cpp. `init_connect` and `fin_connect` are the functions that the
-- constructor is given.
use baba_io.Base.{ℕ, false, not, Option, none, some, ◌==◌, if◌then◌else◌}
use baba_io.Os.Codes.{ErrorCode, ok_code, IoHandle}
use baba_io.Os.Kernel.{Kernel}
use baba_io.Epoll.State.{connect_react, connected, code_call}
use baba_io.Epoll.Memory.{
  M, null_pointer, pure, ◌>>=◌, ◌>>◌, require, lift, call, load_event, modify_event,
  load_descriptor, modify_descriptor, assertion_failed,
}
use baba_io.Epoll.Strand
use baba_io.Epoll.Deletion

-- The object: its event, `none` if default constructed or moved from. The registrar pointer and the
-- functions move with it.
pub record EpollConnect : Type 0 where
  pub evt : Option ℕ

-- The move constructor and the move assignment: the object, and what is left of the other.
unfoldable pub moved : EpollConnect → EpollConnect × EpollConnect
moved tmp = (tmp, record { evt = none })

unfoldable pub construct : {W : Type 0} → (io_desc strand : ℕ) → M W EpollConnect
unfolding Deletion.take_event
construct io_desc strand = do
  evt ← Deletion.take_event io_desc strand
  modify_descriptor io_desc (λ d. record d { write_event = some evt })
  pure (record { evt = some evt })

unfoldable pub dispose : {W : Type 0} → Kernel W → EpollConnect → M W (Unit {0})
unfolding Deletion.dispose
dispose os self = Deletion.dispose os self.evt

unfoldable pub for_completion :
    {W : Type 0} → (evt : ℕ) → (e : ErrorCode) → (cb : ℕ) → M W (Unit {0})
unfolding Strand.enqueue
for_completion evt e cb = do
  modify_event evt (λ v. record v { complete = some (connected evt e cb) })
  modify_event evt (λ v. record v { react = none })
  Strand.enqueue evt

-- The closure that `for_completion` stores.
unfoldable pub complete : {W : Type 0} → (evt : ℕ) → (e : ErrorCode) → (cb : ℕ) → M W (Unit {0})
complete evt e cb = do
  modify_event evt (λ v. record v { complete = none })
  v ← load_event evt
  io_desc ← require null_pointer v.descriptor
  d ← load_descriptor io_desc
  modify_event evt (λ x. record x { has_active_event = false })
  if d.in_scope then call (code_call cb e) else pure tt

-- The closure that `connect` stores; it passes on the code of `fin_connect` and not its argument.
unfoldable pub react : {W : Type 0} → (evt cb : ℕ) → (e reported : ErrorCode) → M W (Unit {0})
unfolding for_completion
react evt cb e reported = for_completion evt e cb

-- `fin_connect` is called with the handle, and already knows the endpoint of the peer.
unfoldable pub connect :
    {W : Type 0}
    → (ℕ → M W ErrorCode)
    → (IoHandle → W → ErrorCode × W)
    → EpollConnect
    → (cb : Option ℕ) → M W (Unit {0})
unfolding for_completion
connect init_connect fin_connect self cb = do
  evt ← require assertion_failed self.evt
  f ← require assertion_failed cb
  v ← load_event evt
  io_desc ← require null_pointer v.descriptor
  d ← load_descriptor io_desc
  e ← lift (fin_connect d.fd)
  modify_event evt (λ x. record x { react = some (connect_react evt f e) })
  ec ← init_connect evt
  if not (ec == ok_code) then for_completion evt ec f else pure tt
