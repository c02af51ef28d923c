-- ===== src/Epoll/Events/Recv.antt =====
-- detail/os/reactor/epoll/events/epoll_recv.cpp. `init_recv` and `fin_recv` are the functions that the
-- constructor is given.
use baba_io.Base.{ℕ, ℤ, pos, false, not, ◌&&◌, Option, none, some, ◌==◌, if◌then◌else◌, ◌==ℤ◌}
use baba_io.Os.Codes.{ErrorCode, ok_code, IoHandle, ec_peer_socket_closed}
use baba_io.Os.Kernel.{Kernel}
use baba_io.Os.FileImpl.{IoResult}
use baba_io.Epoll.State.{recv_react, recved, bytes_call}
use baba_io.Epoll.Memory.{
  M, null_pointer, pure, ◌>>=◌, ◌>>◌, require, lift, call, load_event, modify_event,
  load_descriptor, modify_descriptor, assertion_failed,
}
use baba_io.Epoll.Strand
use baba_io.Epoll.Deletion

-- The object: its event, `none` if default constructed or moved from. The registrar pointer and the
-- functions move with it.
pub record EpollRecv : Type 0 where
  pub evt : Option ℕ

-- The move constructor and the move assignment: the object, and what is left of the other.
unfoldable pub moved : EpollRecv → EpollRecv × EpollRecv
moved tmp = (tmp, record { evt = none })

unfoldable pub construct : {W : Type 0} → (io_desc strand : ℕ) → M W EpollRecv
unfolding Deletion.take_event
construct io_desc strand = do
  evt ← Deletion.take_event io_desc strand
  modify_descriptor io_desc (λ d. record d { read_event = some evt })
  pure (record { evt = some evt })

unfoldable pub dispose : {W : Type 0} → Kernel W → EpollRecv → M W (Unit {0})
unfolding Deletion.dispose
dispose os self = Deletion.dispose os self.evt

unfoldable pub for_completion :
    {W : Type 0} → (evt : ℕ) → (e : ErrorCode) → (cb : ℕ) → (bytes : ℤ) → M W (Unit {0})
unfolding Strand.enqueue
for_completion evt e cb bytes = do
  modify_event evt (λ v. record v { complete = some (recved evt e cb bytes) })
  modify_event evt (λ v. record v { react = none })
  Strand.enqueue evt

-- The closure that `for_completion` stores.
unfoldable pub complete :
    {W : Type 0} → (evt : ℕ) → (e : ErrorCode) → (cb : ℕ) → (bytes : ℤ) → M W (Unit {0})
complete evt e cb bytes = do
  modify_event evt (λ v. record v { complete = none })
  v ← load_event evt
  io_desc ← require null_pointer v.descriptor
  d ← load_descriptor io_desc
  modify_event evt (λ x. record x { has_active_event = false })
  if d.in_scope
      then (if (e == ok_code) && (bytes ==ℤ pos 0)
          then call (bytes_call cb ec_peer_socket_closed bytes)
          else call (bytes_call cb e bytes))
      else pure tt

-- The error code, and the value of `bytes`, which is 0 where nothing is called.
unfoldable pub do_react :
    {W : Type 0}
    → (IoHandle → ℕ → ℤ → W → IoResult × W)
    → (evt buffer : ℕ) → (size : ℤ) → M W IoResult
do_react fin_recv evt buffer size = do
  v ← load_event evt
  io_desc ← require null_pointer v.descriptor
  d ← load_descriptor io_desc
  if d.in_scope
      then lift (fin_recv d.fd buffer size)
      else pure (record { ec = ok_code; bytes = pos 0 })

-- The closure that `recv` stores.
unfoldable pub react :
    {W : Type 0}
    → (IoHandle → ℕ → ℤ → W → IoResult × W)
    → (evt buffer : ℕ) → (size : ℤ) → (cb : ℕ) → (e : ErrorCode) → M W (Unit {0})
unfolding do_react for_completion
react fin_recv evt buffer size cb e =
    if not (e == ok_code)
    then for_completion evt e cb (pos 0)
    else (do r ← do_react fin_recv evt buffer size; for_completion evt r.ec cb r.bytes)

unfoldable pub recv :
    {W : Type 0}
    → (ℕ → M W ErrorCode)
    → EpollRecv
    → (buffer : ℕ) → (size : ℤ) → (cb : Option ℕ) → M W (Unit {0})
unfolding for_completion
recv init_recv self buffer size cb = do
  evt ← require assertion_failed self.evt
  f ← require assertion_failed cb
  modify_event evt (λ v. record v { react = some (recv_react evt buffer size f) })
  ec ← init_recv evt
  if not (ec == ok_code) then for_completion evt ec f (pos 0) else pure tt
