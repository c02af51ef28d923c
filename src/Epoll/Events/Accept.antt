-- ===== src/Epoll/Events/Accept.antt =====
-- detail/os/reactor/epoll/events/epoll_accept.cpp. `init_accept` and `fin_accept` are the functions that
-- the constructor is given; `fin_accept` writes the handle and the endpoint of the peer through the
-- references that `accept` is given.
use baba_io.Base.{ℕ, false, not, Option, none, some, ◌==◌, if◌then◌else◌}
use baba_io.Os.Codes.{ErrorCode, ok_code, IoHandle}
use baba_io.Os.Kernel.{Kernel}
use baba_io.Epoll.State.{accept_react, accepted, code_call}
use baba_io.Epoll.Memory.{
  M, null_pointer, pure, ◌>>=◌, ◌>>◌, require, call, load_event, modify_event, load_descriptor,
  modify_descriptor, assertion_failed, branch,
}
use baba_io.Epoll.Strand
use baba_io.Epoll.Deletion

-- The object: its event, `none` if default constructed or moved from. The registrar pointer and the
-- functions move with it.
pub record EpollAccept : Type 0 where
  pub evt : Option ℕ

-- The move constructor and the move assignment: the object, and what is left of the other.
unfoldable pub moved : EpollAccept → EpollAccept × EpollAccept
moved tmp = (tmp, record { evt = none })

unfoldable pub construct : {W : Type 0} → (io_desc strand : ℕ) → M W EpollAccept
unfolding Deletion.take_event
construct io_desc strand = do
  evt ← Deletion.take_event io_desc strand
  modify_descriptor io_desc (λ d. record d { read_event = some evt })
  pure (record { evt = some evt })

unfoldable pub dispose : {W : Type 0} → Kernel W → EpollAccept → M W (Unit {0})
unfolding Deletion.dispose
dispose os self = Deletion.dispose os self.evt

unfoldable pub for_completion :
    {W : Type 0} → (evt : ℕ) → (e : ErrorCode) → (cb : ℕ) → M W (Unit {0})
unfolding Strand.enqueue
for_completion evt e cb = do
  modify_event evt (λ v. record v { complete = some (accepted evt e cb) })
  modify_event evt (λ v. record v { react = none })
  Strand.enqueue evt

-- The closure that `for_completion` stores.
unfoldable pub complete : {W : Type 0} → (evt : ℕ) → (e : ErrorCode) → (cb : ℕ) → M W (Unit {0})
complete evt e cb = do
  modify_event evt (λ v. record v { complete = none })
  v ← load_event evt
  io_desc ← require null_pointer v.descriptor
  d ← load_descriptor io_desc
  modify_event evt (λ x. record x { has_active_event = false })
  if d.in_scope then call (code_call cb e) else pure tt

unfoldable pub do_react :
    {W : Type 0}
    → (IoHandle → (accepting : ℕ) → M W ErrorCode)
    → (evt accepting : ℕ) → M W ErrorCode
do_react fin_accept evt accepting = do
  v ← load_event evt
  io_desc ← require null_pointer v.descriptor
  d ← load_descriptor io_desc
  branch d.in_scope (fin_accept d.fd accepting) (pure ok_code)

-- The closure that `accept` stores.
unfoldable pub react :
    {W : Type 0}
    → (IoHandle → (accepting : ℕ) → M W ErrorCode)
    → (evt accepting cb : ℕ) → (e : ErrorCode) → M W (Unit {0})
unfolding do_react for_completion
react fin_accept evt accepting cb e =
    if not (e == ok_code)
    then for_completion evt e cb
    else (do ec ← do_react fin_accept evt accepting; for_completion evt ec cb)

unfoldable pub accept :
    {W : Type 0}
    → (ℕ → M W ErrorCode)
    → EpollAccept
    → (accepting : ℕ) → (cb : Option ℕ) → M W (Unit {0})
unfolding for_completion
accept init_accept self accepting cb = do
  evt ← require assertion_failed self.evt
  f ← require assertion_failed cb
  modify_event evt (λ v. record v { react = some (accept_react evt accepting f) })
  ec ← init_accept evt
  if not (ec == ok_code) then for_completion evt ec f else pure tt
