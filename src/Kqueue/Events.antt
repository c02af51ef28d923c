-- ===== src/Kqueue/Events.antt =====
-- What all event classes of detail/os/reactor/kqueue/events share word for word: the constructor, the
-- destructor with the closures of its final event, and the functions that events have from the service.
pub mod Recv
pub mod Send
pub mod Accept
pub mod Connect
pub mod RecvFrom
pub mod SendTo
pub mod Timer
use baba_io.Base.{ℕ, ◌+◌, ◌==◌, not, Option, none, some, if◌then◌else◌}
use baba_io.Library.SafeQueue
use baba_io.Os.Codes.{ErrorCode, ok_code, IoHandle}
use baba_io.Epoll.Memory.{assertion_failed}
use baba_io.Kqueue.State.{
  Service, Event, Descriptor, Complete, Kqueue, Filter, registered, final_initiates,
  final_completes,
}
use baba_io.Kqueue.Memory.{
  M, pure, ◌>>=◌, ◌>>◌, require, lift, update, load_event, load_fd, modify_event, load_descriptor,
  store_descriptor, take, give, complete_with, enqueue_for_completion,
}
use baba_io.Kqueue.Impl
use baba_io.Kqueue.Interrupter

-- A constructor, with the scope of the user or a null pointer: the key of its event. The descriptor gets
-- one more pointer.
unfoldable pub construct : {W : Type 0} → (scope io_desc : Option ℕ) → M W ℕ
unfolding take
construct scope io_desc = do
  evt ← take
  l ← require assertion_failed scope
  d ← require assertion_failed io_desc
  modify_event evt (λ e. record e { scope = some l })
  v ← load_descriptor d
  store_descriptor d (record v { refs = v.refs + 1 })
  modify_event evt (λ e. record e { descriptor = some d })
  pure evt

module _ {W : Type 0} (kq : Kqueue W) where
  -- `_enqueue_for_initiation` of the service.
  unfoldable pub enqueue_for_initiation : ℕ → M W (Unit {0})
  unfolding SafeQueue.enqueue Interrupter.interrupt
  enqueue_for_initiation evt = do
    update (λ s. record s { initiation_queue = SafeQueue.enqueue evt s.initiation_queue })
    Interrupter.interrupt kq

  -- `_register_to_reactor` of the service.
  unfoldable pub register_to_reactor :
      (kqueue_fd : IoHandle) → (evt : ℕ) → Filter → (fflags amount : ℕ) → M W ErrorCode
  unfolding Impl.arm
  register_to_reactor kqueue_fd evt event_filter fflags amount = do
    fd ← load_fd evt
    lift (Impl.arm kq kqueue_fd fd event_filter fflags amount (registered evt))

  -- The closures `initiate`: where the registration fails, the operation completes with its error.
  unfoldable pub initiate_on :
      Filter → (fflags amount : ℕ) → (evt : ℕ) → (ErrorCode → Complete) → IoHandle → M W (Unit {0})
  unfolding register_to_reactor complete_with
  initiate_on event_filter fflags amount evt completes kqueue_fd = do
    ec ← register_to_reactor kqueue_fd evt event_filter fflags amount
    if not (ec == ok_code) then complete_with evt (completes ec) else pure tt

  -- A destructor.
  unfoldable pub destroy : (evt : ℕ) → M W (Unit {0})
  unfolding take enqueue_for_initiation
  destroy evt = do
    final_evt ← take
    modify_event final_evt (λ e. record e { initiate = some (final_initiates evt final_evt) })
    e ← load_event evt
    enqueue_for_initiation final_evt

  -- The closure `complete` of a final event.
  unfoldable pub complete_final : (evt final_evt : ℕ) → M W (Unit {0})
  unfolding give
  complete_final evt final_evt = do give kq evt; give kq final_evt

-- The closure `initiate` of a final event.
unfoldable pub initiate_final : {W : Type 0} → (evt final_evt : ℕ) → M W (Unit {0})
unfolding enqueue_for_completion
initiate_final evt final_evt = do
  modify_event final_evt (λ e. record e { complete = some (final_completes evt final_evt) })
  e ← load_event evt
  enqueue_for_completion final_evt
