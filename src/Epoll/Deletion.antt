-- ===== src/Epoll/Deletion.antt =====
-- What all event classes of detail/os/reactor/epoll/events share word for word: the constructor's
-- body but for the side of the descriptor, and `dispose` with the closure of its final event.
use baba_io.Base.{ℕ, ◌≡◌, Bool, Option, none, some, if◌then◌else◌}
use baba_io.Library.LockableQueue
use baba_io.Os.Kernel.{Kernel}
use baba_io.Epoll.State.{Service, Event, finalise}
use baba_io.Epoll.Memory.{M, ok, pure, ◌>>=◌, ◌>>◌, update, load_event, modify_event}
use baba_io.Epoll.Registrar
use baba_io.Epoll.Interrupter
use baba_io.Epoll.Strand
pub mod Completion
pub mod Disposing

-- The closure of `dispose`: it waits behind an active event, and deletes both events otherwise.
unfoldable pub complete_final : {W : Type 0} → (evt final_evt : ℕ) → M W (Unit {0})
unfolding Registrar.give Strand.enqueue
complete_final evt final_evt = do
  e ← load_event evt
  if e.has_active_event
      then Strand.enqueue final_evt
      else (Registrar.give evt >> Registrar.give final_evt)

-- `_registrar->take()` with the descriptor and the strand of a new event object.
unfoldable pub take_event : {W : Type 0} → (io_desc strand : ℕ) → M W ℕ
unfolding Registrar.take
take_event io_desc strand = do
  evt ← Registrar.take
  modify_event evt (λ e. record e { descriptor = some io_desc })
  modify_event evt (λ e. record e { strand = some strand })
  pure evt

module _ {W : Type 0} (os : Kernel W) where
  -- The closure `_enqueue_for_deletion` of the service.
  unfoldable pub enqueue_for_deletion : ℕ → M W (Unit {0})
  unfolding Interrupter.interrupt LockableQueue.enqueue
  enqueue_for_deletion evt = do
    update (λ s. record s { deletions = LockableQueue.enqueue evt s.deletions })
    Interrupter.interrupt os

  unfoldable pub dispose_event : ℕ → M W (Unit {0})
  unfolding Registrar.take enqueue_for_deletion
  dispose_event evt = do
    final_evt ← Registrar.take
    e ← load_event evt
    modify_event final_evt (λ f. record f { strand = e.strand })
    modify_event final_evt (λ f. record f { complete = some (finalise evt final_evt) })
    enqueue_for_deletion final_evt

  -- `dispose`: nothing to do for an object that is default constructed or has been moved from.
  unfoldable pub dispose : Option ℕ → M W (Unit {0})
  unfolding dispose_event
  dispose none = pure tt
  dispose (some evt) = dispose_event evt
