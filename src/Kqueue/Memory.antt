-- ===== src/Kqueue/Memory.antt =====
-- Code that runs on the state, with the faults of the other reactor; the registrar, and the shared
-- pointers to descriptors.
use baba_io.Base.{
  ℕ, ◌+◌, ◌-◌, ◌%◌, ◌^◌, ◌==◌, ◌==ℤ◌, Option, none, some, insert, erase, ◌∷◌, if◌then◌else◌,
}
use baba_io.Library.BlockingQueue
use baba_io.Os.Codes.{IoHandle, invalid_handle}
use baba_io.Os.FileImpl
use baba_io.Epoll.Memory.{ok, dangling_event, dangling_descriptor, null_pointer}
use baba_io.Steps.{Steps}
use baba_io.Kqueue.State.{Service, Event, Descriptor, Complete, Call, Kqueue}
pub use baba_io.Steps.{pure, fail, bind, ◌>>=◌, ◌>>◌, update, require}

abbrev pub M : Type 0 → Type 0 → Type 0
M W A = Steps (Service W) A

abbrev pub lift : {W A : Type 0} → (W → A × W) → M W A
lift f s = let (a, w) = f s.world in ok (a, record s { world = w })

abbrev pub load_event : {W : Type 0} → ℕ → M W Event
load_event p s = require dangling_event (s.register p) s

abbrev pub modify_event : {W : Type 0} → ℕ → (Event → Event) → M W (Unit {0})
modify_event p f =
    load_event p >>= λ e. update (λ s. record s { register = insert s.register p (f e) })

abbrev pub load_descriptor : {W : Type 0} → ℕ → M W Descriptor
load_descriptor p s = require dangling_descriptor (s.descriptors p) s

abbrev pub store_descriptor : {W : Type 0} → ℕ → Descriptor → M W (Unit {0})
store_descriptor p d s = ok (tt, record s { descriptors = insert s.descriptors p d })

-- `descriptor->fd` of an event.
abbrev pub load_fd : {W : Type 0} → ℕ → M W IoHandle
load_fd evt = load_event evt >>= λ e.
    require null_pointer e.descriptor >>= λ d. load_descriptor d >>= λ v. pure v.fd

abbrev pub call : {W : Type 0} → Call → M W (Unit {0})
call c = update (λ s. record s { calls = c ∷ s.calls })

abbrev pub fresh_event : Event
fresh_event = record {
  descriptor = none;
  initiate = none;
  react = none;
  complete = none;
  scope = none;
  id = 0;
}

abbrev subscript : Option Event → Event
subscript none = fresh_event
subscript (some e) = e

-- `event_registrar::take`.
unfoldable pub take : {W : Type 0} → M W ℕ
take s =
    let key = s.id_generator in
    ok (
      key,
      record s {
        register = insert s.register key (record (subscript (s.register key)) { id = key });
        id_generator = (key + 1) % 2 ^ 64;
      },
    )

-- `_enqueue_for_completion` of the service.
unfoldable pub enqueue_for_completion : {W : Type 0} → ℕ → M W (Unit {0})
unfolding BlockingQueue.enqueue
enqueue_for_completion evt =
    update (λ s. record s { completion_queue = BlockingQueue.enqueue evt s.completion_queue })

-- The end of an operation: its completion is stored and the event is queued.
unfoldable pub complete_with : {W : Type 0} → (evt : ℕ) → Complete → M W (Unit {0})
unfolding enqueue_for_completion
complete_with evt c = do
  modify_event evt (λ e. record e { complete = some c })
  enqueue_for_completion evt

module _ {W : Type 0} (kq : Kqueue W) where
  -- The destructor of a descriptor.
  unfoldable pub close_descriptor : Descriptor → M W (Unit {0})
  unfolding FileImpl.close
  close_descriptor d =
      if d.fd ==ℤ invalid_handle
      then pure tt
      else update (λ s. record s { world = FileImpl.close kq.os d.fd s.world })

  -- A shared pointer goes; the last one destroys the descriptor.
  unfoldable pub release : ℕ → M W (Unit {0})
  unfolding close_descriptor
  release io_desc = do
    d ← load_descriptor io_desc
    if d.refs == 1
        then (do
          update (λ s. record s { descriptors = erase s.descriptors io_desc })
          close_descriptor d)
        else store_descriptor io_desc (record d { refs = d.refs - 1 })

  abbrev release_any : Option ℕ → M W (Unit {0})
  release_any none = pure tt
  release_any (some io_desc) = release io_desc

  -- `event_registrar::give`: the event is destroyed with the pointer that it has.
  unfoldable pub give : ℕ → M W (Unit {0})
  unfolding release
  give evt = do
    e ← load_event evt
    update (λ s. record s { register = erase s.register e.id })
    release_any e.descriptor
