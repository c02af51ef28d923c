-- ===== src/Epoll/Registrar.antt =====
-- detail/os/common/event_registrar.cpp.
pub mod Ids
use baba_io.Base.{
  ℕ, ◌+◌, ◌%◌, ◌^◌, Option, none, some, false, Table, insert, erase, if◌then◌else◌, ◌==◌,
}
use baba_io.Epoll.State.{Service, Event, Registrar}
use baba_io.Epoll.Memory.{M, ok, ◌>>=◌, ◌>>◌, load_event, update, with_register}

-- A `reactor_event` as its default constructor leaves it.
abbrev pub fresh_event : Event
fresh_event = record {
  descriptor = none;
  react = none;
  complete = none;
  has_active_event = false;
  strand = none;
  id = 0;
}

-- `_register[key]`: the event with that key, made if there is none.
abbrev pub subscript : Option Event → Event
subscript none = fresh_event
subscript (some e) = e

unfoldable pub take_id : Registrar → ℕ × Registrar
take_id r =
    let key = r.id_generator in
    (
      key,
      record {
        register = insert r.register key (record (subscript (r.register key)) { id = key });
        id_generator = (key + 1) % 2 ^ 64;
      },
    )

unfoldable pub take : {W : Type 0} → M W ℕ
unfolding take_id
take s = let (key, r) = take_id s.registrar in ok (key, record s { registrar = r })

-- The assertion that the pointer is not null holds: pointers to events are keys here.
unfoldable pub give : {W : Type 0} → ℕ → M W (Unit {0})
give evt = do e ← load_event evt; update (λ s. with_register s (erase s.registrar.register e.id))

-- What the loop of `close` does to an event.
abbrev pub reset : Option Event → Option Event
reset none = none
reset (some e) = some (record e { react = none; complete = none })

abbrev pub reset_all : Registrar → Registrar
reset_all r = record r { register = λ key. reset (r.register key) }

abbrev pub clear : Registrar → Registrar
clear r = record r { register = λ key. none }

-- What the reset closures have captured is released by it; the destructors that this may run are
-- calls of the user, and not part of the loop.
unfoldable pub close : {W : Type 0} → M W (Unit {0})
close = update (λ s. record s { registrar = clear (reset_all s.registrar) })
