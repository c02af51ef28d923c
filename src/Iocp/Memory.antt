-- ===== src/Iocp/Memory.antt =====
-- Code that runs on the state; the registrar.
use baba_io.Base.{ℕ, ◌+◌, ◌%◌, ◌^◌, false, Option, none, some, insert, erase, ◌∷◌}
use baba_io.Epoll.Memory.{ok, dangling_event}
use baba_io.Steps.{Steps}
use baba_io.Iocp.State.{Service, Event, Call}
pub use baba_io.Steps.{pure, fail, bind, ◌>>=◌, ◌>>◌, update, require}

abbrev pub M : Type 0 → Type 0 → Type 0
M W A = Steps (Service W) A

abbrev pub lift : {W A : Type 0} → (W → A × W) → M W A
lift f s = let (a, w) = f s.world in ok (a, record s { world = w })

abbrev pub load_event : {W : Type 0} → ℕ → M W Event
load_event p s = require dangling_event (s.register p) s

abbrev pub modify_event : {W : Type 0} → ℕ → (Event → Event) → M W (Unit {0})
modify_event p f =
    load_event p >>= λ e. update (λ s. record s { register = insert s.register p (f e) })

abbrev pub call : {W : Type 0} → Call → M W (Unit {0})
call c = update (λ s. record s { calls = c ∷ s.calls })

abbrev pub fresh_event : Event
fresh_event = record {
  descriptor = none;
  react = none;
  complete = none;
  scope = none;
  id = 0;
  enqueues = false;
}

abbrev subscript : Option Event → Event
subscript none = fresh_event
subscript (some e) = e

-- `event_registrar::take`.
unfoldable pub take : {W : Type 0} → M W ℕ
take s =
    let key = s.id_generator in
    ok (
      key,
      record s {
        register = insert s.register key (record (subscript (s.register key)) { id = key });
        id_generator = (key + 1) % 2 ^ 64;
      },
    )

-- `event_registrar::give`.
unfoldable pub give : {W : Type 0} → ℕ → M W (Unit {0})
give evt = do e ← load_event evt; update (λ s. record s { register = erase s.register e.id })
