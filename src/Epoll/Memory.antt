-- ===== src/Epoll/Memory.antt =====
-- Code that runs on the state: a result and the state afterwards, or a fault. All functions of the
-- source are `noexcept`, so a fault ends the program (or is undefined behaviour).
use baba_io.Base.{ℕ, Option, none, some, insert, ◌∷◌, Bool, true, false, if◌then◌else◌}
use baba_io.Epoll.State.{Service, Event, Descriptor, Strand, Accepting, Call}

pub data Fault : Type 0 where
  dangling_event dangling_descriptor dangling_strand dangling_reference null_pointer : Fault
  bad_function_call assertion_failed aborted : Fault
  -- No fault of the program: a loop has not ended within the rounds that it was given.
  out_of_fuel : Fault

pub data Run {ℓ} (A : Type ℓ) : Type ℓ where
  ok : A → Run A
  fault : Fault → Run A

abbrev pub M : Type 0 → Type 0 → Type 0
M W A = Service W → Run (A × Service W)

abbrev pub pure : {W A : Type 0} → A → M W A
pure a s = ok (a, s)

abbrev pub fail : {W A : Type 0} → Fault → M W A
fail f s = fault f

abbrev pub bind : {W A B : Type 0} → Run (A × Service W) → (A → M W B) → Run (B × Service W)
bind (ok (a, s)) k = k a s
bind (fault f) k = fault f

infixl 5 ◌>>=◌ ◌>>◌
abbrev pub ◌>>=◌ : {W A B : Type 0} → M W A → (A → M W B) → M W B
◌>>=◌ m k s = bind (m s) k

abbrev pub ◌>>◌ : {W B : Type 0} → M W (Unit {0}) → M W B → M W B
◌>>◌ m k s = bind (m s) (λ _. k)

-- RUNTIME_ASSERT of inc/baba/semantics.h.
abbrev pub runtime_assert : {W : Type 0} → Bool → M W (Unit {0})
runtime_assert true s = ok (tt, s)
runtime_assert false s = fault assertion_failed

abbrev pub update : {W : Type 0} → (Service W → Service W) → M W (Unit {0})
update f s = ok (tt, f s)

-- What a null pointer or an empty function makes of its use.
abbrev pub require : {W A : Type 0} → Fault → Option A → M W A
require f none s = fault f
require f (some a) s = ok (a, s)

-- A conditional between two pieces of code, and one with no `else`.
abbrev pub branch : {W A : Type 0} → Bool → M W A → M W A → M W A
branch b m n s = if b then m s else n s

abbrev pub when : {W : Type 0} → Bool → M W (Unit {0}) → M W (Unit {0})
when b m s = if b then m s else ok (tt, s)

-- A call of the operating system.
abbrev pub lift : {W A : Type 0} → (W → A × W) → M W A
lift f s = let (a, w) = f s.world in ok (a, record s { world = w })

-- Reads and writes through a pointer.
abbrev pub load_event : {W : Type 0} → ℕ → M W Event
load_event p s = require dangling_event (s.registrar.register p) s

abbrev pub with_register : {W : Type 0} → Service W → (ℕ → Option Event) → Service W
with_register s t = record s { registrar = record (s.registrar) { register = t } }

abbrev pub store_event : {W : Type 0} → ℕ → Event → M W (Unit {0})
store_event p e s = ok (tt, with_register s (insert s.registrar.register p e))

abbrev pub modify_event : {W : Type 0} → ℕ → (Event → Event) → M W (Unit {0})
modify_event p f = load_event p >>= λ e. store_event p (f e)

abbrev pub load_descriptor : {W : Type 0} → ℕ → M W Descriptor
load_descriptor p s = require dangling_descriptor (s.descriptors p) s

abbrev pub store_descriptor : {W : Type 0} → ℕ → Descriptor → M W (Unit {0})
store_descriptor p d s = ok (tt, record s { descriptors = insert s.descriptors p d })

abbrev pub modify_descriptor : {W : Type 0} → ℕ → (Descriptor → Descriptor) → M W (Unit {0})
modify_descriptor p f = load_descriptor p >>= λ d. store_descriptor p (f d)

abbrev pub load_accepting : {W : Type 0} → ℕ → M W Accepting
load_accepting p s = require dangling_reference (s.accepting p) s

abbrev pub store_accepting : {W : Type 0} → ℕ → Accepting → M W (Unit {0})
store_accepting p a s = ok (tt, record s { accepting = insert s.accepting p a })

abbrev pub load_strand : {W : Type 0} → ℕ → M W Strand
load_strand p s = require dangling_strand (s.strands p) s

abbrev pub store_strand : {W : Type 0} → ℕ → Strand → M W (Unit {0})
store_strand p t s = ok (tt, record s { strands = insert s.strands p t })

-- A call of a function of the user. What it does to the service is a later step of its own.
abbrev pub call : {W : Type 0} → Call → M W (Unit {0})
call c = update (λ s. record s { calls = c ∷ s.calls })

-- What no run that meets a postcondition does.
pub data No {ℓ} : Type ℓ where

-- Total correctness: the code ends without a fault, and the result and the state meet `P`.
abbrev pub Returns {ℓ} : {W A : Type 0} → (A → Service W → Type ℓ) → Run (A × Service W) → Type ℓ
Returns P (ok (a, s)) = P a s
Returns P (fault f) = No
