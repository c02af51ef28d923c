-- ===== src/Interface/Values.antt =====
-- What src/ip_address.cpp and src/ip_endpoint.cpp have in common: a class that holds a value by a
-- pointer. The pointer is `none` when it is null, and an operation is `none` when it dereferences a
-- null pointer.
use baba_io.Base.{Option, none, some}

-- The rest of an operation, if there is a value behind the pointer.
abbrev pub through {ℓ} : {A : Type 0} {B : Type ℓ} → Option A → (A → Option B) → Option B
through none k = none
through (some a) k = k a

module _ {A : Type 0} where
  -- The copy constructor: a pointer to a copy.
  abbrev pub copied : Option A → Option (Option A)
  copied other = through other (λ a. some (some a))

  -- The copy assignment writes through the pointer that the object has.
  abbrev pub copy_assigned : (self other : Option A) → Option (Option A)
  copy_assigned self other = through self (λ old. through other (λ a. some (some a)))

  -- The move constructor moves the value: the object, and what is left of the other, whose pointer
  -- stays.
  abbrev pub moved : (A → A × A) → Option A → Option (Option A × Option A)
  moved move tmp = through tmp (λ a. let (b, rest) = move a in some (some b, some rest))

  -- The move assignment moves the pointer.
  abbrev pub move_assigned : (self tmp : Option A) → Option A × Option A
  move_assigned self tmp = (tmp, none)
