-- ===== src/Base/Int.antt =====
-- The C type `int` where the source uses negative values: handles and byte counts.
use Prim.Native.Nat.{ℕ, compare, Ordering}
use mathlib.Core.Bool.{Bool, true, false}
use mathlib.Core.Path.{◌≡◌}
use native.Mathlib.Omega.{arith}

-- `negsuc n` is -(n + 1).
pub data ℤ : Type 0 where
  pos : ℕ → ℤ
  negsuc : ℕ → ℤ

abbrev pub minus_one : ℤ
minus_one = negsuc 0

infix 50 ◌==ℤ◌
abbrev pub ◌==ℤ◌ : ℤ → ℤ → Bool
pos a ==ℤ pos b = elim (compare a b) [ Ordering.eq ↦ true | _ ↦ false ]
negsuc a ==ℤ negsuc b = elim (compare a b) [ Ordering.eq ↦ true | _ ↦ false ]
_ ==ℤ _ = false

-- The test of a number against itself.
pub int_same : (a : ℤ) → (a ==ℤ a) ≡ true
int_same (pos n) = ground arith
int_same (negsuc n) = ground arith
