-- ===== src/Base/Tables.antt =====
-- Maps from native numbers to optional values, as functions.
use Prim.Native.Nat.{ℕ}
use mathlib.Core.Path.{◌≡◌, fun_ext}
use mathlib.Core.Logic.{◌≢◌}
use mathlib.Core.Option.{Option, none, some}
use native.Mathlib.Omega.{arith}
use mathlib.Core.Bool.{true, false}
use baba_io.Base.Tests.{◌==◌, if◌then◌else◌}

abbrev pub Table {ℓ} : Type ℓ → Type ℓ
Table A = ℕ → Option A

module _ {ℓ} {A : Type ℓ} where
  abbrev pub insert : Table A → ℕ → A → Table A
  insert t k v = λ j. if k == j then some v else t j

  abbrev pub erase : Table A → ℕ → Table A
  erase t k = λ j. if k == j then none else t j

  pub insert_self : (t : Table A) (k : ℕ) (v : A) → insert t k v k ≡ some v
  insert_self t k v = ground arith

  pub insert_ne : (t : Table A) (k j : ℕ) (v : A) → k ≢ j → insert t k v j ≡ t j
  insert_ne t k j v h = ground arith

  pub insert-insert : (t : Table A) (k : ℕ) (v w : A) → insert (insert t k v) k w ≡ insert t k w
  insert-insert t k v w = fun_ext λ j. ground arith

  pub erase-insert : (t : Table A) (k : ℕ) (v : A) → erase (insert t k v) k ≡ erase t k
  erase-insert t k v = fun_ext λ j. ground arith

  pub insert_same : (t : Table A) (k : ℕ) (v : A) → t k ≡ some v → insert t k v ≡ t
  insert_same t k v h = fun_ext λ j. ground arith

  -- A key that was free, written twice and erased with another.
  pub erase_fresh :
      (t : Table A) (p k : ℕ) (v w : A)
      → t k ≡ none
      → erase (erase (insert (insert t k v) k w) p) k ≡ erase t p
  erase_fresh t p k v w h = fun_ext λ j. ground arith

  pub erase-insert_free : (t : Table A) (k : ℕ) (v : A) → t k ≡ none → erase (insert t k v) k ≡ t
  erase-insert_free t k v h = fun_ext λ j. ground arith

-- The test of two keys, decided.
pub key_same : (k : ℕ) → (k == k) ≡ true
key_same k = ground arith

pub key_other : (j k : ℕ) → j ≢ k → (j == k) ≡ false
key_other j k h = ground arith
