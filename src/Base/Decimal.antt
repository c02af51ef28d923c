-- ===== src/Base/Decimal.antt =====
-- Numbers printed in base ten, as the stream operators of the standard library print them.
use Prim.Native.Nat.{ℕ, zero, suc, ◌+◌, ◌-◌, ◌*◌, ◌/◌, ◌%◌, ◌≤◌}
use mathlib.Core.Path.{◌≡◌, ◌∙◌, refl, sym, ap}
use mathlib.Core.Logic.{◌≢◌, inl, inr}
use mathlib.Core.List.{List, [], ◌∷◌, ◌++◌}
use native.Mathlib.Omega.{arith}
use baba_io.Base.Tests.{ltb, if◌then◌else◌, Bool-cases}

abbrev digits : (fuel : ℕ) → ℕ → List ℕ
digits zero n = (n % 10 + 48) ∷ []
digits (suc fuel) n =
    let rest = digits fuel (n / 10) in
    if ltb n 10 then (n % 10 + 48) ∷ [] else rest ++ (n % 10 + 48) ∷ []

-- A number has no more digits than its value, so the fuel is enough.
abbrev pub decimal : ℕ → List ℕ
decimal n = digits n n

abbrev value : ℕ → List ℕ → ℕ
value acc [] = acc
value acc (d ∷ ds) = value (acc * 10 + (d - 48)) ds

value-snoc : (ds : List ℕ) (acc d : ℕ) → value acc (ds ++ d ∷ []) ≡ value acc ds * 10 + (d - 48)
value-snoc [] acc d = refl
value-snoc (x ∷ ds) acc d = value-snoc ds (acc * 10 + (x - 48)) d

value-digits : (fuel n : ℕ) → n ≤ fuel → value 0 (digits fuel n) ≡ n
value-digits zero n h = omega arith
value-digits (suc fuel) n h = elim (Bool-cases (ltb n 10)) [
  | inl small ↦ rw small (ground arith)
  | inr large ↦ rw large (
      value-snoc (digits fuel (n / 10)) 0 (n % 10 + 48)
      ∙ ground (arith, value-digits fuel (n / 10) (ground arith)))
]

-- Different numbers are printed differently.
pub decimal-injective : (m n : ℕ) → decimal m ≡ decimal n → m ≡ n
decimal-injective m n h =
    sym (value-digits m m (omega arith)) ∙ ap (value 0) h ∙ value-digits n n (omega arith)

-- A character does not occur in a text.
abbrev pub Absent : ℕ → List ℕ → Type 0
Absent c [] = Unit
Absent c (x ∷ xs) = (c ≢ x) × Absent c xs

Absent-snoc : (c : ℕ) (xs : List ℕ) (x : ℕ) → Absent c xs → c ≢ x → Absent c (xs ++ x ∷ [])
Absent-snoc c [] x h ne = (ne, tt)
Absent-snoc c (y ∷ xs) x (h, hs) ne = (h, Absent-snoc c xs x hs ne)

Absent-digits : (fuel n : ℕ) → Absent b':' (digits fuel n)
Absent-digits zero n = ((λ h. omega arith), tt)
Absent-digits (suc fuel) n = elim (Bool-cases (ltb n 10)) [
  | inl small ↦ rw small ((λ h. omega arith), tt)
  | inr large ↦ rw large (
      Absent-snoc b':' (digits fuel (n / 10)) (n % 10 + 48) (Absent-digits fuel (n / 10))
        (λ h. omega arith))
]

pub Absent-decimal : (n : ℕ) → Absent b':' (decimal n)
Absent-decimal n = Absent-digits n n

-- What follows the last occurrence of a character in a text, and what stands before it.
Absent-middle : (c : ℕ) (xs ys : List ℕ) → Absent c (xs ++ c ∷ ys) → ⊥
Absent-middle c [] ys (h, _) = h refl
Absent-middle c (x ∷ xs) ys (_, hs) = Absent-middle c xs ys hs

head_eq : {x y : ℕ} {xs ys : List ℕ} → x ∷ xs ≡ y ∷ ys → x ≡ y
head_eq h = cc

tail_eq : {x y : ℕ} {xs ys : List ℕ} → x ∷ xs ≡ y ∷ ys → xs ≡ ys
tail_eq h = cc

pub last-split :
    (c : ℕ) (a b p q : List ℕ)
    → Absent c p
    → Absent c q
    → a ++ c ∷ p ≡ b ++ c ∷ q
    → (a ≡ b) × (p ≡ q)
last-split c [] [] p q hp hq h = (refl, tail_eq h)
last-split c [] (y ∷ b) p q hp hq h = absurd (Absent-middle c b q (rw (tail_eq h) at hp))
last-split c (x ∷ a) [] p q hp hq h = absurd (Absent-middle c a p (rw (sym (tail_eq h)) at hq))
last-split c (x ∷ a) (y ∷ b) p q hp hq h =
    let (e, r) = last-split c a b p q hp hq (tail_eq h) in (cc (head_eq h, e), r)
