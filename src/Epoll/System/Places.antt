-- ===== src/Epoll/System/Places.antt =====
-- Lists of references to events, each event in one place at a time: a phase for each event says where
-- it is, and a list is placed if the phases of what it refers to fit it.
use baba_io.Base.{
  ℕ, ◌≡◌, ◌≢◌, sym, Option, none, some, List, [], ◌∷◌, ◌++◌, arith, ◌==◌, if◌then◌else◌,
}

abbrev pub All {ℓ} : {A : Type 0} → (A → Type ℓ) → List A → Type ℓ
All P [] = Unit
All P (x ∷ xs) = P x × All P xs

pub All-unit : {A : Type 0} → (xs : List A) → All {0} (λ x. Unit) xs
All-unit [] = tt
All-unit (x ∷ xs) = (tt, All-unit xs)

pub All-map :
    {A : Type 0} {P Q : A → Type 0} → ((x : A) → P x → Q x) → (xs : List A) → All P xs → All Q xs
All-map f [] h = tt
All-map f (x ∷ xs) (h, hs) = (f x h, All-map f xs hs)

pub All-zip :
    {A : Type 0} {P Q R : A → Type 0}
    → ((x : A) → P x → Q x → R x)
    → (xs : List A) → All P xs
    → All Q xs
    → All R xs
All-zip f [] h k = tt
All-zip f (x ∷ xs) (h, hs) (k, ks) = (f x h k, All-zip f xs hs ks)

pub All-snoc :
    {A : Type 0} (P : A → Type 0) (xs : List A) (x : A) → All P xs → P x → All P (xs ++ x ∷ [])
All-snoc P [] x h k = (k, tt)
All-snoc P (y ∷ xs) x (h, hs) k = (h, All-snoc P xs x hs k)

-- A statement about a reference, if there is one.
abbrev pub OnSome : Option ℕ → (ℕ → Type 0) → Type 0
OnSome none P = Unit
OnSome (some p) P = P p

abbrev pub Differ : Option ℕ → Option ℕ → Type 0
Differ a b = OnSome a (λ p. OnSome b (λ q. p ≢ q))

pub Differ-sym : (a b : Option ℕ) → Differ a b → Differ b a
Differ-sym none none h = tt
Differ-sym none (some q) h = tt
Differ-sym (some p) none h = tt
Differ-sym (some p) (some q) h = λ e. h (sym e)

-- No two elements refer to the same event.
abbrev pub Apart : {A : Type 0} → (A → Option ℕ) → List A → Type 0
Apart key [] = Unit
Apart key (x ∷ xs) = All (λ y. Differ (key x) (key y)) xs × Apart key xs

pub Apart-snoc :
    {A : Type 0} (key : A → Option ℕ) (xs : List A) (x : A)
    → Apart key xs
    → All (λ y. Differ (key x) (key y)) xs
    → Apart key (xs ++ x ∷ [])
Apart-snoc key [] x h k = (tt, tt)
Apart-snoc key (y ∷ xs) x (h, hs) (k, ks) = (
  All-snoc (λ z. Differ (key y) (key z)) xs x h (Differ-sym (key x) (key y) k),
  Apart-snoc key xs x hs ks,
)

module _ {Phase : Type 0} where
  abbrev pub set : (ℕ → Phase) → ℕ → Phase → ℕ → Phase
  set ph p n q = if p == q then n else ph q

  pub set_self : (ph : ℕ → Phase) (p : ℕ) (n : Phase) → set ph p n p ≡ n
  set_self ph p n = ground arith

  pub set_ne : (ph : ℕ → Phase) (p q : ℕ) (n : Phase) → p ≢ q → set ph p n q ≡ ph q
  set_ne ph p q n ne = ground arith

  abbrev pub At : {A : Type 0} → (A → Option ℕ) → (A → Phase → Type 0) → (ℕ → Phase) → A → Type 0
  At key good ph x = OnSome (key x) (λ p. good x (ph p))

  module _ {A : Type 0} (key : A → Option ℕ) (good : A → Phase → Type 0) (ph : ℕ → Phase) (p : ℕ)
      (n : Phase) where
    At-set : (y : A) → Differ (some p) (key y) → At key good ph y → At key good (set ph p n) y
    At-set y d h = go (key y) d h
      where
        go :
            (q : Option ℕ)
            → Differ (some p) q
            → OnSome q (λ k. good y (ph k))
            → OnSome q (λ k. good y (set ph p n k))
        go none d h = tt
        go (some q) d h = rw (set_ne ph p q n d) h

    -- What refers to other events keeps its place when the phase of one changes.
    pub placed_apart :
        (xs : List A)
        → All (λ y. Differ (some p) (key y)) xs
        → All (At key good ph) xs
        → All (At key good (set ph p n)) xs
    placed_apart xs = All-zip At-set xs

    misfit : (y : A) → ((z : A) → good z (ph p) → ⊥) → At key good ph y → Differ (some p) (key y)
    misfit y misfits h = go (key y) h
      where
        go : (q : Option ℕ) → OnSome q (λ k. good y (ph k)) → Differ (some p) q
        go none h = tt
        go (some q) h = λ e. misfits y (rw e h)

    -- A list whose elements fit other phases than that of an event does not refer to it.
    pub placed_elsewhere :
        (xs : List A)
        → ((z : A) → good z (ph p) → ⊥)
        → All (At key good ph) xs
        → All (λ y. Differ (some p) (key y)) xs
    placed_elsewhere xs misfits = All-map (λ y. misfit y misfits) xs
