-- ===== src/Net/IpEndpoint/Text.antt =====
-- `to_string` and the operators of detail/os/socket/ip_endpoint.cpp and of
-- detail/os/socket/ip_address.cpp, which compare texts.
use baba_io.Base.{
  ℕ, ◌≡◌, sym, refl, Bool, true, false, not, ◌&&◌, List, [], ◌∷◌, ◌++◌, ◌==◌, arith, decimal,
  decimal-injective, Absent-decimal, last-split,
}
use baba_io.Net.IpAddress
use baba_io.Net.IpAddress.{IpAddress}
use baba_io.Net.IpEndpoint.{IpEndpoint}

-- `==` of `std::string`.
abbrev pub same_text : List ℕ → List ℕ → Bool
same_text [] [] = true
same_text [] (y ∷ ys) = false
same_text (x ∷ xs) [] = false
same_text (x ∷ xs) (y ∷ ys) = x == y && same_text xs ys

pub same_text_refl : (xs : List ℕ) → same_text xs xs ≡ true
same_text_refl [] = refl
same_text_refl (x ∷ xs) = ground (arith, same_text_refl xs)

pub same_text_sound : (xs ys : List ℕ) → same_text xs ys ≡ true → xs ≡ ys
same_text_sound [] [] h = refl
same_text_sound [] (y ∷ ys) h = cc
same_text_sound (x ∷ xs) [] h = cc
same_text_sound (x ∷ xs) (y ∷ ys) h = ground (arith, same_text_sound xs ys)

module _ (inet_ntop : ℕ → ℕ → List ℕ) where
  unfoldable pub address_eq : IpAddress → IpAddress → Bool
  unfolding IpAddress.to_string
  address_eq lhs rhs =
      same_text (IpAddress.to_string inet_ntop lhs) (IpAddress.to_string inet_ntop rhs)

  unfoldable pub address_ne : IpAddress → IpAddress → Bool
  unfolding address_eq
  address_ne lhs rhs = not (address_eq lhs rhs)

  unfoldable pub to_string : IpEndpoint → List ℕ
  unfolding IpAddress.to_string
  to_string ep = IpAddress.to_string inet_ntop ep.address ++ b':' ∷ decimal ep.port

  unfoldable pub endpoint_eq : IpEndpoint → IpEndpoint → Bool
  unfolding to_string
  endpoint_eq lhs rhs = same_text (to_string lhs) (to_string rhs)

  unfoldable pub endpoint_ne : IpEndpoint → IpEndpoint → Bool
  unfolding endpoint_eq
  endpoint_ne lhs rhs = not (endpoint_eq lhs rhs)

pub both_true : (a b : Bool) → (a && b) ≡ true → (a ≡ true) × (b ≡ true)
both_true true b h = (refl, h)
both_true false b h = cc

-- Two tests are the same if either implies the other.
pub same_test : (a b : Bool) → (a ≡ true → b ≡ true) → (b ≡ true → a ≡ true) → a ≡ b
same_test true b f g = sym (f refl)
same_test false true f g = g refl
same_test false false f g = refl

pub numbers_eq : (m n : ℕ) → (m == n) ≡ true → m ≡ n
numbers_eq m n h = ground arith

-- Two texts with a colon and a number behind are the same if the texts and the numbers are.
same_text-colon :
    (xs ys : List ℕ) (m n : ℕ)
    → same_text (xs ++ b':' ∷ decimal m) (ys ++ b':' ∷ decimal n) ≡ (same_text xs ys && m == n)
same_text-colon xs ys m n =
    same_test _ _
      (λ h.
        let (front, back) =
          last-split b':' xs ys (decimal m) (decimal n) (Absent-decimal m) (Absent-decimal n)
            (same_text_sound (xs ++ b':' ∷ decimal m) (ys ++ b':' ∷ decimal n) h) in
        rw (front, decimal-injective m n back, same_text_refl ys) (ground arith))
      (λ h.
        let (front, back) = both_true (same_text xs ys) (m == n) h in
        rw (same_text_sound xs ys front, numbers_eq m n back)
          (same_text_refl (ys ++ b':' ∷ decimal n)))

-- Endpoints compare as their addresses and their ports do, though the code compares their texts: a
-- port has one text, and the last colon parts it from the address even where the address has colons.
pub endpoint_eq-address_eq :
    (inet_ntop : ℕ → ℕ → List ℕ) (lhs rhs : IpEndpoint)
    → endpoint_eq inet_ntop lhs rhs
      ≡ (address_eq inet_ntop lhs.address rhs.address && lhs.port == rhs.port)
unfolding endpoint_eq address_eq
endpoint_eq-address_eq inet_ntop lhs rhs =
    same_text-colon (IpAddress.to_string inet_ntop lhs.address)
      (IpAddress.to_string inet_ntop rhs.address) lhs.port rhs.port
