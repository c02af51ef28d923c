-- ===== src/Net/IpEndpoint/Same.antt =====
-- What `==` of detail/os/socket/ip_address.cpp says of the bytes of the two addresses.
use baba_io.Base.{
  ℕ, ◌^◌, ◌<◌, ◌≡◌, ◌≢◌, sym, refl, Bool, true, false, not, ◌&&◌, Bool-cases, inl, inr, List, [],
  ◌==◌, arith, if◌then◌else◌,
}
use baba_io.Net.Storage.{af_inet, af_inet6, ipv4_addr, ipv6_addr}
use baba_io.Net.IpAddress.{IpAddress}
use baba_io.Net.IpEndpoint.Text.{
  address_eq, same_text, same_text_refl, same_text_sound, same_test, numbers_eq,
}

-- What is documented of `inet_ntop`: an address of either family has a text of its own, which is not
-- empty, and no address of one family has the text of one of the other.
pub record Prints (inet_ntop : ℕ → ℕ → List ℕ) : Type 0 where
  pub ipv4 : (m n : ℕ) → m < 2 ^ 32 → n < 2 ^ 32 → inet_ntop af_inet m ≡ inet_ntop af_inet n → m ≡ n
  pub ipv6 :
      (m n : ℕ) → m < 2 ^ 128 → n < 2 ^ 128 → inet_ntop af_inet6 m ≡ inet_ntop af_inet6 n → m ≡ n
  pub apart : (m n : ℕ) → inet_ntop af_inet m ≢ inet_ntop af_inet6 n
  pub ipv4_text : (m : ℕ) → inet_ntop af_inet m ≢ []
  pub ipv6_text : (m : ℕ) → inet_ntop af_inet6 m ≢ []

-- Both addresses have the same family and the same bytes of it, or both have neither family.
abbrev pub same_bytes : IpAddress → IpAddress → Bool
same_bytes a b =
    if a.af == af_inet
    then b.af == af_inet && ipv4_addr a.addr == ipv4_addr b.addr
    else (if a.af == af_inet6
        then b.af == af_inet6 && ipv6_addr a.addr == ipv6_addr b.addr
        else not (b.af == af_inet) && not (b.af == af_inet6))

module _ (inet_ntop : ℕ → ℕ → List ℕ) (prints : Prints inet_ntop) where
  same_text-ne : (xs ys : List ℕ) → xs ≢ ys → same_text xs ys ≡ false
  same_text-ne xs ys ne = elim (Bool-cases (same_text xs ys)) [
    | inl h ↦ absurd (ne (same_text_sound xs ys h))
    | inr h ↦ h
  ]

  same_text-ipv4 :
      (m n : ℕ)
      → m < 2 ^ 32
      → n < 2 ^ 32
      → same_text (inet_ntop af_inet m) (inet_ntop af_inet n) ≡ (m == n)
  same_text-ipv4 m n hm hn =
      same_test _ _ (λ h. ground (arith, prints.ipv4 m n hm hn (same_text_sound _ _ h)))
        (λ h. rw (numbers_eq m n h) (same_text_refl (inet_ntop af_inet n)))

  same_text-ipv6 :
      (m n : ℕ)
      → m < 2 ^ 128
      → n < 2 ^ 128
      → same_text (inet_ntop af_inet6 m) (inet_ntop af_inet6 n) ≡ (m == n)
  same_text-ipv6 m n hm hn =
      same_test _ _ (λ h. ground (arith, prints.ipv6 m n hm hn (same_text_sound _ _ h)))
        (λ h. rw (numbers_eq m n h) (same_text_refl (inet_ntop af_inet6 n)))

  module _ (a b : IpAddress) where
    abbrev a4 : List ℕ
    a4 = inet_ntop af_inet (ipv4_addr a.addr)

    abbrev b4 : List ℕ
    b4 = inet_ntop af_inet (ipv4_addr b.addr)

    abbrev a6 : List ℕ
    a6 = inet_ntop af_inet6 (ipv6_addr a.addr)

    abbrev b6 : List ℕ
    b6 = inet_ntop af_inet6 (ipv6_addr b.addr)

    same_ipv4 : same_text a4 b4 ≡ (ipv4_addr a.addr == ipv4_addr b.addr)
    same_ipv4 = same_text-ipv4 (ipv4_addr a.addr) (ipv4_addr b.addr) (omega arith) (omega arith)

    same_ipv6 : same_text a6 b6 ≡ (ipv6_addr a.addr == ipv6_addr b.addr)
    same_ipv6 = same_text-ipv6 (ipv6_addr a.addr) (ipv6_addr b.addr) (omega arith) (omega arith)

    -- The texts by what the tests on the families say; a family is not both.
    by_family :
        (p q p' q' : Bool)
        → (p' && q') ≡ false
        → same_text
            (if p then a4 else (if q then a6 else []))
            (if p' then b4 else (if q' then b6 else []))
          ≡ (if p
              then p' && ipv4_addr a.addr == ipv4_addr b.addr
              else (if q then q' && ipv6_addr a.addr == ipv6_addr b.addr else not p' && not q'))
    by_family true q true q' h = same_ipv4
    by_family true q false true h = same_text-ne a4 b6 (prints.apart _ _)
    by_family true q false false h = same_text-ne a4 [] (prints.ipv4_text _)
    by_family false true true true h = cc
    by_family false true true false h = same_text-ne a6 b4 (λ e. prints.apart _ _ (sym e))
    by_family false true false true h = same_ipv6
    by_family false true false false h = same_text-ne a6 [] (prints.ipv6_text _)
    by_family false false true q' h = same_text-ne [] b4 (λ e. prints.ipv4_text _ (sym e))
    by_family false false false true h = same_text-ne [] b6 (λ e. prints.ipv6_text _ (sym e))
    by_family false false false false h = refl

    one_family : (b.af == af_inet && b.af == af_inet6) ≡ false
    one_family = ground arith

  -- If the texts of `inet_ntop` are those that are documented, two addresses are equal to the code
  -- if they have the same family and the same bytes of that family, whatever the rest of the storage
  -- holds, or if both have neither family.
  pub address_eq-same_bytes : (a b : IpAddress) → address_eq inet_ntop a b ≡ same_bytes a b
  unfolding address_eq
  address_eq-same_bytes a b =
      by_family a b (a.af == af_inet) (a.af == af_inet6) (b.af == af_inet) (b.af == af_inet6)
        (one_family a b)
