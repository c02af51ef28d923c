-- ===== src/Interface/Addresses.antt =====
-- src/ip_address.cpp and src/ip_endpoint.cpp, with src/pimpl/ip_address_pimpl.h and
-- src/pimpl/ip_endpoint_pimpl.h.
use baba_io.Base.{ℕ, ◌≡◌, refl, Bool, not, Option, none, some, List, [], ◌∷◌}
use baba_io.Net.Storage.{AddrStorage, SockStorage}
use baba_io.Net.IpAddress
use baba_io.Net.IpAddress.{IpAddress, default_address, from_string}
use baba_io.Net.IpEndpoint
use baba_io.Net.IpEndpoint.{
  IpEndpoint, default_endpoint, from_address, from_moved_address, from_text,
}
use baba_io.Net.IpEndpoint.Text
use baba_io.Net.IpEndpoint.Text.{same_text}
use baba_io.Interface.Values
use baba_io.Interface.Values.{through}

abbrev pub Address : Type 0
Address = Option IpAddress

unfoldable pub new_address : Address
unfolding default_address
new_address = some default_address

unfoldable pub address_from_string :
    (inet_pton : ℕ → List ℕ → Option ℕ) → (before : AddrStorage) → List ℕ → Address
unfolding from_string
address_from_string inet_pton before ip = some (from_string inet_pton before ip)

unfoldable pub copy_address : Address → Option Address
copy_address other = Values.copied other

unfoldable pub copy_assign_address : (self other : Address) → Option Address
copy_assign_address self other = Values.copy_assigned self other

unfoldable pub move_address : Address → Option (Address × Address)
unfolding IpAddress.moved
move_address tmp = Values.moved IpAddress.moved tmp

unfoldable pub move_assign_address : (self tmp : Address) → Address × Address
move_assign_address self tmp = Values.move_assigned self tmp

unfoldable pub family : Address → Option ℕ
family self = through self (λ a. some a.af)

abbrev pub Endpoint : Type 0
Endpoint = Option IpEndpoint

unfoldable pub new_endpoint : Endpoint
unfolding default_endpoint
new_endpoint = some default_endpoint

-- The constructor from an address and a port of 16 bits.
unfoldable pub endpoint_from_address :
    (before : SockStorage) → Address → (port : ℕ) → Option Endpoint
unfolding from_address
endpoint_from_address before ip port = through ip (λ a. some (some (from_address before a port)))

-- The one that moves the address: the endpoint, and what is left of the address.
unfoldable pub endpoint_from_moved_address :
    (before : SockStorage) → Address → (port : ℕ) → Option (Endpoint × Address)
unfolding from_moved_address
endpoint_from_moved_address before ip port =
    through ip (λ a. let (ep, rest) = from_moved_address before a port in some (some ep, some rest))

unfoldable pub endpoint_from_string :
    (inet_pton : ℕ → List ℕ → Option ℕ)
    → (addr_before : AddrStorage) → (before : SockStorage) → List ℕ
    → (port : ℕ) → Endpoint
unfolding from_text
endpoint_from_string inet_pton addr_before before ip_str port =
    some (from_text inet_pton addr_before before ip_str port)

unfoldable pub copy_endpoint : Endpoint → Option Endpoint
copy_endpoint other = Values.copied other

unfoldable pub copy_assign_endpoint : (self other : Endpoint) → Option Endpoint
copy_assign_endpoint self other = Values.copy_assigned self other

unfoldable pub move_endpoint : Endpoint → Option (Endpoint × Endpoint)
unfolding IpEndpoint.moved
move_endpoint tmp = Values.moved IpEndpoint.moved tmp

unfoldable pub move_assign_endpoint : (self tmp : Endpoint) → Endpoint × Endpoint
move_assign_endpoint self tmp = Values.move_assigned self tmp

-- The address of an endpoint is written to a new object.
unfoldable pub address : Endpoint → Option Address
unfolding new_address
address self = through self (λ ep. through new_address (λ old. some (some ep.address)))

unfoldable pub port : Endpoint → Option ℕ
port self = through self (λ ep. some ep.port)

module _ (inet_ntop : ℕ → ℕ → List ℕ) where
  unfoldable pub address_text : Address → Option (List ℕ)
  unfolding IpAddress.to_string
  address_text self = through self (λ a. some (IpAddress.to_string inet_ntop a))

  unfoldable pub address_eq : (lhs rhs : Address) → Option Bool
  unfolding address_text
  address_eq lhs rhs =
      through (address_text lhs) (λ x. through (address_text rhs) (λ y. some (same_text x y)))

  unfoldable pub address_ne : (lhs rhs : Address) → Option Bool
  unfolding address_eq
  address_ne lhs rhs = through (address_eq lhs rhs) (λ same. some (not same))

  unfoldable pub endpoint_text : Endpoint → Option (List ℕ)
  unfolding Text.to_string
  endpoint_text self = through self (λ ep. some (Text.to_string inet_ntop ep))

  unfoldable pub endpoint_eq : (lhs rhs : Endpoint) → Option Bool
  unfolding endpoint_text
  endpoint_eq lhs rhs =
      through (endpoint_text lhs) (λ x. through (endpoint_text rhs) (λ y. some (same_text x y)))

  unfoldable pub endpoint_ne : (lhs rhs : Endpoint) → Option Bool
  unfolding endpoint_eq
  endpoint_ne lhs rhs = through (endpoint_eq lhs rhs) (λ same. some (not same))

  -- An endpoint that has been moved into another by a constructor can be used: it is one that is
  -- default constructed. One that has been moved by an assignment cannot: its address, its port, its
  -- text, a copy of it and an assignment to it all dereference a null pointer.
  pub move-endpoint_text :
      (ep : IpEndpoint) (self other : Endpoint)
      → (move_endpoint (some ep) ≡ some (some ep, new_endpoint))
        × (endpoint_text new_endpoint ≡ some (b':' ∷ b'0' ∷ []))
        × ((move_assign_endpoint self (some ep)).0 ≡ some ep)
        × (let rest = (move_assign_endpoint self (some ep)).1 in
            (address rest ≡ none)
            × (port rest ≡ none)
            × (endpoint_text rest ≡ none)
            × (endpoint_eq rest other ≡ none)
            × (copy_endpoint rest ≡ none)
            × (copy_assign_endpoint rest other ≡ none))
  unfolding move_endpoint new_endpoint endpoint_text move_assign_endpoint address port endpoint_eq
      copy_endpoint copy_assign_endpoint
  move-endpoint_text ep self other = (refl, refl, refl, (refl, refl, refl, refl, refl, refl))
