-- ===== src/Net/IpAddress.antt =====
-- detail/os/socket/ip_address.cpp.
use baba_io.Base.{ℕ, ◌+◌, Option, none, some, List, [], ◌∷◌, ◌==◌, leb, if◌then◌else◌, ◌%◌, ◌^◌}
use baba_io.Net.Storage.{AddrStorage, af_inet, af_inet6, set_ipv4_addr, ipv4_addr, ipv6_addr}

pub record IpAddress : Type 0 where
  pub addr : AddrStorage
  pub af : ℕ

unfoldable pub default_address : IpAddress
default_address = record { addr = 0; af = 0 }

-- The move constructor and the move assignment: the new value, and what is left of the other.
unfoldable pub moved : IpAddress → IpAddress × IpAddress
moved temp = (temp, record { addr = 0; af = 0 })

-- `std::count`.
unfoldable pub count : ℕ → List ℕ → ℕ
count c [] = 0
count c (x ∷ xs) = (if x == c then 1 else 0) + count c xs

-- `inet_pton` is a function of the C library: the bytes of the address, if the text is one. Where it
-- is not, the storage keeps the value `before` that it has: it is not initialised. A short write keeps
-- the rest.
unfoldable pub from_string :
    (inet_pton : ℕ → List ℕ → Option ℕ) → (before : AddrStorage) → List ℕ → IpAddress
unfolding count
from_string inet_pton before address =
    if leb 2 (count b':' address)
    then record {
      addr = elim (inet_pton af_inet6 address) [ none ↦ before | some a ↦ a % 2 ^ 128 ];
      af = af_inet6;
    }
    else (if count b'.' address == 3
        then record {
          addr = elim (inet_pton af_inet address) [
            | none ↦ before
            | some a ↦ set_ipv4_addr before a
          ];
          af = af_inet;
        }
        else record { addr = before; af = 0 })

-- The constructors from a `struct in_addr` and from a `struct in6_addr`.
unfoldable pub from_in_addr : (before : AddrStorage) → ℕ → IpAddress
from_in_addr before a = record { addr = set_ipv4_addr before a; af = af_inet }

unfoldable pub from_in6_addr : ℕ → IpAddress
from_in6_addr a = record { addr = a % 2 ^ 128; af = af_inet6 }

-- INET_ADDRSTRLEN and INET6_ADDRSTRLEN.
unfoldable pub native_address_length : IpAddress → ℕ
native_address_length a = if a.af == af_inet then 16 else (if a.af == af_inet6 then 46 else 0)

unfoldable pub to_string : (inet_ntop : ℕ → ℕ → List ℕ) → IpAddress → List ℕ
to_string inet_ntop a =
    if a.af == af_inet
    then inet_ntop af_inet (ipv4_addr a.addr)
    else (if a.af == af_inet6 then inet_ntop af_inet6 (ipv6_addr a.addr) else [])
