-- ===== src/Net/IpEndpoint/Native.antt =====
-- An endpoint and its native form determine each other.
use baba_io.Base.{ℕ, ◌≡◌, ◌<◌, ◌^◌, arith}
use baba_io.Net.Storage.{AddrStorage, SockStorage, htons, af_inet, af_inet6, ipv4_addr, ipv6_addr}
use baba_io.Net.IpAddress.{IpAddress}
use baba_io.Net.IpEndpoint.{IpEndpoint, from_address, from_sockaddr_in, from_sockaddr_in6}

pub htons-htons : (p : ℕ) → p < 2 ^ 16 → htons (htons p) ≡ p
unfolding htons
htons-htons p h = omega arith

-- The round trip.
pub record SameEndpoint4 (a b : IpEndpoint) : Type 0 where
  pub family : b.address.af ≡ a.address.af
  pub address : ipv4_addr b.address.addr ≡ ipv4_addr a.address.addr
  pub port : b.port ≡ a.port
  pub sock_len : b.sock_len ≡ a.sock_len

pub record SameEndpoint6 (a b : IpEndpoint) : Type 0 where
  pub family : b.address.af ≡ a.address.af
  pub address : ipv6_addr b.address.addr ≡ ipv6_addr a.address.addr
  pub port : b.port ≡ a.port
  pub sock : b.sock ≡ a.sock
  pub sock_len : b.sock_len ≡ a.sock_len

module _ (before again : SockStorage) (addr_before : AddrStorage) (address : IpAddress) (port : ℕ)
    (small : port < 2 ^ 16) where
  -- An endpoint of an IPv4 address that is read back from its own native form has that address, port
  -- and length, whatever the memory held before.
  pub from_sockaddr_in-from_address :
      address.af ≡ af_inet
      → SameEndpoint4
          (from_address before address port)
          (from_sockaddr_in again addr_before (from_address before address port).sock)
  unfolding from_sockaddr_in from_address
  from_sockaddr_in-from_address h = ground (arith, htons-htons port small)

  -- An endpoint of an IPv6 address that is read back from its own native form has that address, port
  -- and length, and the whole native form comes back.
  pub from_sockaddr_in6-from_address :
      address.af ≡ af_inet6
      → SameEndpoint6
          (from_address before address port)
          (from_sockaddr_in6 again (from_address before address port).sock)
  unfolding from_sockaddr_in6 from_address
  from_sockaddr_in6-from_address h = ground (arith, htons-htons port small)
