-- ===== src/Net/Storage.antt =====
-- The memory of the address structures of the socket interface, by the fields that the source uses.
-- Numbers stand for the bytes at their offsets, the lowest byte first.
use baba_io.Base.{ℕ, ◌+◌, ◌-◌, ◌*◌, ◌/◌, ◌%◌, ◌^◌}

-- AF_INET and AF_INET6.
abbrev pub af_inet : ℕ
af_inet = 2

abbrev pub af_inet6 : ℕ
af_inet6 = 10

-- `family::v4()` and `family::v6()` of detail/os/socket/address_family.cpp.
unfoldable pub v4 : ℕ
v4 = af_inet

unfoldable pub v6 : ℕ
v6 = af_inet6

-- `htons`, and `ntohs`, which is the same function: the two bytes change places.
unfoldable pub htons : ℕ → ℕ
htons port = port % 256 * 256 + port / 256 % 256

-- `native_address_storage`: a union of a `struct in_addr` of 4 bytes and a `struct in6_addr` of 16.
abbrev pub AddrStorage : Type 0
AddrStorage = ℕ

abbrev pub ipv4_addr : AddrStorage → ℕ
ipv4_addr storage = storage % 2 ^ 32

abbrev pub ipv6_addr : AddrStorage → ℕ
ipv6_addr storage = storage % 2 ^ 128

-- A write of the short member leaves the other bytes as they are.
abbrev pub set_ipv4_addr : AddrStorage → ℕ → AddrStorage
set_ipv4_addr storage addr = storage - storage % 2 ^ 32 + addr % 2 ^ 32

-- `struct sockaddr_storage`, read as a `sockaddr_in` (family, port, address in `word`, zeros at the
-- start of `body`) or as a `sockaddr_in6` (family, port, flow information in `word`, address, scope).
pub record SockStorage : Type 0 where
  pub family : ℕ
  pub port : ℕ
  pub word : ℕ
  pub body : ℕ
  pub scope : ℕ

abbrev pub zeroed : SockStorage
zeroed = record { family = 0; port = 0; word = 0; body = 0; scope = 0 }
