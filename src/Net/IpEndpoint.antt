-- ===== src/Net/IpEndpoint.antt =====
-- detail/os/socket/ip_endpoint.cpp.
pub mod Native
pub mod Text
pub mod Same
use baba_io.Base.{ℕ, List, Option, ◌-◌, ◌%◌, ◌^◌, ◌==◌, if◌then◌else◌}
use baba_io.Net.Storage.{
  AddrStorage, SockStorage, zeroed, htons, af_inet, af_inet6, ipv4_addr, ipv6_addr,
}
use baba_io.Net.IpAddress
use baba_io.Net.IpAddress.{IpAddress, default_address, from_in_addr, from_in6_addr}

pub record IpEndpoint : Type 0 where
  pub sock : SockStorage
  pub sock_len : ℕ
  pub address : IpAddress
  pub port : ℕ

-- `sizeof(sockaddr_in)` and `sizeof(sockaddr_in6)`.
abbrev pub sizeof_in : ℕ
sizeof_in = 16

abbrev pub sizeof_in6 : ℕ
sizeof_in6 = 28

unfoldable pub default_endpoint : IpEndpoint
unfolding default_address
default_endpoint = record { sock = zeroed; sock_len = 0; address = default_address; port = 0 }

-- The move constructor and the move assignment: the new value, and what is left of the other.
unfoldable pub moved : IpEndpoint → IpEndpoint × IpEndpoint
unfolding IpAddress.moved
moved temp =
    let (address, rest) = IpAddress.moved temp.address in
    (
      record temp { address = address },
      record { sock = zeroed; sock_len = 0; address = rest; port = 0 },
    )

-- `sin_zero` takes up the first 8 bytes of the body.
unfoldable pub init_native_socket : IpEndpoint → IpEndpoint
unfolding htons
init_native_socket ep =
    if ep.address.af == af_inet
    then record ep {
      sock = record (ep.sock) {
        family = af_inet;
        word = ipv4_addr ep.address.addr;
        port = htons ep.port;
        body = ep.sock.body - ep.sock.body % 2 ^ 64;
      };
      sock_len = sizeof_in;
    }
    else (if ep.address.af == af_inet6
        then record ep {
          sock = record {
            family = af_inet6;
            port = htons ep.port;
            word = 0;
            body = ipv6_addr ep.address.addr;
            scope = 0;
          };
          sock_len = sizeof_in6;
        }
        else ep)

-- The constructor from an address and a port of 16 bits; `before` is the storage, not initialised.
unfoldable pub from_address : (before : SockStorage) → IpAddress → ℕ → IpEndpoint
unfolding init_native_socket
from_address before address port =
    init_native_socket
      (record { sock = before; sock_len = 0; address = address; port = port % 2 ^ 16 })

-- The constructor that moves the address: the endpoint, and what is left of the address.
unfoldable pub from_moved_address : (before : SockStorage) → IpAddress → ℕ → IpEndpoint × IpAddress
unfolding from_address IpAddress.moved
from_moved_address before temp port =
    let (address, rest) = IpAddress.moved temp in (from_address before address port, rest)

-- The constructor from a text and a port: the address is a temporary, which is moved.
unfoldable pub from_text :
    (inet_pton : ℕ → List ℕ → Option ℕ)
    → (addr_before : AddrStorage) → (before : SockStorage) → List ℕ
    → ℕ
    → IpEndpoint
unfolding from_moved_address IpAddress.from_string
from_text inet_pton addr_before before address port =
    (from_moved_address before (IpAddress.from_string inet_pton addr_before address) port).0

-- The constructors from a `struct sockaddr_in` and from a `struct sockaddr_in6`, which are read from
-- the storage `from`.
unfoldable pub from_sockaddr_in :
    (before : SockStorage) → (addr_before : AddrStorage) → (from : SockStorage) → IpEndpoint
unfolding from_address from_in_addr htons
from_sockaddr_in before addr_before from =
    from_address before (from_in_addr addr_before from.word) (htons from.port)

unfoldable pub from_sockaddr_in6 : (before : SockStorage) → (from : SockStorage) → IpEndpoint
unfolding from_address from_in6_addr htons
from_sockaddr_in6 before from = from_address before (from_in6_addr from.body) (htons from.port)
