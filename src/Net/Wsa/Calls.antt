-- ===== src/Net/Wsa/Calls.antt =====
-- The calls of detail/os/impl/wsa_socket_impl.cpp that complete at once.
use baba_io.Base.{ℕ, ℤ, minus_one, ◌==ℤ◌, Option, List, [], ◌∷◌, ◌==◌, if◌then◌else◌}
use baba_io.Os.Codes.{ErrorCode, ok_code, IoHandle}
use baba_io.Net.Storage.{v4, v6, af_inet, af_inet6, AddrStorage, ipv4_addr, ipv6_addr}
use baba_io.Net.IpAddress.{IpAddress, from_in_addr, from_in6_addr, from_string}
use baba_io.Net.IpEndpoint.{IpEndpoint}
use baba_io.Net.SocketOption.{IntOption, AddressOption, GroupOption}
use baba_io.Net.SocketCalls.{code_of}
use baba_io.Net.SocketCalls.Options.{
  int_bytes, bytes_int, mreq, mreq6, imr_multiaddr, imr_interface, ipv6mr_multiaddr,
  ipv6mr_interface,
}
use baba_io.Net.Wsa.Winsock.{Winsock}

-- `native_address_length` with the INET_ADDRSTRLEN and INET6_ADDRSTRLEN of the Windows headers.
unfoldable pub native_address_length : IpAddress → ℕ
native_address_length a = if a.af == af_inet then 22 else (if a.af == af_inet6 then 65 else 0)

module _ {W : Type 0} (os : Winsock W) where
  unfoldable pub shutdown : IoHandle → ℤ → W → ErrorCode × W
  shutdown fd how w = code_of (os.shutdown fd how w)

  unfoldable pub set_int_option : IoHandle → IntOption → W → ErrorCode × W
  unfolding int_bytes
  set_int_option fd opt w =
      code_of (os.setsockopt fd opt.level opt.optname (int_bytes opt.optval) 4 w)

  -- The pointer is to the storage of the address; the length is that of `native_address_length` above.
  unfoldable pub set_address_option : IoHandle → AddressOption → W → ErrorCode × W
  unfolding v4 v6 native_address_length
  set_address_option fd opt w =
      let addr_len = native_address_length opt.addr in
      if opt.addr.af == v4
      then code_of (os.setsockopt fd opt.level opt.optname opt.addr.addr addr_len w)
      else (if opt.addr.af == v6
          then code_of (os.setsockopt fd opt.level opt.optname opt.addr.addr addr_len w)
          else (ok_code, w))

  unfoldable pub set_group_option : IoHandle → GroupOption → W → ErrorCode × W
  unfolding v4 v6 mreq mreq6
  set_group_option fd opt w =
      if opt.iface.af == v4
      then code_of (
          os.setsockopt fd opt.level opt.optname
            (mreq (ipv4_addr opt.mcast.addr) (ipv4_addr opt.iface.addr)) 8 w)
      else (if opt.iface.af == v6
          then code_of (
              os.setsockopt fd opt.level opt.optname
                (mreq6 (ipv6_addr opt.mcast.addr) opt.iface_index) 20 w)
          else (ok_code, w))

  -- The code, and the option afterwards.
  unfoldable pub get_int_option : IoHandle → IntOption → W → (ErrorCode × IntOption) × W
  unfolding bytes_int
  get_int_option fd opt w =
      let (r, m, w') = os.getsockopt fd opt.level opt.optname 0 4 w in
      if r.value ==ℤ minus_one
      then ((r.errno, opt), w')
      else ((ok_code, record opt { optval = bytes_int m }), w')

  -- `before` is the memory of the local variable, and `addr_before` that of the new address.
  unfoldable pub get_address_option :
      (before : ℕ)
      → (addr_before : AddrStorage) → IoHandle
      → AddressOption
      → W
      → (ErrorCode × AddressOption) × W
  unfolding v4 v6 from_in_addr from_in6_addr
  get_address_option before addr_before fd opt w =
      if opt.addr.af == v4
      then (let (r, m, w') = os.getsockopt fd opt.level opt.optname before 4 w in
          if r.value ==ℤ minus_one
          then ((r.errno, opt), w')
          else ((ok_code, record opt { addr = from_in_addr addr_before m }), w'))
      else (if opt.addr.af == v6
          then (let (r, m, w') = os.getsockopt fd opt.level opt.optname before 16 w in
              if r.value ==ℤ minus_one
              then ((r.errno, opt), w')
              else ((ok_code, record opt { addr = from_in6_addr m }), w'))
          else ((ok_code, opt), w))

  unfoldable pub get_group_option :
      (inet_pton : ℕ → List ℕ → Option ℕ)
      → (before : ℕ) → (addr_before : AddrStorage) → IoHandle
      → GroupOption
      → W
      → (ErrorCode × GroupOption) × W
  unfolding v4 v6 from_in_addr from_in6_addr from_string imr_multiaddr imr_interface
      ipv6mr_multiaddr ipv6mr_interface
  get_group_option inet_pton before addr_before fd opt w =
      if opt.iface.af == v4
      then (let (r, m, w') = os.getsockopt fd opt.level opt.optname before 8 w in
          if r.value ==ℤ minus_one then ((r.errno, opt), w') else (
            (
              ok_code,
              record opt {
                iface = from_in_addr addr_before (imr_interface m);
                mcast = from_in_addr addr_before (imr_multiaddr m);
              },
            ),
            w',
          ))
      else (if opt.iface.af == v6
          then (let (r, m, w') = os.getsockopt fd opt.level opt.optname before 20 w in
              if r.value ==ℤ minus_one then ((r.errno, opt), w') else (
                (
                  ok_code,
                  record opt {
                    iface = from_string inet_pton addr_before (b':' ∷ b':' ∷ []);
                    iface_index = ipv6mr_interface m;
                    mcast = from_in6_addr (ipv6mr_multiaddr m);
                  },
                ),
                w',
              ))
          else ((ok_code, opt), w))

  unfoldable pub bind : IoHandle → IpEndpoint → W → ErrorCode × W
  unfolding v4 v6
  bind fd local_ep w =
      if local_ep.address.af == v4
      then code_of (os.bind fd local_ep.sock local_ep.sock_len w)
      else (if local_ep.address.af == v6
          then code_of (os.bind fd local_ep.sock local_ep.sock_len w)
          else (ok_code, w))

  unfoldable pub listen : IoHandle → ℤ → W → ErrorCode × W
  listen fd backlog w = code_of (os.listen fd backlog w)
