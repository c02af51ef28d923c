-- ===== src/Net/SocketCalls/Options.antt =====
-- `set_option` and `get_option` of detail/os/impl/bsd_socket_impl.cpp, for the three kinds of option.
-- The classes that derive from them are passed on unchanged by detail/os/socket/socket_option.cpp.
pub mod Defaults
use baba_io.Base.{
  ℕ, ◌+◌, ◌-◌, ◌*◌, ◌/◌, ◌%◌, ◌^◌, ℤ, pos, negsuc, minus_one, ◌==ℤ◌, Option, List, [], ◌∷◌, ◌==◌,
  ltb, if◌then◌else◌,
}
use baba_io.Os.Codes.{ErrorCode, ok_code, IoHandle}
use baba_io.Os.Kernel.{Kernel}
use baba_io.Net.Storage.{v4, v6, AddrStorage, ipv4_addr, ipv6_addr}
use baba_io.Net.IpAddress.{
  IpAddress, native_address_length, from_in_addr, from_in6_addr, from_string,
}
use baba_io.Net.SocketOption.{IntOption, AddressOption, GroupOption}
use baba_io.Net.SocketCalls.{code_of}

-- An `int` of 32 bits as the memory that it takes up, and back.
unfoldable pub int_bytes : ℤ → ℕ
int_bytes (pos n) = n % 2 ^ 32
int_bytes (negsuc n) = 2 ^ 32 - 1 - n % 2 ^ 32

unfoldable pub bytes_int : ℕ → ℤ
bytes_int m =
    if ltb (m % 2 ^ 32) (2 ^ 31) then pos (m % 2 ^ 32) else negsuc (2 ^ 32 - 1 - m % 2 ^ 32)

-- `struct ip_mreq`: the group, and then the interface, of 4 bytes each.
unfoldable pub mreq : (multiaddr interface : ℕ) → ℕ
mreq multiaddr interface = multiaddr % 2 ^ 32 + 2 ^ 32 * (interface % 2 ^ 32)

unfoldable pub imr_multiaddr : ℕ → ℕ
imr_multiaddr m = m % 2 ^ 32

unfoldable pub imr_interface : ℕ → ℕ
imr_interface m = m / 2 ^ 32 % 2 ^ 32

-- `struct ipv6_mreq`: the group, of 16 bytes, and then the index of the interface, of 4.
unfoldable pub mreq6 : (multiaddr interface : ℕ) → ℕ
mreq6 multiaddr interface = multiaddr % 2 ^ 128 + 2 ^ 128 * (interface % 2 ^ 32)

unfoldable pub ipv6mr_multiaddr : ℕ → ℕ
ipv6mr_multiaddr m = m % 2 ^ 128

unfoldable pub ipv6mr_interface : ℕ → ℕ
ipv6mr_interface m = m / 2 ^ 128 % 2 ^ 32

module _ {W : Type 0} (os : Kernel W) where
  unfoldable pub set_int_option : IoHandle → IntOption → W → ErrorCode × W
  unfolding int_bytes
  set_int_option fd opt w =
      code_of (os.setsockopt fd opt.level opt.optname (int_bytes opt.optval) 4 w)

  -- The pointer is to the storage of the address; the length is that of `native_address_length`.
  unfoldable pub set_address_option : IoHandle → AddressOption → W → ErrorCode × W
  unfolding v4 v6 native_address_length
  set_address_option fd opt w =
      let addr_len = native_address_length opt.addr in
      if opt.addr.af == v4
      then code_of (os.setsockopt fd opt.level opt.optname opt.addr.addr addr_len w)
      else (if opt.addr.af == v6
          then code_of (os.setsockopt fd opt.level opt.optname opt.addr.addr addr_len w)
          else (ok_code, w))

  unfoldable pub set_group_option : IoHandle → GroupOption → W → ErrorCode × W
  unfolding v4 v6 mreq mreq6
  set_group_option fd opt w =
      if opt.iface.af == v4
      then code_of (
          os.setsockopt fd opt.level opt.optname
            (mreq (ipv4_addr opt.mcast.addr) (ipv4_addr opt.iface.addr)) 8 w)
      else (if opt.iface.af == v6
          then code_of (
              os.setsockopt fd opt.level opt.optname
                (mreq6 (ipv6_addr opt.mcast.addr) opt.iface_index) 20 w)
          else (ok_code, w))

  -- The code, and the option afterwards.
  unfoldable pub get_int_option : IoHandle → IntOption → W → (ErrorCode × IntOption) × W
  unfolding bytes_int
  get_int_option fd opt w =
      let (r, m, w') = os.getsockopt fd opt.level opt.optname 0 4 w in
      if r.value ==ℤ minus_one
      then ((r.errno, opt), w')
      else ((ok_code, record opt { optval = bytes_int m }), w')

  -- `before` is the memory of the local variable, and `addr_before` that of the new address.
  unfoldable pub get_address_option :
      (before : ℕ)
      → (addr_before : AddrStorage) → IoHandle
      → AddressOption
      → W
      → (ErrorCode × AddressOption) × W
  unfolding v4 v6 from_in_addr from_in6_addr
  get_address_option before addr_before fd opt w =
      if opt.addr.af == v4
      then (let (r, m, w') = os.getsockopt fd opt.level opt.optname before 4 w in
          if r.value ==ℤ minus_one
          then ((r.errno, opt), w')
          else ((ok_code, record opt { addr = from_in_addr addr_before m }), w'))
      else (if opt.addr.af == v6
          then (let (r, m, w') = os.getsockopt fd opt.level opt.optname before 16 w in
              if r.value ==ℤ minus_one
              then ((r.errno, opt), w')
              else ((ok_code, record opt { addr = from_in6_addr m }), w'))
          else ((ok_code, opt), w))

  unfoldable pub get_group_option :
      (inet_pton : ℕ → List ℕ → Option ℕ)
      → (before : ℕ) → (addr_before : AddrStorage) → IoHandle
      → GroupOption
      → W
      → (ErrorCode × GroupOption) × W
  unfolding v4 v6 from_in_addr from_in6_addr from_string imr_multiaddr imr_interface
      ipv6mr_multiaddr ipv6mr_interface
  get_group_option inet_pton before addr_before fd opt w =
      if opt.iface.af == v4
      then (let (r, m, w') = os.getsockopt fd opt.level opt.optname before 8 w in
          if r.value ==ℤ minus_one then ((r.errno, opt), w') else (
            (
              ok_code,
              record opt {
                iface = from_in_addr addr_before (imr_interface m);
                mcast = from_in_addr addr_before (imr_multiaddr m);
              },
            ),
            w',
          ))
      else (if opt.iface.af == v6
          then (let (r, m, w') = os.getsockopt fd opt.level opt.optname before 20 w in
              if r.value ==ℤ minus_one then ((r.errno, opt), w') else (
                (
                  ok_code,
                  record opt {
                    iface = from_string inet_pton addr_before (b':' ∷ b':' ∷ []);
                    iface_index = ipv6mr_interface m;
                    mcast = from_in6_addr (ipv6mr_multiaddr m);
                  },
                ),
                w',
              ))
          else ((ok_code, opt), w))
