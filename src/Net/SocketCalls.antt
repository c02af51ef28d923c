-- ===== src/Net/SocketCalls.antt =====
-- detail/os/impl/bsd_socket_impl.cpp: the calls that take or make endpoints. The pointer that is cast
-- to either address structure is that of the whole storage, which the calls of the system receive.
pub mod Families
pub mod Options
use baba_io.Base.{ℕ, ℤ, ◌==ℤ◌, minus_one, Bool, not, ◌&&◌, ◌==◌, if◌then◌else◌}
use baba_io.Os.Codes.{ErrorCode, ok_code, IoHandle, invalid_handle, einprogress}
use baba_io.Os.Kernel.{Kernel, Ret}
use baba_io.Os.FileImpl.{IoResult, io_result}
use baba_io.Net.Storage.{SockStorage, AddrStorage, v4, v6}
use baba_io.Net.IpEndpoint.{IpEndpoint, default_endpoint, from_sockaddr_in, from_sockaddr_in6}

-- `accept_socket_result` and `recv_from_socket_result`.
pub record AcceptResult : Type 0 where
  pub ec : ErrorCode
  pub fd : IoHandle
  pub endpoint : IpEndpoint

pub record RecvFromResult : Type 0 where
  pub ec : ErrorCode
  pub bytes : ℤ
  pub endpoint : IpEndpoint

-- The endpoint of a peer, of the family that the endpoint of this side has. The memory that its
-- constructor does not write is an argument.
unfoldable pub peer_endpoint :
    (before : SockStorage) → (addr_before : AddrStorage) → IpEndpoint → SockStorage → IpEndpoint
unfolding v4 from_sockaddr_in from_sockaddr_in6
peer_endpoint before addr_before own sock =
    if own.address.af == v4
    then from_sockaddr_in before addr_before sock
    else from_sockaddr_in6 before sock

-- The code of a call that returns -1 on an error.
abbrev pub code_of : {W : Type 0} → Ret × W → ErrorCode × W
code_of (r, w) = if r.value ==ℤ minus_one then (r.errno, w) else (ok_code, w)

module _ {W : Type 0} (os : Kernel W) where
  unfoldable pub create_tcp : (af : ℕ) → W → (ErrorCode × IoHandle) × W
  create_tcp af w =
      let (r, w') = os.socket af 1 w in
      if r.value ==ℤ invalid_handle
      then ((r.errno, invalid_handle), w')
      else ((ok_code, r.value), w')

  unfoldable pub create_udp : (af : ℕ) → W → (ErrorCode × IoHandle) × W
  create_udp af w =
      let (r, w') = os.socket af 2 w in
      if r.value ==ℤ invalid_handle
      then ((r.errno, invalid_handle), w')
      else ((ok_code, r.value), w')

  unfoldable pub accept :
      (before : SockStorage)
      → (addr_before : AddrStorage) → IoHandle
      → IpEndpoint
      → W
      → AcceptResult × W
  unfolding peer_endpoint default_endpoint
  accept before addr_before acceptor_fd acceptor_ep w =
      let (r, peer_sock, w') = os.accept acceptor_fd acceptor_ep.sock_len w in
      if r.value ==ℤ invalid_handle
      then (record { ec = r.errno; fd = invalid_handle; endpoint = default_endpoint }, w')
      else (
        record {
          ec = ok_code;
          fd = r.value;
          endpoint = peer_endpoint before addr_before acceptor_ep peer_sock;
        },
        w',
      )

  -- One of the two calls in `connect`: a connection in progress is no error.
  unfoldable pub try_connect : IoHandle → IpEndpoint → W → ErrorCode × W
  try_connect fd peer_ep w =
      let (r, w') = os.connect fd peer_ep.sock peer_ep.sock_len w in
      if (r.value ==ℤ minus_one) && not (r.errno == einprogress)
      then (r.errno, w')
      else (ok_code, w')

  -- The second test is `family::v4()` too, as in the source.
  unfoldable pub connect : IoHandle → IpEndpoint → W → ErrorCode × W
  unfolding v4 try_connect
  connect fd peer_ep w =
      if peer_ep.address.af == v4
      then try_connect fd peer_ep w
      else (if peer_ep.address.af == v4 then try_connect fd peer_ep w else (ok_code, w))

  -- Both branches of the source pass the same storage.
  unfoldable pub send_to : IoHandle → ℕ → ℤ → IpEndpoint → W → IoResult × W
  unfolding io_result
  send_to fd buffer size peer_ep w =
      let (r, w') = os.sendto fd buffer size peer_ep.sock peer_ep.sock_len w in (io_result r, w')

  unfoldable pub recv_from :
      (before : SockStorage)
      → (addr_before : AddrStorage) → IoHandle
      → ℕ
      → ℤ
      → IpEndpoint
      → W
      → RecvFromResult × W
  unfolding peer_endpoint default_endpoint
  recv_from before addr_before fd buffer size receiver_ep w =
      let (r, peer_sock, w') = os.recvfrom fd buffer size receiver_ep.sock_len w in
      if r.value ==ℤ minus_one
      then (record { ec = r.errno; bytes = minus_one; endpoint = default_endpoint }, w')
      else (
        record {
          ec = ok_code;
          bytes = r.value;
          endpoint = peer_endpoint before addr_before receiver_ep peer_sock;
        },
        w',
      )

  unfoldable pub shutdown : IoHandle → ℤ → W → ErrorCode × W
  shutdown fd how w = code_of (os.shutdown fd how w)

  unfoldable pub bind : IoHandle → IpEndpoint → W → ErrorCode × W
  unfolding v4 v6
  bind fd local_ep w =
      if local_ep.address.af == v4
      then code_of (os.bind fd local_ep.sock local_ep.sock_len w)
      else (if local_ep.address.af == v6
          then code_of (os.bind fd local_ep.sock local_ep.sock_len w)
          else (ok_code, w))

  unfoldable pub listen : IoHandle → ℤ → W → ErrorCode × W
  listen fd backlog w = code_of (os.listen fd backlog w)
