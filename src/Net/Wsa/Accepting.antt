-- ===== src/Net/Wsa/Accepting.antt =====
-- Sockets and accepts of detail/os/impl/wsa_socket_impl.cpp.
use baba_io.Base.{ℕ, ◌+◌, pos, minus_one, Option, ◌==ℤ◌, ◌==◌, if◌then◌else◌}
use baba_io.Os.Codes.{ErrorCode, ok_code, IoHandle, invalid_handle, ebadf}
use baba_io.Net.Storage.{AddrStorage, SockStorage, v4}
use baba_io.Net.IpEndpoint.{IpEndpoint, default_endpoint, sizeof_in, sizeof_in6}
use baba_io.Net.SocketCalls.{peer_endpoint}
use baba_io.Net.Wsa.Winsock.{Winsock, accept_ex, io_pending}

module _ {W : Type 0} (os : Winsock W) where
  unfoldable pub create_tcp : (af : ℕ) → W → (ErrorCode × IoHandle) × W
  create_tcp af w =
      let (r, w') = os.socket af 1 w in
      if r.value ==ℤ invalid_handle
      then ((r.errno, invalid_handle), w')
      else ((ok_code, r.value), w')

  unfoldable pub create_udp : (af : ℕ) → W → (ErrorCode × IoHandle) × W
  create_udp af w =
      let (r, w') = os.socket af 2 w in
      if r.value ==ℤ invalid_handle
      then ((r.errno, invalid_handle), w')
      else ((ok_code, r.value), w')

  unfoldable pub get_acceptex_fn : IoHandle → W → (ErrorCode × Option ℕ) × W
  get_acceptex_fn acceptor_fd w =
      let (r, fn, w') = os.ioctl acceptor_fd accept_ex w in
      if r.value ==ℤ minus_one then ((r.errno, fn), w') else ((ok_code, fn), w')

  -- The socket of the peer stays open where the call fails.
  unfoldable pub pre_accept :
      IoHandle
      → IpEndpoint
      → (acceptex_fn : Option ℕ) → (ep_buffer evt : ℕ) → W
      → (ErrorCode × IoHandle) × W
  pre_accept acceptor_fd acceptor_ep acceptex_fn ep_buffer evt w =
      let (s, w1) = os.socket acceptor_ep.address.af 1 w in
      if s.value ==ℤ invalid_handle
      then ((ebadf, invalid_handle), w1)
      else (let (r, w2) =
            os.call_accept_ex acceptex_fn acceptor_fd s.value ep_buffer (acceptor_ep.sock_len + 16)
              evt w1 in
          if r.value ==ℤ pos 1
          then ((ok_code, s.value), w2)
          else (if r.errno == io_pending
              then ((ok_code, s.value), w2)
              else ((r.errno, invalid_handle), w2)))

  -- `before` and `addr_before` are the memory of a new endpoint and of its address. A length of
  -- either native form is passed, by the family of this side.
  unfoldable pub post_accept :
      (before : SockStorage)
      → (addr_before : AddrStorage) → IoHandle
      → IpEndpoint
      → (peer_fd : IoHandle) → (evt : ℕ) → W
      → (ErrorCode × IpEndpoint) × W
  unfolding v4 peer_endpoint default_endpoint
  post_accept before addr_before acceptor_fd acceptor_ep peer_fd evt w =
      let (r, bytes, w1) = os.get_overlapped_result acceptor_fd evt w in
      if r.value ==ℤ pos 0
      then ((r.errno, default_endpoint), w1)
      else (let (u, w2) = os.update_accept_context peer_fd acceptor_fd w1 in
          if u.value ==ℤ minus_one
          then ((u.errno, default_endpoint), w2)
          else (if acceptor_ep.address.af == v4
              then (let (p, sock, w3) = os.getpeername peer_fd sizeof_in w2 in
                  if p.value ==ℤ minus_one
                  then ((p.errno, default_endpoint), w3)
                  else ((ok_code, peer_endpoint before addr_before acceptor_ep sock), w3))
              else (let (p, sock, w3) = os.getpeername peer_fd sizeof_in6 w2 in
                  if p.value ==ℤ pos 0
                  then ((ok_code, peer_endpoint before addr_before acceptor_ep sock), w3)
                  else ((p.errno, default_endpoint), w3))))
