-- ===== src/Net/Wsa/Transfers.antt =====
-- Sends and receives of detail/os/impl/wsa_socket_impl.cpp.
use baba_io.Base.{ℕ, pos, minus_one, ◌==ℤ◌, if◌then◌else◌}
use baba_io.Os.Codes.{ErrorCode, ok_code, IoHandle}
use baba_io.Os.FileImpl.{IoResult}
use baba_io.Net.Storage.{AddrStorage, SockStorage}
use baba_io.Net.IpEndpoint.{IpEndpoint, default_endpoint}
use baba_io.Net.SocketCalls.{RecvFromResult, peer_endpoint}
use baba_io.Net.SocketCalls.Options.{bytes_int}
use baba_io.Net.Wsa.Winsock.{Winsock, started}

module _ {W : Type 0} (os : Winsock W) where
  unfoldable pub pre_send : IoHandle → (buffer evt : ℕ) → W → ErrorCode × W
  pre_send fd buffer evt w = started (pos 0) (os.send fd buffer evt w)

  unfoldable pub pre_recv : IoHandle → (buffer evt : ℕ) → W → ErrorCode × W
  pre_recv fd buffer evt w = started (pos 0) (os.recv fd buffer evt w)

  -- Both branches of the source pass the same storage.
  unfoldable pub pre_send_to : IoHandle → (buffer : ℕ) → IpEndpoint → (evt : ℕ) → W → ErrorCode × W
  pre_send_to fd buffer peer_ep evt w =
      started (pos 0) (os.send_to fd buffer peer_ep.sock peer_ep.sock_len evt w)

  unfoldable pub pre_recv_from : IoHandle → (buffer peer_sock sock_len evt : ℕ) → W → ErrorCode × W
  pre_recv_from fd buffer peer_sock sock_len evt w =
      started (pos 0) (os.recv_from fd buffer peer_sock sock_len evt w)

  -- `post_send`, `post_recv` and `post_send_to`, whose bodies are the same. The count of 32 bits is
  -- written into an `int`.
  unfoldable pub post_transfer : IoHandle → (evt : ℕ) → W → IoResult × W
  unfolding bytes_int
  post_transfer fd evt w =
      let (r, bytes, w') = os.get_overlapped_result fd evt w in
      if r.value ==ℤ pos 0
      then (record { ec = r.errno; bytes = minus_one }, w')
      else (record { ec = ok_code; bytes = bytes_int bytes }, w')

  -- The storage that `pre_recv_from` was given holds `peer_sock` by then.
  unfoldable pub post_recv_from :
      (before : SockStorage)
      → (addr_before : AddrStorage) → IoHandle
      → (receiver_ep : IpEndpoint) → (peer_sock : SockStorage) → (evt : ℕ) → W
      → RecvFromResult × W
  unfolding bytes_int peer_endpoint default_endpoint
  post_recv_from before addr_before fd receiver_ep peer_sock evt w =
      let (r, bytes, w') = os.get_overlapped_result fd evt w in
      if r.value ==ℤ pos 0
      then (record { ec = r.errno; bytes = minus_one; endpoint = default_endpoint }, w')
      else (
        record {
          ec = ok_code;
          bytes = bytes_int bytes;
          endpoint = peer_endpoint before addr_before receiver_ep peer_sock;
        },
        w',
      )
