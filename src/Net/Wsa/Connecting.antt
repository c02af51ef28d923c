-- ===== src/Net/Wsa/Connecting.antt =====
-- Connects of detail/os/impl/wsa_socket_impl.cpp.
use baba_io.Base.{ℕ, pos, minus_one, Option, ◌==ℤ◌, if◌then◌else◌}
use baba_io.Os.Codes.{ErrorCode, ok_code, IoHandle}
use baba_io.Net.IpEndpoint.{IpEndpoint}
use baba_io.Net.Wsa.Winsock.{Winsock, connect_ex, started}

module _ {W : Type 0} (os : Winsock W) where
  unfoldable pub get_connectex_fn : IoHandle → W → (ErrorCode × Option ℕ) × W
  get_connectex_fn connector_fd w =
      let (r, fn, w') = os.ioctl connector_fd connect_ex w in
      if r.value ==ℤ pos 0 then ((ok_code, fn), w') else ((r.errno, fn), w')

  -- Both branches of the source pass the same storage.
  unfoldable pub pre_connect :
      IoHandle → IpEndpoint → (connectex_fn : Option ℕ) → (evt : ℕ) → W → ErrorCode × W
  pre_connect connector_fd connector_ep connectex_fn evt w =
      started (pos 1)
        (os.call_connect_ex connectex_fn connector_fd connector_ep.sock connector_ep.sock_len evt w)

  unfoldable pub post_connect : IoHandle → (evt : ℕ) → W → ErrorCode × W
  post_connect connector_fd evt w =
      let (r, bytes, w1) = os.get_overlapped_result connector_fd evt w in
      if r.value ==ℤ pos 0
      then (r.errno, w1)
      else (let (u, w2) = os.update_connect_context connector_fd connector_fd w1 in
          if u.value ==ℤ minus_one then (u.errno, w2) else (ok_code, w2))
