-- ===== src/Net/Wsa/Outcomes.antt =====
-- The second half of an overlapped transfer, beside the call of the other systems that does it all.
use baba_io.Base.{ℕ, ℤ, pos, minus_one, ◌==ℤ◌, ◌≡◌, refl, false, Bool-cases, inl, inr}
use baba_io.Os.Codes.{IoHandle}
use baba_io.Os.Kernel.{Kernel, Ret}
use baba_io.Os.SocketImpl
use baba_io.Net.Storage.{AddrStorage, SockStorage}
use baba_io.Net.IpEndpoint.{IpEndpoint}
use baba_io.Net.SocketCalls
use baba_io.Net.SocketCalls.Options.{bytes_int}
use baba_io.Net.Wsa.Winsock.{Winsock}
use baba_io.Net.Wsa.Transfers.{post_transfer, post_recv_from}

-- A call that returns a count or -1, and a result of an overlapped transfer that says the same.
pub record Agree (r overlapped : Ret) (bytes : ℕ) : Type 0 where
  pub failed : (overlapped.value ==ℤ pos 0) ≡ (r.value ==ℤ minus_one)
  pub errno : overlapped.errno ≡ r.errno
  pub count : (r.value ==ℤ minus_one) ≡ false → bytes_int bytes ≡ r.value

module _ {W : Type 0} (os : Kernel W) (win : Winsock W) (fd : IoHandle) (evt buffer : ℕ) (size : ℤ)
    (w w' : W) (r overlapped : Ret) (bytes : ℕ) (peer_sock : SockStorage) (own : IpEndpoint)
    (before : SockStorage) (addr_before : AddrStorage) (agree : Agree r overlapped bytes)
    (result : win.get_overlapped_result fd evt w ≡ (overlapped, bytes, w')) where
  -- Where the systems report the same outcome, `post_recv`, `post_send` and `post_recv_from` give the
  -- same code, count and peer as the direct `recv`, `send` and `recv_from`, on success and on error.
  pub overlapped-direct :
      os.recv fd buffer size w ≡ (r, w')
      → os.send fd buffer size w ≡ (r, w')
      → os.recvfrom fd buffer size own.sock_len w ≡ (r, peer_sock, w')
      → (post_transfer win fd evt w ≡ SocketImpl.recv os fd buffer size w)
        × (post_transfer win fd evt w ≡ SocketImpl.send os fd buffer size w)
        × (post_recv_from win before addr_before fd own peer_sock evt w
            ≡ SocketCalls.recv_from os before addr_before fd buffer size own w)
  unfolding post_transfer post_recv_from SocketImpl.recv SocketImpl.send SocketCalls.recv_from
      SocketCalls.peer_endpoint
  overlapped-direct recv send recvfrom = elim (Bool-cases (r.value ==ℤ minus_one)) [
    | inl failed ↦
        rw (result, recv, send, recvfrom, agree.failed, failed, agree.errno) (refl, refl, refl)
    | inr done ↦
        rw (result, recv, send, recvfrom, agree.failed, done, agree.count done) (refl, refl, refl)
  ]
