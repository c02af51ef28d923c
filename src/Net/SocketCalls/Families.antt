-- ===== src/Net/SocketCalls/Families.antt =====
-- Which family the calls serve.
use baba_io.Base.{ℕ, ◌≡◌, arith}
use baba_io.Os.Codes.{ok_code, IoHandle}
use baba_io.Os.Kernel.{Kernel}
use baba_io.Net.Storage.{SockStorage, af_inet6}
use baba_io.Net.IpAddress.{IpAddress}
use baba_io.Net.IpEndpoint.{from_address}
use baba_io.Net.SocketCalls.{connect, bind, code_of}

module _ {W : Type 0} (os : Kernel W) (before : SockStorage) (address : IpAddress) (port : ℕ) where
  -- A connect to an endpoint of an IPv6 address makes no call of the system and reports success, while
  -- a bind to the same endpoint makes its call and reports that call's outcome.
  pub connect_v6-bind_v6 :
      (fd : IoHandle) (w : W)
      → address.af ≡ af_inet6
      → let ep = from_address before address port in
        (connect os fd ep w ≡ (ok_code, w))
        × (bind os fd ep w ≡ code_of (os.bind fd ep.sock ep.sock_len w))
  unfolding connect bind from_address
  connect_v6-bind_v6 fd w h = ground arith
