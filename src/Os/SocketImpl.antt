-- ===== src/Os/SocketImpl.antt =====
-- detail/os/impl/bsd_socket_impl.cpp: the transfers on a connected socket.
use baba_io.Base.{ℕ, ℤ}
use baba_io.Os.Codes.{IoHandle}
use baba_io.Os.Kernel.{Kernel}
use baba_io.Os.FileImpl.{IoResult, io_result}

module _ {W : Type 0} (os : Kernel W) where
  unfoldable pub send : IoHandle → ℕ → ℤ → W → IoResult × W
  unfolding io_result
  send fd buffer size w = let (r, w') = os.send fd buffer size w in (io_result r, w')

  unfoldable pub recv : IoHandle → ℕ → ℤ → W → IoResult × W
  unfolding io_result
  recv fd buffer size w = let (r, w') = os.recv fd buffer size w in (io_result r, w')
