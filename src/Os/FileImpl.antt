-- ===== src/Os/FileImpl.antt =====
-- detail/os/impl/unix_file_impl.cpp.
use baba_io.Base.{ℕ, ℤ, ◌==ℤ◌, minus_one, if◌then◌else◌}
use baba_io.Os.Codes.{ErrorCode, ok_code, IoHandle}
use baba_io.Os.Kernel.{Kernel, Ret}

-- `io_result` and `socket_result`: an error code, and a number of bytes.
pub record IoResult : Type 0 where
  pub ec : ErrorCode
  pub bytes : ℤ

-- What the wrappers make of the value of a call: {errno, -1} or {ec::OK, bytes}.
unfoldable pub io_result : Ret → IoResult
io_result r =
    if r.value ==ℤ minus_one
    then record { ec = r.errno; bytes = minus_one }
    else record { ec = ok_code; bytes = r.value }

module _ {W : Type 0} (os : Kernel W) where
  unfoldable pub close : IoHandle → W → W
  close fd w = os.close fd w

  unfoldable pub read : IoHandle → ℕ → ℕ → W → IoResult × W
  unfolding io_result
  read fd buffer size w = let (r, w') = os.read fd buffer size w in (io_result r, w')

  unfoldable pub write : IoHandle → ℕ → ℕ → W → IoResult × W
  unfolding io_result
  write fd buffer size w = let (r, w') = os.write fd buffer size w in (io_result r, w')
