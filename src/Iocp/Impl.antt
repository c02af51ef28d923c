-- ===== src/Iocp/Impl.antt =====
-- detail/os/impl/iocp_impl.cpp and windows_file_impl.cpp.
use baba_io.Base.{ℕ, ℤ, pos, ◌==ℤ◌, minus_one, none, some, List, if◌then◌else◌}
use baba_io.Os.Codes.{ErrorCode, ok_code, IoHandle, invalid_handle}
use baba_io.Os.FileImpl.{IoResult}
use baba_io.Iocp.State.{Windows}

-- `wait_result`.
pub record WaitResult : Type 0 where
  pub ec : ErrorCode
  pub ready_io_count : ℕ

module _ {W : Type 0} (win : Windows W) where
  unfoldable pub create : W → (ErrorCode × IoHandle) × W
  create w =
      let (r, w') = win.create_io_completion_port invalid_handle none w in
      if r.value ==ℤ pos 0 then ((r.errno, invalid_handle), w') else ((ok_code, r.value), w')

  unfoldable pub reg : (iocp_fd fd : IoHandle) → W → W
  reg iocp_fd fd w = (win.create_io_completion_port fd (some iocp_fd) w).1

  unfoldable pub wait : (iocp_fd : IoHandle) → (size : ℕ) → W → WaitResult × List ℕ × W
  wait iocp_fd size w =
      let (r, ready, evts, w') = win.get_queued_completion_status_ex iocp_fd size w in
      (
        record { ec = if r.value ==ℤ pos 0 then r.errno else ok_code; ready_io_count = ready },
        evts,
        w',
      )

  unfoldable pub close : IoHandle → W → W
  close fd w = if fd ==ℤ invalid_handle then w else win.close_handle fd w

  unfoldable pub read : IoHandle → (buffer : ℕ) → (size : ℤ) → W → IoResult × W
  read fd buffer size w =
      let (r, bytes, w') = win.read_file fd buffer size w in
      if r.value ==ℤ pos 0
      then (record { ec = r.errno; bytes = minus_one }, w')
      else (record { ec = ok_code; bytes = bytes }, w')

  unfoldable pub write : IoHandle → (buffer : ℕ) → (size : ℤ) → W → IoResult × W
  write fd buffer size w =
      let (r, bytes, w') = win.write_file fd buffer size w in
      if r.value ==ℤ pos 0
      then (record { ec = r.errno; bytes = minus_one }, w')
      else (record { ec = ok_code; bytes = bytes }, w')
