-- ===== src/Net/Wsa/Winsock.antt =====
-- The calls of Windows that the source makes, a parameter of all code that calls them. `errno` of a
-- result is what `WSAGetLastError` or `GetLastError` answers after the call. A BOOL is 1 or 0.
-- An address family is given by its number in the rest of this library, where AF_INET6 is 10; in the
-- headers of Windows it is 23.
use baba_io.Base.{ℕ, ℤ, Option, ◌==ℤ◌, ◌==◌, if◌then◌else◌}
use baba_io.Os.Codes.{ErrorCode, ok_code, IoHandle}
use baba_io.Os.Kernel.{Ret}
use baba_io.Net.Storage.{SockStorage}

-- WSAID_ACCEPTEX and WSAID_CONNECTEX.
pub data Extension : Type 0 where
  accept_ex connect_ex : Extension

-- An OVERLAPPED and a WSABUF are addresses.
pub record Winsock (W : Type 0) : Type 0 where
  pub socket : (af type : ℕ) → W → Ret × W
  -- SIO_GET_EXTENSION_FUNCTION_POINTER: the function pointer, null at first, stands in what it fills.
  pub ioctl : IoHandle → Extension → W → Ret × Option ℕ × W
  -- Calls of such a pointer.
  pub call_accept_ex :
      (fn : Option ℕ) → (acceptor peer : IoHandle) → (ep_buffer ep_size evt : ℕ) → W → Ret × W
  pub call_connect_ex : (fn : Option ℕ) → IoHandle → SockStorage → (sock_len evt : ℕ) → W → Ret × W
  -- A BOOL, and the number of bytes transferred.
  pub get_overlapped_result : IoHandle → (evt : ℕ) → W → Ret × ℕ × W
  pub send : IoHandle → (buffer evt : ℕ) → W → Ret × W
  pub recv : IoHandle → (buffer evt : ℕ) → W → Ret × W
  pub send_to : IoHandle → (buffer : ℕ) → SockStorage → (sock_len evt : ℕ) → W → Ret × W
  -- The address of the sender is written when the transfer is complete.
  pub recv_from : IoHandle → (buffer peer_sock sock_len evt : ℕ) → W → Ret × W
  pub getpeername : IoHandle → (len : ℕ) → W → Ret × SockStorage × W
  -- SO_UPDATE_ACCEPT_CONTEXT and SO_UPDATE_CONNECT_CONTEXT, with the handle whose context it is.
  pub update_accept_context : IoHandle → (acceptor : IoHandle) → W → Ret × W
  pub update_connect_context : IoHandle → (connector : IoHandle) → W → Ret × W
  pub shutdown : IoHandle → ℤ → W → Ret × W
  pub setsockopt : IoHandle → (level name value len : ℕ) → W → Ret × W
  pub getsockopt : IoHandle → (level name before len : ℕ) → W → Ret × ℕ × W
  pub bind : IoHandle → SockStorage → (sock_len : ℕ) → W → Ret × W
  pub listen : IoHandle → ℤ → W → Ret × W

-- WSA_IO_PENDING, which is ERROR_IO_PENDING: the transfer has been started, and is not complete.
abbrev pub io_pending : ℕ
io_pending = 997

-- The code of a call that has answered `done` or has started a transfer.
abbrev pub started : {W : Type 0} → (done : ℤ) → Ret × W → ErrorCode × W
started done (r, w) =
    if r.value ==ℤ done
    then (ok_code, w)
    else (if r.errno == io_pending then (ok_code, w) else (r.errno, w))
