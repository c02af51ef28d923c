-- ===== src/Os/Codes.antt =====
-- inc/baba/error_code.h and inc/baba/io_types.h, and the numbers of the Linux headers that the
-- source compares with. An error code is 0 or an `errno`, so a number.
use baba_io.Base.{ℕ, ℤ, minus_one}

abbrev pub ErrorCode : Type 0
ErrorCode = ℕ

-- `ec::OK`
abbrev pub ok_code : ErrorCode
ok_code = 0

-- `ec::EC_PEER_SOCKET_CLOSED`
abbrev pub ec_peer_socket_closed : ErrorCode
ec_peer_socket_closed = 9000

-- `io_handle`
abbrev pub IoHandle : Type 0
IoHandle = ℤ

-- `INVALID_HANDLE_VALUE` and `INVALID_SOCKET`
abbrev pub invalid_handle : IoHandle
invalid_handle = minus_one

abbrev pub enoent : ErrorCode
enoent = 2

abbrev pub eintr : ErrorCode
eintr = 4

abbrev pub ebadf : ErrorCode
ebadf = 9

abbrev pub eagain : ErrorCode
eagain = 11

abbrev pub einprogress : ErrorCode
einprogress = 115

-- EPOLLERR and EPOLLHUP, which the reactor also passes on as error codes.
abbrev pub epollerr : ℕ
epollerr = 8

abbrev pub epollhup : ℕ
epollhup = 16
