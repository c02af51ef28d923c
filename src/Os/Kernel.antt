-- ===== src/Os/Kernel.antt =====
-- The system calls of the source, which are not part of it: functions of the state of the operating
-- system, taken as a parameter by all code that calls them.
use baba_io.Base.{ℕ, ℤ, List}
use baba_io.Os.Codes.{IoHandle}
use baba_io.Net.Storage.{SockStorage}

-- What a system call returns, and `errno` after it.
pub record Ret : Type 0 where
  pub value : ℤ
  pub errno : ℕ

-- The operations of `epoll_ctl`.
pub data CtlOp : Type 0 where
  epoll_ctl_add epoll_ctl_mod epoll_ctl_del : CtlOp

-- `struct epoll_event`. The user data of the source is a pointer to a descriptor, a number here.
pub record EpollEvent : Type 0 where
  pub events : ℕ
  pub ptr : ℕ

-- `struct itimerspec`, of a timer that does not repeat.
pub record Expiration : Type 0 where
  pub sec : ℕ
  pub nsec : ℕ

pub record Kernel (W : Type 0) : Type 0 where
  pub epoll_create1 : W → Ret × W
  pub epoll_ctl : IoHandle → CtlOp → IoHandle → EpollEvent → W → Ret × W
  -- The events stand in the list that the call fills.
  pub epoll_wait : IoHandle → ℕ → W → Ret × List EpollEvent × W
  pub close : IoHandle → W → W
  -- The buffer is an address; its contents are not modelled.
  pub read : IoHandle → ℕ → ℕ → W → Ret × W
  pub write : IoHandle → ℕ → ℕ → W → Ret × W
  -- The read end and the write end stand in the array that the call fills.
  pub pipe : W → Ret × (IoHandle × IoHandle) × W
  pub fcntl_getfl : IoHandle → W → Ret × W
  pub fcntl_setfl : IoHandle → ℤ → W → Ret × W
  pub timerfd_create : W → Ret × W
  pub timerfd_settime : IoHandle → Expiration → W → Ret × W
  -- The buffer's address and size, as passed on by the source.
  pub recv : IoHandle → ℕ → ℤ → W → Ret × W
  pub send : IoHandle → ℕ → ℤ → W → Ret × W
  -- SOCK_STREAM is 1, SOCK_DGRAM is 2.
  pub socket : (af type : ℕ) → W → Ret × W
  -- The address of the peer stands in the storage that the call fills.
  pub accept : IoHandle → (sock_len : ℕ) → W → Ret × SockStorage × W
  pub connect : IoHandle → SockStorage → (sock_len : ℕ) → W → Ret × W
  pub sendto : IoHandle → ℕ → ℤ → SockStorage → (sock_len : ℕ) → W → Ret × W
  pub recvfrom : IoHandle → ℕ → ℤ → (sock_len : ℕ) → W → Ret × SockStorage × W
  pub shutdown : IoHandle → ℤ → W → Ret × W
  pub bind : IoHandle → SockStorage → (sock_len : ℕ) → W → Ret × W
  pub listen : IoHandle → ℤ → W → Ret × W
  -- The value is the memory that the pointer stands for, read as a number, the lowest byte first; the
  -- second call gets the memory as it is, and fills it.
  pub setsockopt : IoHandle → (level name value len : ℕ) → W → Ret × W
  pub getsockopt : IoHandle → (level name before len : ℕ) → W → Ret × ℕ × W
