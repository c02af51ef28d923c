-- ===== src/Kqueue.antt =====
-- detail/os/reactor/kqueue: the reactor on macOS, an earlier design than that of epoll.
pub mod State
pub mod Memory
pub mod Impl
pub mod Events
pub mod Interrupter
pub mod Reactor
pub mod Service
pub mod Timer
mod Tests
