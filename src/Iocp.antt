-- ===== src/Iocp.antt =====
-- detail/os/reactor/iocp: the completion port of Windows, with timers as its only objects.
pub mod State
pub mod Impl
pub mod TimerImpl
pub mod Memory
pub mod Events
pub mod Service
pub mod Timer
pub mod Expirations
pub mod Deletions
mod Tests
