-- ===== src/Os.antt =====
-- The parts of detail/os: the operating system's interface and the wrappers of its calls.
pub mod Codes
pub mod Kernel
pub mod EpollImpl
pub mod FileImpl
pub mod TimerImpl
pub mod SocketImpl
pub mod Tests
