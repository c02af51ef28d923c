-- ===== src/Epoll.antt =====
-- detail/os/reactor/epoll and detail/os/common: the reactor on Linux.
pub mod State
pub mod Memory
pub mod Registrar
pub mod Mask
pub mod Interrupter
pub mod Strand
pub mod Deletion
pub mod Events
pub mod Arm
pub mod Proactor
pub mod Reactor
pub mod Service
pub mod Io
pub mod System
mod Tests
