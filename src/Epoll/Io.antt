-- ===== src/Epoll/Io.antt =====
-- The objects of detail/os/reactor/epoll/io that users hold.
pub mod Scope
pub mod Timer
pub mod Acceptor
pub mod Connector
pub mod Tcp
