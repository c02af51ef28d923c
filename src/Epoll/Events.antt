-- ===== src/Epoll/Events.antt =====
-- The event classes of detail/os/reactor/epoll/events.
pub mod Recv
pub mod Send
pub mod Timer
pub mod Accept
pub mod Connect
