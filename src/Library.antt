-- ===== src/Library.antt =====
-- The queues of detail/library.
pub mod BlockingQueue
pub mod LockableQueue
pub mod SafeQueue
