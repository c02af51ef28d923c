-- ===== src/Interface.antt =====
-- The classes that users see, inc/baba and src: each holds its implementation by a
-- `std::unique_ptr`, which is null after some moves.
pub mod Values
pub mod Addresses
pub mod Owned
pub mod Sockets
pub mod Connectors
pub mod Timers
pub mod Acceptors
pub mod Services
pub mod Options
mod Tests
