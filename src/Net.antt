-- ===== src/Net.antt =====
-- detail/os/socket: addresses, endpoints and socket options, and the socket calls that take them.
pub mod Storage
pub mod IpAddress
pub mod IpEndpoint
pub mod SocketOption
pub mod SocketCalls
pub mod Wsa
mod Tests
