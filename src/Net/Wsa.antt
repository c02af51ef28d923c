-- ===== src/Net/Wsa.antt =====
-- detail/os/impl/wsa_socket_impl.cpp, the socket calls of Windows. A transfer has two halves: one
-- starts it, and the other reads its outcome when the completion port reports it.
pub mod Winsock
pub mod Accepting
pub mod Connecting
pub mod Transfers
pub mod Calls
pub mod Outcomes
