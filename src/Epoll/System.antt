-- ===== src/Epoll/System.antt =====
-- The threads of a service together.
pub mod Places
pub mod Invariant
pub mod Frames
pub mod Moves
pub mod StrandMoves
pub mod Owing
pub mod Turns
pub mod Reacting
pub mod Deleting
pub mod Finishing
pub mod Keeping
pub mod ReactorTurns
pub mod StrandTurns
pub mod Safety
pub mod Draining
mod Tests
