-- ===== src/Peers.antt =====
-- The peers of a client in P2PChat.cpp.
mod Tests
pub mod Users
pub mod Candidates
pub mod State
pub mod Tasks
pub mod Offers
pub mod Notices
pub mod Rounds
pub mod Wiring
pub mod Starting
