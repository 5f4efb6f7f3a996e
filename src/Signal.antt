-- ===== src/Signal.antt =====
-- The signalling: the server of SignallingServer.hpp and the client of SignallingClient.hpp.
pub mod Lines
pub mod Server
pub mod Client
pub mod Relay
mod Tests
