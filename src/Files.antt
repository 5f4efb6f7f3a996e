-- ===== src/Files.antt =====
-- The file transfer of P2PChat.cpp: file names, packets, the receiver and the sender.
pub mod Names
pub mod Packets
pub mod Disk
pub mod State
pub mod Begin
pub mod Cleanup
pub mod Answers
pub mod Meta
pub mod Data
pub mod Receiver
pub mod Chunks
pub mod Prompts
pub mod Send
pub mod Link
pub mod Prefix
mod Tests
