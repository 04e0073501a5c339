-- ===== src/Message.antt =====
-- backend/internal/message: the stored messages of the tickets.
pub mod Service
pub mod Names
pub mod Outgoing
pub mod Send
pub mod Newest
pub mod Memory
mod Tests
