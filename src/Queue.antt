-- ===== src/Queue.antt =====
-- backend/internal/queue: queues, and which of them a user or a connection has.
pub mod Ids
pub mod Model
pub mod Assign
pub mod Service
pub mod Memory
mod Tests
