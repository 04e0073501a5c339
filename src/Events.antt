-- ===== src/Events.antt =====
-- backend/internal/waevents: the events that the worker publishes, and what the backend does on them.
pub mod Types
pub mod Jids
pub mod Services
pub mod Queues
pub mod Messages
pub mod Connections
pub mod Lifecycle
pub mod Debouncer
pub mod Receipts
mod Tests
mod StatusTests
