-- ===== src/Rmq.antt =====
-- backend/internal/rmq, whose code worker/internal/rmq repeats: the client of RabbitMQ.
pub mod Client
pub mod Envelope
pub mod Publisher
pub mod Consumer
pub mod Calls
pub mod Server
pub mod Lifecycle
pub mod Codec
mod Tests
