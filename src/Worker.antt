-- ===== src/Worker.antt =====
-- worker/internal/whatsmeow: the WhatsApp sessions that the worker keeps.
pub mod Manager
pub mod Session
mod Tests
