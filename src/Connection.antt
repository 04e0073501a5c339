-- ===== src/Connection.antt =====
-- backend/internal/whatsapp: the WhatsApp connections, of which one may be the default.
pub mod Model
pub mod Store
pub mod Service
pub mod Memory
pub mod Lookup
mod Tests
