-- ===== src/Contact.antt =====
-- backend/internal/contact: contacts by number and by LID.
pub mod Model
pub mod Store
pub mod Merge
pub mod Validator
pub mod Service
pub mod Memory
mod Tests
