-- ===== src/User.antt =====
-- backend/internal/user: users, their rights to be created and changed, and their passwords.
pub mod Model
pub mod Store
pub mod Service
pub mod Memory
