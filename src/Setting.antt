-- ===== src/Setting.antt =====
-- backend/internal/setting: who may sign up, and the token of the API.
pub mod Service
pub mod Memory
mod Tests
