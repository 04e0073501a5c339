-- ===== src/Auth.antt =====
-- backend/internal/auth: tokens, sessions and the middleware of the routes.
pub mod Tokens
pub mod Sessions
pub mod Middleware
pub mod Revocation
pub mod Memory
mod Tests
