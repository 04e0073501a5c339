-- ===== src/Media.antt =====
-- The data URLs in which the backend hands a file to the worker.
pub mod Base64
pub mod DataUrl
pub mod Tests
