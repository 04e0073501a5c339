-- ===== src/Ws.antt =====
-- backend/internal/ws: the websocket hub, its clients, and who may listen to which channel.
pub mod Channels
pub mod Authz
pub mod Hub
pub mod Server
mod Tests
