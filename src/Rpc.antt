-- ===== src/Rpc.antt =====
-- The calls of the backend to the worker: the requests that the one writes and the other reads.
pub mod Json
pub mod Requests
pub mod Backend
pub mod Payloads
pub mod Fields
pub mod Handlers
pub mod Agree
pub mod Served
pub mod Sender
pub mod Delivered
pub mod Arrived
pub mod Tests
