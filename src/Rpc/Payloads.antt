-- ===== src/Rpc/Payloads.antt =====
-- worker/internal/command/payloads.go: the structs of the requests and how they are read from JSON.
mod Sends
mod Asks
unfoldable pub use Sends.*
unfoldable pub use Asks.*
