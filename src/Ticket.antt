-- ===== src/Ticket.antt =====
-- backend/internal/ticket: the tickets, who may see and change them, and what is told of a change.
pub mod Model
pub mod Visibility
pub mod Plan
pub mod Emit
pub mod Listing
pub mod Store
pub mod Service
pub mod Arrival
mod Memory
mod Tests
mod Requests
