-- ===== src/Ticket.antt =====
-- The ticket domain (apps/api/src/ticket).
pub mod Enums
pub mod StateMachine
pub mod Models
pub mod Repository
pub mod Service
pub mod Api
pub mod Lifecycle
pub mod History
pub mod Commit
pub mod Notes
pub mod Sla
pub mod Deletion
mod Examples
