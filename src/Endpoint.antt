-- ===== src/Endpoint.antt =====
-- internal/server/primary_endpoint.go: the manager of the one PostgreSQL compute that serves the
-- primary endpoint, and the runtime that it drives.
pub mod Selection
pub mod Manager
pub mod World
pub mod Wait
pub mod Connection
pub mod Route
pub mod Payload
pub mod Transition
pub mod Waiting
pub mod Steps
pub mod Closed
pub mod Switching
pub mod Starting
pub mod Reservations
pub mod Honest
pub mod Live
