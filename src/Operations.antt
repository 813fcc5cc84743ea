-- ===== src/Operations.antt =====
-- internal/server/operations.go: the operation log, which lets one operation run at a time.
pub mod Types
pub mod Table
pub mod Manager
pub mod Trim
pub mod Persist
pub mod Refusals
pub mod Exclusion
pub mod Run
pub mod Restart
pub mod Ordered
pub mod Listing
