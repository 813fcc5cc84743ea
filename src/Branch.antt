-- ===== src/Branch.antt =====
-- internal/branch: the branch store, its state file and what a restart reads back.
pub mod Types
pub mod Snapshot
pub mod File
pub mod Store
pub mod Load
