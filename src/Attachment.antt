-- ===== src/Attachment.antt =====
-- internal/server/branch_attachment.go.
pub mod World
pub mod Resolve
pub mod Rounds
pub mod Steps
pub mod Sound
pub mod Safe
pub mod Recorded
pub mod Again
pub mod Undo
