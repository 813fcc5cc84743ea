-- ===== src/Tests.antt =====
-- The theorems at concrete inputs, and runs of the definitions that can be followed in the source.
mod BranchStore
mod OperationLog
mod Endpoint
mod Attachments
mod Configuration
mod SqlGuard
mod Proxy
mod Library
