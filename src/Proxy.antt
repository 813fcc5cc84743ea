-- ===== src/Proxy.antt =====
-- internal/server/branch_endpoints.go: the published endpoints of branches, each with a listener, a
-- compute of its own or a route to the primary one.
pub mod Names
pub mod Routing
pub mod World
pub mod Publish
pub mod Backend
pub mod Client
pub mod Counts
pub mod Apart
pub mod Acquired
pub mod Ports
pub mod Same
pub mod Kept
pub mod Waiting
pub mod Options
