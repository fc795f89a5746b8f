-- ===== src/Root.antt =====
-- The root of the cluster (src/server/src/root).
pub mod Balance
pub mod Liveness
pub mod Watch
pub mod CreateGroup
pub mod JobStore
pub mod Jobs
pub mod Allocator
