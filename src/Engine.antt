-- ===== src/Engine.antt =====
-- The group engine (src/server/src/engine/group.rs).
pub mod Keys
pub mod RawDb
pub mod Snapshot
pub mod Prost
pub mod Group
pub mod Data
