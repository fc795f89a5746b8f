-- ===== src/Raft.antt =====
-- The raft group of a replica (src/server/src/raftgroup).
pub mod Applier
pub mod EntryCache
pub mod Storage
