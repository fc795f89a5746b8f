-- ===== src/Fsm.antt =====
-- The replicated state machine of a group (src/server/src/replica/fsm/mod.rs).
pub mod Members
pub mod Machine
pub mod Epoch
