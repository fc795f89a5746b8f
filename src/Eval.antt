-- ===== src/Eval.antt =====
-- The evaluation of requests on a replica (src/server/src/replica/eval/*.rs).
pub mod Cas
pub mod Forward
pub mod Get
pub mod Txn
pub mod Scan
pub mod Write
pub mod Latch
