-- ===== src/Lib.antt =====
-- The storage core of Sekas, a distributed transactional key-value store.
--
-- A node holds replicas of groups. A group serves shards, which are ranges of the keys of a
-- collection. Requests on a shard are evaluated by its leader against the data of the group engine;
-- what an evaluation returns is a batch of writes, which the raft group replicates and the state
-- machine of each replica commits to its engine.
--
--   Prelude    names of the libraries, lists, byte strings and their order, maps
--   Api        messages (src/api/src, src/server/src/error.rs), and the result of a function
--   Schema     ranges and ends of shards, keys of transaction records (src/schema/src)
--   Engine     src/server/src/engine/group.rs, the data of a group:
--     Keys       mod keys: `mvcc_key`, `revert_mvcc_key`; Keys/Order, Keys/Decode have their laws
--     RawDb      the database that a group engine stands on, an interface with laws
--     Prost      the encoding of messages, a parameter, and what it is to round trip
--     Snapshot   Snapshot, MvccIterator, MvccEntry, mod values
--     Group      GroupEngine, WriteStates, mod internal: commit, open, ingest
--     Data       put, tombstone, delete, snapshot, get, get_all_versions; its children hold what
--                a read finds (Iteration, Versions, Latest) and what a write leaves (Written)
--   Eval       src/server/src/replica/eval, the evaluation of requests:
--     Cas        cas.rs; Cas/Meaning says what a condition asks
--     Forward    `ExecCtx` and the test for a moving shard; Get: cmd_get.rs
--     Txn        cmd_txn.rs; Write: cmd_write.rs; Latch: latch.rs
--     Scan       cmd_scan.rs; Scan/Merge and Scan/Limits have what a scan returns
--   Fsm        src/server/src/replica/fsm/mod.rs, the replicated state machine:
--     Members    the change of replicas; Machine: apply, start_plug, finish_plug
--   Raft       src/server/src/raftgroup:
--     Applier    applier.rs, which applies committed entries and answers proposals and reads
--     EntryCache, Storage   storage.rs: the entries that are not applied, the bounds of the log, writes
--                and compactions
--   Root       src/server/src/root, the root of the cluster:
--     Balance    the ranking that the policies of the allocator share
--     Allocator  allocator: Source (source.rs), Shards (policy_shard_cnt.rs), Leaders
--                (policy_leader_cnt.rs)
--     Liveness   liveness.rs; Watch: watch.rs
--     CreateGroup   the job of bg_job.rs that creates one group; JobStore: the jobs in schema.rs;
--                Jobs: `JobCore` of bg_job.rs; Jobs/Locks, Jobs/Recovery and Jobs/Updates have their laws
--   Tests      concrete inputs, and MemDb, an instance of RawDb
--
-- Numbers are native naturals; the arithmetic of a u64 that may wrap has its modulus written out.
-- A user key is not empty and a stored key has eight bytes at least: on others the source underflows or
-- panics.
-- A function returns a `Result`, which is a value, an error or a panic; debug assertions and logging
-- are not executed. A `HashMap` is an association list. State is passed explicitly, and a wait for
-- another task is a parameter that says how it ends.
--
-- Loops recurse on the list that they consume. `encode_groups` and `decode_groups` recurse on fuel,
-- the length of their input, of which each round takes at least one byte; `revert_mvcc_key-mvcc_key`
-- and `mvcc_key-lt_key` hold without a condition on it. The loops of a scan have the number of stored
-- pairs and two as fuel, since each round but the last consumes a pair or the cached entry; the job
-- that creates a group has four rounds.
--
-- Parameters are the database (RocksDB, whose reads and writes do not fail), the raft engine, prost,
-- the clock, the resolution of a transaction by `resolve_txn`, the decoding of log entries, the
-- answers of other nodes, and the failures of the store that holds the root's jobs.
--
-- Not modelled are the raft library and the worker that drives it, the rest of the root's schema
-- and of its jobs, the policy of replica counts, whose threshold is a fraction in floating point, the
-- client, RPC, and all file I/O.
pub mod Prelude
pub mod Api
pub mod Schema
pub mod Engine
pub mod Eval
pub mod Fsm
pub mod Raft
pub mod Root
mod Tests
