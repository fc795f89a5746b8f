-- ===== src/Engine/Data.antt =====
-- The reads and writes of keys in the group engine (src/server/src/engine/group.rs,
-- `put`, `tombstone`, `delete`, `snapshot`, `get`, `get_all_versions`).
pub mod Iteration
pub mod Versions
pub mod Latest
pub mod Written
use sekas.Prelude.{
  ℕ, Option, none, some, List, [], ◌∷◌, ◌++◌, Bytes, map, map_get, true, false, u64_max,
}
use sekas.Api.{Value, ValueSet, ShardDesc, Error, shard_not_found, Result, ok, err, ◌>>=◌, ok_or}
use sekas.Schema.{start_key, end_key}
use sekas.Engine.Keys.{mvcc_key, raw}
use sekas.Engine.RawDb.{RawDb, WriteOp, WriteBatch}
use sekas.Engine.Snapshot.{
  Snapshot, SnapshotRange, MvccEntry, data_value, tombstone_bytes, next, mvcc_entries, to_value,
}
use sekas.Engine.Group.{GroupEngine}

pub data SnapshotMode : Type 0 where
  start : Option Bytes → SnapshotMode
  key : Bytes → SnapshotMode
  prefix : Bytes → SnapshotMode

-- The key at which the iterator of a snapshot starts.
unfoldable pub seek_key : ShardDesc → SnapshotMode → Bytes
seek_key desc (start (some k)) = raw desc.collection_id k
seek_key desc (start none) = raw desc.collection_id (start_key desc)
seek_key desc (key k) = raw desc.collection_id k
seek_key desc (prefix k) = raw desc.collection_id k

-- `Snapshot::new`.
unfoldable pub snapshot_range : ShardDesc → SnapshotMode → SnapshotRange
snapshot_range desc (start (some k)) = SnapshotRange.range k (end_key desc)
snapshot_range desc (start none) = SnapshotRange.range (start_key desc) (end_key desc)
snapshot_range desc (key k) = SnapshotRange.target k
snapshot_range desc (prefix k) = SnapshotRange.prefix k

-- The entries of the first iterator of a snapshot, if it has one.
unfoldable pub first_entries : Snapshot → List MvccEntry
unfolding next mvcc_entries
first_entries s = let (s', found) = next s in elim found [ true ↦ mvcc_entries s' | false ↦ [] ]

unfoldable pub first_value : List MvccEntry → Option Value
first_value [] = none
first_value (entry ∷ rest) = some (to_value entry)

module _ {R : RawDb} where
  unfoldable pub shard_desc : GroupEngine R → ℕ → Result ShardDesc
  unfolding map_get
  shard_desc e shard_id = ok_or (map_get shard_id e.core.shard_descs) (shard_not_found shard_id)

  unfoldable pub put : GroupEngine R → WriteBatch → ℕ → Bytes → Bytes → ℕ → Result WriteBatch
  unfolding shard_desc data_value
  put e wb shard_id k value version = do
    desc ← shard_desc e shard_id
    ok (wb ++ WriteOp.put (mvcc_key desc.collection_id k version) (data_value value) ∷ [])

  unfoldable pub tombstone : GroupEngine R → WriteBatch → ℕ → Bytes → ℕ → Result WriteBatch
  unfolding shard_desc tombstone_bytes
  tombstone e wb shard_id k version = do
    desc ← shard_desc e shard_id
    ok (wb ++ WriteOp.put (mvcc_key desc.collection_id k version) tombstone_bytes ∷ [])

  unfoldable pub delete : GroupEngine R → WriteBatch → ℕ → Bytes → ℕ → Result WriteBatch
  unfolding shard_desc
  delete e wb shard_id k version = do
    desc ← shard_desc e shard_id
    ok (wb ++ WriteOp.delete (mvcc_key desc.collection_id k version) ∷ [])

  unfoldable pub snapshot : GroupEngine R → ℕ → SnapshotMode → Result Snapshot
  unfolding shard_desc seek_key snapshot_range
  snapshot e shard_id mode = do
    desc ← shard_desc e shard_id
    ok (record {
      collection_id = desc.collection_id;
      range = snapshot_range desc mode;
      db_iter = R.seek e.db (seek_key desc mode);
      current_key = none;
      cached_entry = none;
    })

  -- All stored versions of a key as the loops over its iterator see them.
  unfoldable pub key_entries : GroupEngine R → ℕ → Bytes → Result (List MvccEntry)
  unfolding snapshot first_entries
  key_entries e shard_id k = do s ← snapshot e shard_id (key k); ok (first_entries s)

  unfoldable pub get : GroupEngine R → ℕ → Bytes → Result (Option Value)
  unfolding key_entries first_value
  get e shard_id k = do entries ← key_entries e shard_id k; ok (first_value entries)

  unfoldable pub get_all_versions : GroupEngine R → ℕ → Bytes → Result ValueSet
  unfolding key_entries
  get_all_versions e shard_id k = do
    entries ← key_entries e shard_id k
    ok (record { user_key = k; values = map to_value entries })
