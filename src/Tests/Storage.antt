-- ===== src/Tests/Storage.antt =====
-- Runs of the group engine.
use sekas.Prelude.{◌≡◌, refl, Option, some, List, [], ◌∷◌, arith, true, bytes_lt}
use sekas.Api.{Value, ok, with_value, tombstone_value}
use sekas.Engine.Keys.{mvcc_key, revert_mvcc_key, version_of}
use sekas.Engine.Keys.Order.{mvcc_key-lt_key, mvcc_key-lt_version}
use sekas.Engine.Keys.Decode.{revert_mvcc_key-mvcc_key, version_of-mvcc_key}
use sekas.Engine.RawDb.{WriteOp, WriteBatch}
use sekas.Engine.Snapshot.{MvccEntry, data_value, tombstone_bytes}
use sekas.Engine.Data.{key_entries, get, put, tombstone}
use sekas.Engine.Data.Versions.{AreVersions, key_entries-AreVersions}
use sekas.Engine.Data.Latest.{IsLatest, get-IsLatest}
use sekas.Engine.Data.Written.{get-put, get-tombstone}
use sekas.Tests.MemDb.{mem_db}
use sekas.Tests.Fixtures.{engine, engine_shard, filling-IsWellFormed, engine-VersionsUpTo}

mvcc_key-lt_key_example : bytes_lt (mvcc_key 7 (1 ∷ []) 5) (mvcc_key 7 (1 ∷ 0 ∷ []) 9) ≡ true
unfolding bytes_lt
mvcc_key-lt_key_example = mvcc_key-lt_key 7 1 1 [] (0 ∷ []) 5 9 refl

mvcc_key-lt_version_example : bytes_lt (mvcc_key 7 (1 ∷ []) 6) (mvcc_key 7 (1 ∷ []) 5) ≡ true
mvcc_key-lt_version_example = mvcc_key-lt_version 7 (1 ∷ []) 5 6 (omega arith) (omega arith)

revert_mvcc_key-mvcc_key_example : revert_mvcc_key (mvcc_key 7 (1 ∷ 2 ∷ []) 5) ≡ 1 ∷ 2 ∷ []
revert_mvcc_key-mvcc_key_example = revert_mvcc_key-mvcc_key 7 (1 ∷ 2 ∷ []) 5

version_of-mvcc_key_example : version_of (mvcc_key 7 (1 ∷ 2 ∷ []) 5) ≡ 5
version_of-mvcc_key_example = version_of-mvcc_key 7 (1 ∷ 2 ∷ []) 5 (omega arith)

key_entries-AreVersions_example :
    (es : List MvccEntry) × (key_entries engine 3 (1 ∷ []) ≡ ok es)
    × AreVersions mem_db engine.db 7 (1 ∷ []) es
key_entries-AreVersions_example =
    key_entries-AreVersions engine 3 1 [] engine_shard filling-IsWellFormed

get-IsLatest_example :
    (o : Option Value) × (get engine 3 (1 ∷ []) ≡ ok o) × IsLatest mem_db engine.db 7 (1 ∷ []) o
get-IsLatest_example = get-IsLatest engine 3 1 [] engine_shard filling-IsWellFormed

abbrev put_ops : WriteBatch
put_ops = WriteOp.put (mvcc_key 7 (1 ∷ []) 9) (0 ∷ 43 ∷ []) ∷ []

put_run : put engine [] 3 (1 ∷ []) (43 ∷ []) 9 ≡ ok put_ops
unfolding put data_value
put_run = refl

get-put_example :
    get (record engine { db = mem_db.write engine.db put_ops }) 3 (1 ∷ [])
    ≡ ok (some (with_value (43 ∷ []) 9))
get-put_example =
    get-put engine 3 1 9 [] (43 ∷ []) engine_shard filling-IsWellFormed (omega arith)
      engine-VersionsUpTo put_run

abbrev tombstone_ops : WriteBatch
tombstone_ops = WriteOp.put (mvcc_key 7 (1 ∷ []) 9) (1 ∷ []) ∷ []

tombstone_run : tombstone engine [] 3 (1 ∷ []) 9 ≡ ok tombstone_ops
unfolding tombstone tombstone_bytes
tombstone_run = refl

get-tombstone_example :
    get (record engine { db = mem_db.write engine.db tombstone_ops }) 3 (1 ∷ [])
    ≡ ok (some (tombstone_value 9))
get-tombstone_example =
    get-tombstone engine 3 1 9 [] engine_shard filling-IsWellFormed (omega arith)
      engine-VersionsUpTo tombstone_run
