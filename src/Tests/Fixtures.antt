-- ===== src/Tests/Fixtures.antt =====
-- An engine with one shard, whose key [1] has a value at version 5.
use sekas.Prelude.{
  ◌≡◌, refl, Option, none, some, [], ◌∷◌, Bytes, map_get, arith, Bool, true, false, if◌then◌else◌,
  ◌==◌,
}
use sekas.Api.{GroupDesc, ShardDesc, ReplicaRole, TxnIntent, ok}
use sekas.Engine.Keys.{mvcc_key}
use sekas.Engine.RawDb.{WriteOp, WriteBatch}
use sekas.Engine.Prost.{Codec, RoundTrips}
use sekas.Engine.Group.{GroupEngine, GroupEngineCore}
use sekas.Engine.Data.{shard_desc}
use sekas.Engine.Data.Versions.{IsWellFormed}
use sekas.Engine.Data.Latest.{write-IsWellFormed}
use sekas.Engine.Data.Written.{VersionsUpTo, versions_after}
use sekas.Eval.Forward.{ExecCtx}
use sekas.Tests.MemDb.{mem_db, empty_db, lookup}

abbrev pub stored_value : Bytes
stored_value = 0 ∷ 42 ∷ []

abbrev pub filling : WriteBatch
filling = WriteOp.put (mvcc_key 7 (1 ∷ []) 5) stored_value ∷ []

abbrev pub shard : ShardDesc
shard = record { id = 3; collection_id = 7; range = none }

abbrev pub group : GroupDesc
group = record {
  id = 1;
  epoch = 4;
  shards = shard ∷ [];
  replicas =
      record { id = 10; node_id = 1; role = ReplicaRole.voter }
      ∷ record { id = 11; node_id = 2; role = ReplicaRole.learner }
      ∷ [];
}

abbrev pub core : GroupEngineCore
core = record { group_desc = group; shard_descs = (3, shard) ∷ []; move_shard_state = none }

abbrev pub engine : GroupEngine mem_db
engine = record { db = mem_db.write empty_db filling; core = core }

pub engine_shard : shard_desc engine 3 ≡ ok shard
unfolding shard_desc map_get
engine_shard = refl

pub empty-IsWellFormed : IsWellFormed mem_db empty_db 7
unfolding lookup
empty-IsWellFormed k v h here = cc

pub filling-IsWellFormed : IsWellFormed mem_db engine.db 7
filling-IsWellFormed =
    write-IsWellFormed mem_db empty_db 7 filling empty-IsWellFormed
      ((λ here. (1, [], 5, refl, omega arith)), tt)

empty-VersionsUpTo : VersionsUpTo mem_db empty_db 7 (1 ∷ []) 5
unfolding lookup
empty-VersionsUpTo w val h b = cc

pub engine-VersionsUpTo_5 : VersionsUpTo mem_db engine.db 7 (1 ∷ []) 5
engine-VersionsUpTo_5 =
    versions_after mem_db empty_db 7 (1 ∷ []) stored_value 5 (omega arith) empty-VersionsUpTo

pub engine-VersionsUpTo : VersionsUpTo mem_db engine.db 7 (1 ∷ []) 9
engine-VersionsUpTo w val h b = omega (arith, engine-VersionsUpTo_5 w val h b)

-- A codec for intents.
unfoldable pub encode_intent : TxnIntent → Bytes
encode_intent t =
    (if t.is_delete then 1 else 0)
    ∷ t.start_version
    ∷ elim t.value [ none ↦ [] | some bytes ↦ 1 ∷ bytes ]

decode_value : Bytes → Option Bytes
decode_value [] = none
decode_value (n ∷ bytes) = some bytes

unfoldable pub decode_intent : Bytes → Option TxnIntent
unfolding decode_value
decode_intent [] = none
decode_intent (f ∷ []) = none
decode_intent (f ∷ s ∷ rest) =
    some (record { start_version = s; is_delete = f == 1; value = decode_value rest })

decode_value_lem :
    (v : Option Bytes) → decode_value (elim v [ none ↦ [] | some bytes ↦ 1 ∷ bytes ]) ≡ v
unfolding decode_value
decode_value_lem none = refl
decode_value_lem (some bytes) = refl

flag_lem : (d : Bool) → ((if d then 1 else 0) == 1) ≡ d
flag_lem true = refl
flag_lem false = refl

abbrev pub intent_codec : Codec TxnIntent
intent_codec = record { encode_to_vec = encode_intent; decode = decode_intent }

pub intent_codec-RoundTrips : RoundTrips intent_codec
unfolding decode_intent encode_intent
intent_codec-RoundTrips t = rw (flag_lem t.is_delete, decode_value_lem t.value) refl

abbrev pub ctx : ExecCtx
ctx = record {
  group_id = 1;
  replica_id = 10;
  epoch = 4;
  forward_shard_id = none;
  move_shard_desc = none;
}

-- The same engine before its first write.
abbrev pub fresh_engine : GroupEngine mem_db
fresh_engine = record { db = empty_db; core = core }

pub fresh_shard : shard_desc fresh_engine 3 ≡ ok shard
unfolding shard_desc map_get
fresh_shard = refl
