-- ===== src/Tests/Requests.antt =====
-- Runs of the evaluation of requests.
use sekas.Prelude.{
  ℕ, ◌≡◌, ◌<◌, refl, Option, none, some, [], ◌∷◌, arith, true, u64_max, map_get, All, ◌≤◌,
}
use sekas.Api.{Value, WriteCondition, WriteConditionType, PutRequest, PutType, ok, with_value}
use sekas.Engine.Keys.{mvcc_key}
use sekas.Engine.RawDb.{WriteOp, WriteBatch}
use sekas.Engine.Data.{get, put, shard_desc}
use sekas.Engine.Snapshot.{data_value}
use sekas.Engine.Data.Written.{get_stored, get-write_self}
use sekas.Eval.Forward.{check_forward, moving_to}
use sekas.Eval.Cas.{eval_conditions, eval_from, eval_condition, eval_present}
use sekas.Eval.Cas.Outcome.{Holds, Means, eval_conditions-Means}
use sekas.Eval.Get.{Resolve, read_key}
use sekas.Eval.Get.Visible.{IsVisible, with_intent, read_key-IsVisible}
use sekas.Eval.Write.{
  ShardWriteResponse, batch_write, version_after, write_deletes, write_puts, is_plain, check_write,
}
use sekas.Engine.Data.Versions.{IsWellFormed}
use sekas.Eval.Write.Form.{batch_write-IsWellFormed}
use sekas.Eval.Write.ReadBack.{IsBehind, batch_write-get}
use sekas.Tests.MemDb.{mem_db, empty_db}
use sekas.Tests.Fixtures.{
  engine, engine_shard, filling-IsWellFormed, intent_codec, ctx, stored_value,
  engine-VersionsUpTo_5,
}

abbrev former : Option Value
former = some (record { content = some (42 ∷ []); version = 5 })

abbrev exists : WriteCondition
exists = record { kind = WriteConditionType.expect_exists; value = []; version = 0; begin = 0 }

abbrev newer : WriteCondition
newer = record { kind = WriteConditionType.expect_version_gt; value = []; version = 9; begin = 0 }

eval_conditions-Means_example :
    Means former (exists ∷ newer ∷ []) (eval_conditions former (exists ∷ newer ∷ []))
eval_conditions-Means_example = eval_conditions-Means former (exists ∷ newer ∷ [])

abbrev nothing : Resolve
nothing shard_id key start_version intent_version = ok none

read_key-IsVisible_example :
    (o : Option Value) × (read_key intent_codec nothing engine 3 (1 ∷ []) 8
      ≡ with_intent intent_codec nothing 3
          (1 ∷ [])
          8
          (mem_db.get engine.db (mvcc_key 7 (1 ∷ []) u64_max))
          o)
    × IsVisible mem_db engine.db 7 (1 ∷ []) 8 o
read_key-IsVisible_example =
    read_key-IsVisible intent_codec nothing engine 3 1 [] 8 engine_shard filling-IsWellFormed

abbrev request : PutRequest
request = record {
  put_type = PutType.plain;
  key = 1 ∷ [];
  value = 44 ∷ [];
  ttl = 0;
  conditions = exists ∷ [];
  take_prev_value = true;
}

abbrev clock : ℕ → ℕ
clock n = 100

abbrev request_ops : WriteBatch
request_ops = WriteOp.put (mvcc_key 7 (1 ∷ []) 100) (0 ∷ 44 ∷ []) ∷ []

abbrev response : ShardWriteResponse
response = record { deletes = []; puts = former ∷ [] }

get_run : get engine 3 (1 ∷ []) ≡ ok former
get_run =
    get_stored engine 3 1 5 [] stored_value engine_shard filling-IsWellFormed (omega arith)
      (get-write_self mem_db empty_db (mvcc_key 7 (1 ∷ []) 5) stored_value) engine-VersionsUpTo_5

request_run :
    batch_write clock ctx engine (record { shard_id = 3; deletes = []; puts = request ∷ [] })
    ≡ ok (some request_ops, response)
unfolding batch_write check_forward moving_to write_deletes write_puts is_plain eval_conditions
    eval_from eval_condition eval_present check_write version_after put shard_desc map_get
    data_value
request_run = rw get_run refl

former_is_small : (o : Value) → get engine 3 (1 ∷ []) ≡ ok (some o) → o.version < u64_max
former_is_small o h =
    let same : former ≡ some o = cc (get_run, h) in let v : 5 ≡ o.version = cc in omega (arith, v)

batch_write-get_example :
    (prev : Option Value) × (v : ℕ) × (get engine 3 (1 ∷ []) ≡ ok prev)
    × All (Holds prev) (exists ∷ [])
    × IsBehind prev v
    × (100 ≤ v)
    × (get (record engine { db = mem_db.write engine.db request_ops }) 3 (1 ∷ [])
        ≡ ok (some (with_value (44 ∷ []) v)))
batch_write-get_example =
    batch_write-get clock ctx engine 3 1 [] request refl engine_shard filling-IsWellFormed refl
      (omega arith) former_is_small request_run

batch_write-IsWellFormed_example : IsWellFormed mem_db (mem_db.write engine.db request_ops) 7
batch_write-IsWellFormed_example =
    batch_write-IsWellFormed clock ctx engine
      record { shard_id = 3; deletes = []; puts = request ∷ [] } engine_shard (λ i. omega arith) tt
      ((1, [], refl), tt) filling-IsWellFormed request_run
