-- ===== src/Tests/Transactions.antt =====
-- Runs of the steps of a transaction.
use sekas.Prelude.{◌≡◌, refl, ap, none, some, [], ◌∷◌, false, u64_max, map_get}
use sekas.Api.{PutRequest, PutType, WriteRequest, user_key, with_put, ok}
use sekas.Engine.Keys.{mvcc_key}
use sekas.Engine.RawDb.{WriteOp}
use sekas.Engine.Snapshot.{data_value}
use sekas.Engine.Data.{key_entries, put, shard_desc}
use sekas.Engine.Data.Iteration.{take_key}
use sekas.Engine.Data.Versions.{key_entries-take_key}
use sekas.Eval.Cas.{eval_conditions, eval_from}
use sekas.Eval.Forward.{check_forward, moving_to}
use sekas.Eval.Txn.{
  Written, write_intent, read_first_non_intent_key, read_intent_and_next_key, intent_and_next, turn,
  write_at, after_waiting, check_conditions, apply_put_op,
}
use sekas.Prelude.{ℕ, Bytes, ◌≤◌, ◌<◌, sym, ◌∙◌, Bool-cases, inl, inr, bytes_eq, arith}
use sekas.Api.{TxnIntent, TxnState}
use sekas.Engine.RawDb.{WriteBatch}
use sekas.Engine.Group.{GroupEngine}
use sekas.Engine.Data.{get}
use sekas.Engine.Data.Versions.{IsWellFormed}
use sekas.Engine.Data.Latest.{write-IsWellFormed}
use sekas.Engine.Data.Written.{same_version, get-write_self}
use sekas.Eval.Txn.{commit_intent}
use sekas.Eval.Txn.Commit.{committed_bytes, commit_intent-get}
use sekas.Tests.Fixtures.{
  engine, shard, empty-IsWellFormed, filling-IsWellFormed, engine-VersionsUpTo_5,
  intent_codec-RoundTrips,
}
use sekas.Eval.Txn.Isolation.{IsIsolated, write_intent-IsIsolated}
use sekas.Tests.MemDb.{mem_db, seek_from}
use sekas.Tests.Fixtures.{fresh_engine, fresh_shard, intent_codec, encode_intent, ctx}

abbrev request : PutRequest
request = record {
  put_type = PutType.plain;
  key = 1 ∷ [];
  value = 44 ∷ [];
  ttl = 0;
  conditions = [];
  take_prev_value = false;
}

abbrev written : Written mem_db
written = record {
  engine = fresh_engine;
  batch =
      WriteOp.put (mvcc_key 7 (1 ∷ []) u64_max)
        (data_value (encode_intent (with_put 9 (some (44 ∷ [])))))
      ∷ [];
  prev_value = none;
}

no_entries : key_entries fresh_engine 3 (1 ∷ []) ≡ ok []
unfolding take_key seek_from
no_entries = key_entries-take_key fresh_engine 3 1 [] fresh_shard

read_run : read_intent_and_next_key intent_codec fresh_engine 3 (1 ∷ []) ≡ ok (none, none)
unfolding read_intent_and_next_key intent_and_next
read_run = rw no_entries refl

first_run :
    read_first_non_intent_key intent_codec [] fresh_engine 9 3 (1 ∷ [])
    ≡ some (ok (fresh_engine, false, none))
unfolding read_first_non_intent_key turn
first_run = rw (read_first_non_intent_key, read_run) refl

write_run :
    write_intent intent_codec [] ctx fresh_engine
      (record { start_version = 9; shard_id = 3; write = some (WriteRequest.put request) })
    ≡ some (ok written)
unfolding write_intent check_forward moving_to user_key write_at after_waiting check_conditions
    eval_conditions eval_from apply_put_op put shard_desc map_get
write_run = ap (after_waiting intent_codec (WriteRequest.put request) 9 3) first_run

write_intent-IsIsolated_example : IsIsolated intent_codec 9 7 (1 ∷ []) written
unfolding user_key
write_intent-IsIsolated_example =
    write_intent-IsIsolated intent_codec [] ctx fresh_engine (WriteRequest.put request) 9 3 1 []
      written refl fresh_shard empty-IsWellFormed write_run

abbrev intent : TxnIntent
intent = with_put 9 (some (44 ∷ []))

abbrev intent_ops : WriteBatch
intent_ops = WriteOp.put (mvcc_key 7 (1 ∷ []) u64_max) (data_value (encode_intent intent)) ∷ []

-- The engine once the intent is written over a committed value.
abbrev locked_engine : GroupEngine mem_db
locked_engine = record engine { db = mem_db.write engine.db intent_ops }

locked_shard : shard_desc locked_engine 3 ≡ ok shard
unfolding shard_desc map_get
locked_shard = refl

locked-IsWellFormed : IsWellFormed mem_db locked_engine.db 7
locked-IsWellFormed =
    write-IsWellFormed mem_db engine.db 7 intent_ops filling-IsWellFormed
      ((λ here. (1, [], u64_max, refl, omega arith)), tt)

locked_versions :
    (w : ℕ) (val : Bytes)
    → mem_db.get locked_engine.db (mvcc_key 7 (1 ∷ []) w) ≡ some val
    → w < u64_max
    → w ≤ 12
locked_versions w val h b =
    let seen = sym (mem_db.get-write engine.db intent_ops (mvcc_key 7 (1 ∷ []) w)) ∙ h in
    elim (Bool-cases (bytes_eq (mvcc_key 7 (1 ∷ []) u64_max) (mvcc_key 7 (1 ∷ []) w))) [
      | inl same ↦
          omega (arith, b, same_version 7 u64_max w (1 ∷ []) (omega arith) (omega (arith, b)) same)
      | inr other ↦ omega (arith, engine-VersionsUpTo_5 w val (rw other at seen) (omega (arith, b)))
    ]

intent_bytes : committed_bytes intent ≡ some (data_value (44 ∷ []))
unfolding with_put
intent_bytes = refl

commit_intent-get_example :
    (ops : WriteBatch) × (commit_intent intent_codec ctx locked_engine
        (record { shard_id = 3; user_key = 1 ∷ []; start_version = 9; commit_version = 12 })
      ≡ ok (record { batch = some ops; signal = some (TxnState.committed, some 12) }))
    × (get (record locked_engine { db = mem_db.write locked_engine.db ops }) 3 (1 ∷ [])
        ≡ ok (some (record { content = some (44 ∷ []); version = 12 })))
unfolding with_put data_value
commit_intent-get_example =
    commit_intent-get intent_codec ctx locked_engine 3 1 12 [] (data_value (44 ∷ [])) intent
      intent_codec-RoundTrips refl locked_shard locked-IsWellFormed (omega arith) locked_versions
      (get-write_self mem_db engine.db (mvcc_key 7 (1 ∷ []) u64_max)
        (data_value (encode_intent intent)))
      intent_bytes
