-- ===== src/Eval/Txn.antt =====
-- The steps of a transaction on one key (src/server/src/replica/eval/cmd_txn.rs): write an intent,
-- commit it, or clear it. A batch that is returned is proposed by the caller.
mod Freed
pub mod Isolation
pub mod Commit
use sekas.Prelude.{
  ℕ, ◌+◌, ◌%◌, Bool, true, false, not, Option, none, some, List, [], ◌∷◌, Bytes, length, be_bytes,
  from_be_bytes, u64_mod, ◌==◌, if◌then◌else◌, is_empty,
}
use sekas.Api.{
  Value, TxnIntent, TxnState, WriteRequest, WriteCondition, PutType, invalid_data, invalid_argument,
  cas_failed, Result, ok, err, panicked, ◌>>=◌, ◌>>◌, ok_or, tombstone_intent, with_put, user_key,
}
use sekas.Schema.{txn_intent_version}
use sekas.Engine.RawDb.{RawDb, WriteBatch}
use sekas.Engine.Prost.{Codec}
use sekas.Engine.Snapshot.{MvccEntry, entry_version, entry_value, to_value}
use sekas.Engine.Group.{GroupEngine}
use sekas.Engine.Data.{key_entries}
use sekas.Engine.Data
use sekas.Eval.Cas.{eval_conditions}
use sekas.Eval.Forward.{ExecCtx, check_forward}

-- `decode_i64`: the bit pattern of eight big-endian bytes.
unfoldable pub decode_i64 : Bytes → Option ℕ
decode_i64 bytes = if length bytes == 8 then some (from_be_bytes bytes) else none

-- The value to which an add is applied; a missing one counts as 0.
unfoldable pub former_i64 : Option Bytes → Result ℕ
unfolding decode_i64
former_i64 none = ok 0
former_i64 (some content) = ok_or (decode_i64 content) invalid_argument

unfoldable pub content_of_prev : Option Value → Option Bytes
content_of_prev none = none
content_of_prev (some v) = v.content

-- `put.put_type()` reads an unknown number as the default, a plain put.
unfoldable pub apply_put_op : PutType → Option Value → Bytes → Result (Option Bytes)
unfolding former_i64 content_of_prev
apply_put_op PutType.add_i64 prev value = do
  delta ← ok_or (decode_i64 value) invalid_argument
  former ← former_i64 (content_of_prev prev)
  ok (some (be_bytes 8 ((former + delta) % u64_mod)))
apply_put_op PutType.nop prev value = ok none
apply_put_op PutType.plain prev value = ok (some value)
apply_put_op (PutType.unrecognized n) prev value = ok (some value)

pub record WriteIntentRequest : Type 0 where
  pub start_version : ℕ
  pub shard_id : ℕ
  pub write : Option WriteRequest

pub record CommitIntentRequest : Type 0 where
  pub shard_id : ℕ
  pub user_key : Bytes
  pub start_version : ℕ
  pub commit_version : ℕ

pub record ClearIntentRequest : Type 0 where
  pub shard_id : ℕ
  pub user_key : Bytes
  pub start_version : ℕ

abbrev second_value : List MvccEntry → Option Value
second_value [] = none
second_value (entry ∷ rest) = some (to_value entry)

abbrev taken : Bool → Option Value → Option Value
taken take prev = if take then prev else none

-- Nothing, if a condition fails the write.
unfoldable pub check_conditions : Option Value → List WriteCondition → Result (Unit {0})
check_conditions prev conditions = do
  failed ← eval_conditions prev conditions
  elim failed [ none ↦ ok tt | some idx ↦ err (cas_failed 0 idx prev) ]

module _ (I : Codec TxnIntent) where
  -- The intent of the key, if there is one, and the newest committed version.
  unfoldable pub intent_and_next : List MvccEntry → Result (Option TxnIntent × Option Value)
  intent_and_next [] = ok (none, none)
  intent_and_next (entry ∷ rest) =
      if entry_version entry == txn_intent_version
      then (do
        content ← ok_or (entry_value entry) invalid_data
        intent ← ok_or (I.decode content) invalid_data
        ok (some intent, second_value rest))
      else ok (none, some (to_value entry))

  -- The intent of this transaction in the newest entry of the key.
  unfoldable pub target_intent : ℕ → Option Value → Result (Option TxnIntent)
  target_intent start_version none = ok none
  target_intent start_version (some value) =
      if not (value.version == txn_intent_version) then ok none else (do
        content ← ok_or value.content invalid_data
        intent ← ok_or (I.decode content) invalid_data
        ok (if intent.start_version == start_version then some intent else none))

-- What one round of `read_first_non_intent_key` makes of the entries: it is over, or the intent of
-- another transaction has to be resolved first.
pub data Turn : Type 0 where
  over : Result (Bool × Option Value) → Turn
  blocked : Turn

unfoldable pub turn : ℕ → Result (Option TxnIntent × Option Value) → Turn
turn start_version (ok (none, prev)) = over (ok (false, prev))
turn start_version (ok (some intent, prev)) =
    if intent.start_version == start_version then over (ok (true, prev)) else blocked
turn start_version (err e) = over (err e)
turn start_version panicked = over panicked

-- A request that writes an intent ends with a batch, which is empty if the intent is there already.
pub record Written (R : RawDb) : Type 0 where
  pub engine : GroupEngine R
  pub batch : WriteBatch
  pub prev_value : Option Value

-- `DeferSignalLatchGuard::signal_all` keeps the outcome until the latches are released.
pub record Settled : Type 0 where
  pub batch : Option WriteBatch
  pub signal : Option (TxnState × Option ℕ)

module _ {R : RawDb} (I : Codec TxnIntent) where
  unfoldable pub read_intent_and_next_key :
      GroupEngine R → ℕ → Bytes → Result (Option TxnIntent × Option Value)
  unfolding intent_and_next
  read_intent_and_next_key e shard_id key = do
    entries ← key_entries e shard_id key
    intent_and_next I entries

  -- Each wait for another transaction ends with an engine or an error; `none` if the waits that
  -- are given end before the key is free.
  unfoldable pub read_first_non_intent_key :
      List (Result (GroupEngine R))
      → GroupEngine R
      → ℕ
      → ℕ
      → Bytes
      → Option (Result (GroupEngine R × Bool × Option Value))
  unfolding turn read_intent_and_next_key
  read_first_non_intent_key [] e start_version shard_id key =
      elim (turn start_version (read_intent_and_next_key e shard_id key)) [
        | over r ↦ some (r >>= λ p. ok (e, p.0, p.1))
        | blocked ↦ none
      ]
  read_first_non_intent_key (wait ∷ waits) e start_version shard_id key =
      elim (turn start_version (read_intent_and_next_key e shard_id key)) [
        | over r ↦ some (r >>= λ p. ok (e, p.0, p.1))
        | blocked ↦ elim wait [
          | ok e' ↦ read_first_non_intent_key waits e' start_version shard_id key
          | err x ↦ some (err x)
          | panicked ↦ some panicked
        ]
      ]

  put_intent : GroupEngine R → ℕ → Bytes → TxnIntent → Result WriteBatch
  put_intent e shard_id key intent =
      Data.put e [] shard_id key (I.encode_to_vec intent) txn_intent_version

  -- The match on the write, once the key is free.
  unfoldable pub write_at :
      WriteRequest → ℕ → ℕ → GroupEngine R × Bool × Option Value → Result (Written R)
  unfolding put_intent check_conditions apply_put_op
  write_at (WriteRequest.delete del) start_version shard_id (e, skip_write, prev) = do
    batch ← if skip_write then ok [] else (do
      check_conditions prev del.conditions
      put_intent e shard_id del.key (tombstone_intent start_version))
    ok (record { engine = e; batch = batch; prev_value = taken del.take_prev_value prev })
  write_at (WriteRequest.put p) start_version shard_id (e, skip_write, prev) = do
    batch ← if skip_write then ok [] else (do
      check_conditions prev p.conditions
      apply_value ← apply_put_op p.put_type prev p.value
      put_intent e shard_id p.key (with_put start_version apply_value))
    ok (record { engine = e; batch = batch; prev_value = taken p.take_prev_value prev })

  unfoldable pub after_waiting :
      WriteRequest
      → ℕ
      → ℕ
      → Option (Result (GroupEngine R × Bool × Option Value))
      → Option (Result (Written R))
  after_waiting write start_version shard_id none = none
  after_waiting write start_version shard_id (some r) =
      some (r >>= write_at write start_version shard_id)

  unfoldable pub write_intent :
      List (Result (GroupEngine R))
      → ExecCtx
      → GroupEngine R
      → WriteIntentRequest
      → Option (Result (Written R))
  unfolding check_forward read_first_non_intent_key after_waiting
  write_intent waits ctx e req = elim req.write [
    | none ↦ some (err invalid_argument)
    | some write ↦ elim (check_forward ctx e req.shard_id (user_key write ∷ [])) [
      | ok _ ↦
          after_waiting write req.start_version req.shard_id
            (read_first_non_intent_key waits e req.start_version req.shard_id (user_key write))
      | err x ↦ some (err x)
      | panicked ↦ some panicked
    ]
  ]

  unfoldable pub read_target_intent : GroupEngine R → ℕ → ℕ → Bytes → Result (Option TxnIntent)
  unfolding target_intent
  read_target_intent e start_version shard_id key = do
    value ← Data.get e shard_id key
    target_intent I start_version value

  -- What replaces an intent that commits: a tombstone, a value, or nothing for a nop.
  unfoldable pub commit_batch : GroupEngine R → ℕ → Bytes → TxnIntent → ℕ → Result WriteBatch
  commit_batch e shard_id key intent commit_version = do
    wb ← Data.delete e [] shard_id key txn_intent_version
    if intent.is_delete
        then Data.tombstone e wb shard_id key commit_version
        else elim intent.value [
          | none ↦ ok wb
          | some value ↦ Data.put e wb shard_id key value commit_version
        ]

  unfoldable pub commit_intent : ExecCtx → GroupEngine R → CommitIntentRequest → Result Settled
  unfolding check_forward read_target_intent commit_batch
  commit_intent ctx e req = do
    check_forward ctx e req.shard_id (req.user_key ∷ [])
    found ← read_target_intent e req.start_version req.shard_id req.user_key
    elim found [
      | none ↦ ok (record { batch = none; signal = none })
      | some intent ↦ do
        wb ← commit_batch e req.shard_id req.user_key intent req.commit_version
        ok (record {
          batch = if is_empty wb then none else some wb;
          signal = some (TxnState.committed, some req.commit_version);
        })
    ]

  unfoldable pub clear_intent : ExecCtx → GroupEngine R → ClearIntentRequest → Result Settled
  unfolding check_forward read_target_intent
  clear_intent ctx e req = do
    check_forward ctx e req.shard_id (req.user_key ∷ [])
    found ← read_target_intent e req.start_version req.shard_id req.user_key
    elim found [
      | none ↦ ok (record { batch = none; signal = none })
      | some intent ↦ do
        wb ← Data.delete e [] req.shard_id req.user_key txn_intent_version
        ok (record {
          batch = if is_empty wb then none else some wb;
          signal = some (TxnState.aborted, none);
        })
    ]
