-- ===== src/Eval/Write.antt =====
-- The batched write of a shard (src/server/src/replica/eval/cmd_write.rs). `next_version`, the clock,
-- is a parameter: the number of the write in the batch determines what it reads.
pub mod ReadBack
pub mod Form
use sekas.Prelude.{
  ℕ, ◌+◌, ◌%◌, max, Bool, true, false, ◌&&◌, Option, none, some, List, [], ◌∷◌, ◌++◌, Bytes, length,
  is_empty, map, if◌then◌else◌, u64_mod,
}
use sekas.Api.{
  Value, PutRequest, DeleteRequest, PutType, Error, cas_failed, Result, ok, err, panicked, ◌>>=◌,
  ◌>>◌,
}
use sekas.Engine.RawDb.{RawDb, WriteBatch}
use sekas.Engine.Group.{GroupEngine}
use sekas.Engine.Data
use sekas.Eval.Cas.{eval_conditions}
use sekas.Eval.Forward.{ExecCtx, check_forward}

pub record ShardWriteRequest : Type 0 where
  pub shard_id : ℕ
  pub deletes : List DeleteRequest
  pub puts : List PutRequest

-- The values before the writes, for those that ask for them.
pub record ShardWriteResponse : Type 0 where
  pub deletes : List (Option Value)
  pub puts : List (Option Value)

unfoldable pub version_after : Option Value → ℕ → ℕ
version_after none now = max 1 now
version_after (some v) now = max ((v.version + 1) % u64_mod) now

-- `put_type` is compared with the number of the plain put.
unfoldable pub is_plain : PutType → Bool
is_plain PutType.plain = true
is_plain _ = false

unfoldable pub check_write : ℕ → Option Value → Option ℕ → Result (Unit {0})
check_write idx prev none = ok tt
check_write idx prev (some cond_idx) = err (cas_failed idx cond_idx prev)

module _ {R : RawDb} (clock : ℕ → ℕ) (e : GroupEngine R) (shard_id : ℕ) where
  -- The batch and the responses of the deletes from number `idx` on.
  unfoldable pub write_deletes :
      ℕ → WriteBatch → List DeleteRequest → Result (WriteBatch × List (Option Value))
  unfolding check_write version_after
  write_deletes idx wb [] = ok (wb, [])
  write_deletes idx wb (del ∷ dels) = do
    prev ← Data.get e shard_id del.key
    failed ← eval_conditions prev del.conditions
    check_write idx prev failed
    wb' ← Data.tombstone e wb shard_id del.key (version_after prev (clock idx))
    (last, responses) ← write_deletes (idx + 1) wb' dels
    ok (last, (if del.take_prev_value then prev else none) ∷ responses)

  unfoldable pub write_puts :
      ℕ → WriteBatch → List PutRequest → Result (WriteBatch × List (Option Value))
  unfolding check_write version_after is_plain
  write_puts idx wb [] = ok (wb, [])
  write_puts idx wb (p ∷ puts) =
      if is_plain p.put_type
      then (do
        prev ← Data.get e shard_id p.key
        failed ← eval_conditions prev p.conditions
        check_write idx prev failed
        wb' ← Data.put e wb shard_id p.key p.value (version_after prev (clock idx))
        (last, responses) ← write_puts (idx + 1) wb' puts
        ok (last, (if p.take_prev_value then prev else none) ∷ responses))
      else panicked

abbrev delete_key : DeleteRequest → Bytes
delete_key d = d.key

abbrev put_key : PutRequest → Bytes
put_key p = p.key

unfoldable pub batch_write :
    {R : RawDb}
    → (ℕ → ℕ)
    → ExecCtx
    → GroupEngine R
    → ShardWriteRequest
    → Result (Option WriteBatch × ShardWriteResponse)
unfolding check_forward write_deletes write_puts
batch_write clock ctx e req =
    if is_empty req.deletes && is_empty req.puts
    then ok (none, record { deletes = []; puts = [] })
    else (do
      check_forward ctx e req.shard_id (map delete_key req.deletes ++ map put_key req.puts)
      (wb, deleted) ← write_deletes clock e req.shard_id 0 [] req.deletes
      (last, written) ← write_puts clock e req.shard_id (length req.deletes) wb req.puts
      ok (some last, record { deletes = deleted; puts = written }))
