-- ===== src/Eval/Latch.antt =====
-- The row latches (src/server/src/replica/eval/latch.rs): the block of one key, how its latch is
-- handed on, and the keys that a request latches. A channel is the number of its receiver; the
-- receivers that are gone are a parameter of the steps. The other parts of `resolve_txn` call the
-- client and the raft group.
pub mod Holder
use sekas.Prelude.{
  ℕ, Bool, true, false, Option, none, some, List, [], ◌∷◌, ◌++◌, Bytes, is_empty, map,
  if◌then◌else◌,
}
use sekas.Api.{TxnState, PutRequest, DeleteRequest, WriteRequest, user_key}

pub record LatchBlock : Type 0 where
  pub hold : Bool
  pub latch_waiters : List ℕ
  pub intent_waiters : List ℕ

abbrev pub default_block : LatchBlock
default_block = record { hold = false; latch_waiters = []; intent_waiters = [] }

-- `acquire_internal` on the block of a key; `true` if the caller has the guard now.
unfoldable pub acquire_internal : ℕ → LatchBlock → LatchBlock × Bool
acquire_internal waiter block =
    if block.hold
    then (record block { latch_waiters = block.latch_waiters ++ waiter ∷ [] }, false)
    else (record block { hold = true }, true)

-- The first waiter whose receiver is there takes the guard; the waiters before it are dropped.
unfoldable pub next_waiter : (ℕ → Bool) → List ℕ → Option (ℕ × List ℕ)
next_waiter gone [] = none
next_waiter gone (w ∷ ws) = if gone w then next_waiter gone ws else some (w, ws)

-- The block, the waiter that is woken, and whether the block is to be removed.
unfoldable pub transfer_latch_guard : (ℕ → Bool) → LatchBlock → LatchBlock × Option ℕ × Bool
unfolding next_waiter
transfer_latch_guard gone block = elim (next_waiter gone block.latch_waiters) [
  | some p ↦ (record block { hold = true; latch_waiters = p.1 }, some p.0, false)
  | none ↦ (record block { hold = false; latch_waiters = [] }, none, is_empty block.intent_waiters)
]

-- `release` on the entry of a key, with the waiter that is woken.
unfoldable pub release : (ℕ → Bool) → Option LatchBlock → Option LatchBlock × Option ℕ
unfolding transfer_latch_guard
release gone none = (none, none)
release gone (some block) =
    let (next, woken, remove) = transfer_latch_guard gone block in
    (if remove then none else some next, woken)

-- `get_latch_mut`.
unfoldable pub get_latch : Option LatchBlock → LatchBlock
get_latch none = default_block
get_latch (some block) = block

-- The holder waits for an intent: it gives the latch away and is woken by `signal_all`.
unfoldable pub wait_intent : (ℕ → Bool) → ℕ → Option LatchBlock → Option LatchBlock × Option ℕ
unfolding transfer_latch_guard get_latch
wait_intent gone waiter entry =
    let block = get_latch entry in
    let (next, woken, remove) =
      transfer_latch_guard gone
        (record block { intent_waiters = block.intent_waiters ++ waiter ∷ [] }) in
    (some next, woken)

-- `signal_all` on the entry of a key, with the intent waiters it wakes.
unfoldable pub signal_all : Option LatchBlock → Option LatchBlock × List ℕ
signal_all none = (none, [])
signal_all (some block) = (some (record block { intent_waiters = [] }), block.intent_waiters)

unfoldable pub put_keys : List PutRequest → List Bytes
put_keys [] = []
put_keys (p ∷ puts) = p.key ∷ put_keys puts

unfoldable pub delete_keys : List DeleteRequest → List Bytes
delete_keys [] = []
delete_keys (d ∷ deletes) = d.key ∷ delete_keys deletes

unfoldable pub collect_shard_write_keys : List PutRequest → List DeleteRequest → List Bytes
unfolding put_keys delete_keys
collect_shard_write_keys puts deletes = put_keys puts ++ delete_keys deletes
