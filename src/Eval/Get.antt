-- ===== src/Eval/Get.antt =====
-- The read of one key at a version (src/server/src/replica/eval/cmd_get.rs). `resolve_txn` of the
-- latch manager is a parameter: the read keeps its snapshot whatever it does to the engine.
pub mod Visible
use sekas.Prelude.{
  ℕ, Bool, true, false, Option, none, some, List, [], ◌∷◌, Bytes, leb, ◌==◌, if◌then◌else◌,
}
use sekas.Api.{Value, TxnIntent, Error, invalid_data, Result, ok, err, ◌>>=◌, ◌>>◌, ok_or}
use sekas.Schema.{txn_intent_version}
use sekas.Engine.RawDb.{RawDb}
use sekas.Engine.Prost.{Codec}
use sekas.Engine.Snapshot.{MvccEntry, entry_version, entry_value, to_value}
use sekas.Engine.Group.{GroupEngine}
use sekas.Engine.Data.{key_entries}
use sekas.Eval.Forward.{ExecCtx, check_forward}

-- `LatchManager::resolve_txn`: shard, key, version of the reader, version of the intent.
abbrev pub Resolve : Type 0
Resolve = ℕ → Bytes → ℕ → ℕ → Result (Option Value)

pub record ShardGetRequest : Type 0 where
  pub shard_id : ℕ
  pub start_version : ℕ
  pub user_key : Bytes

-- A resolved value serves the read if it is not newer than the reader.
unfoldable pub serves : ℕ → Option Value → Bool
serves start_version none = false
serves start_version (some v) = leb v.version start_version

module _ (I : Codec TxnIntent) (resolve_txn : Resolve) (shard_id : ℕ) (key : Bytes)
    (start_version : ℕ) where
  -- The loop of `read_key` over the versions of the key.
  unfoldable pub read_entries : List MvccEntry → Result (Option Value)
  unfolding serves
  read_entries [] = ok none
  read_entries (entry ∷ entries) =
      let rest = read_entries entries in
      if entry_version entry == txn_intent_version
      then (do
        value ← ok_or (entry_value entry) invalid_data
        intent ← ok_or (I.decode value) invalid_data
        if leb intent.start_version start_version
            then (do
              resolved ← resolve_txn shard_id key start_version intent.start_version
              if serves start_version resolved then ok resolved else rest)
            else rest)
      else if leb (entry_version entry) start_version
      then ok (some (to_value entry))
      else rest

module _ {R : RawDb} (I : Codec TxnIntent) (resolve_txn : Resolve) where
  unfoldable pub read_key : GroupEngine R → ℕ → Bytes → ℕ → Result (Option Value)
  unfolding read_entries
  read_key e shard_id key start_version = do
    entries ← key_entries e shard_id key
    read_entries I resolve_txn shard_id key start_version entries

  unfoldable pub get : ExecCtx → GroupEngine R → ShardGetRequest → Result (Option Value)
  unfolding read_key check_forward
  get ctx e req = do
    check_forward ctx e req.shard_id (req.user_key ∷ [])
    read_key e req.shard_id req.user_key req.start_version
