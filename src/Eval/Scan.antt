-- ===== src/Eval/Scan.antt =====
-- The scan of a shard, and how the scans of both sides of a moving shard are merged
-- (src/server/src/replica/eval/cmd_scan.rs).
pub mod Merge
pub mod Sizes
pub mod Limits
use sekas.Prelude.{
  ℕ, zero, suc, ◌+◌, Bool, true, false, not, ◌&&◌, ◌||◌, Option, none, some, List, [], ◌∷◌, ◌++◌,
  Bytes, length, bytes_eq, bytes_lt, ltb, leb, is_empty, ◌==◌, if◌then◌else◌,
}
use sekas.Api.{
  Value, ValueSet, TxnIntent, Error, invalid_data, forward, MoveShardDesc, Result, ok, err, ◌>>=◌,
  ok_or, expect,
}
use sekas.Schema.{txn_intent_version}
use sekas.Engine.RawDb.{RawDb}
use sekas.Engine.Prost.{Codec}
use sekas.Engine.Snapshot.{MvccEntry, entry_version, entry_value, Snapshot, next, next_entry}
use sekas.Engine.Group.{GroupEngine}
use sekas.Engine.Data.{SnapshotMode, start, prefix, snapshot}
use sekas.Eval.Forward.{ExecCtx, moving_to}
use sekas.Eval.Get.{Resolve}

pub record ShardScanRequest : Type 0 where
  pub shard_id : ℕ
  pub start_version : ℕ
  pub limit : ℕ
  pub limit_bytes : ℕ
  pub exclude_start_key : Bool
  pub exclude_end_key : Bool
  pub prefix : Option Bytes
  pub start_key : Option Bytes
  pub end_key : Option Bytes
  pub include_raw_data : Bool
  pub ignore_txn_intent : Bool
  pub allow_scan_moving_shard : Bool

pub record ShardScanResponse : Type 0 where
  pub value_sets : List ValueSet
  pub has_more : Bool

-- The loop of `merge_scan_response`; the values of the source behind the last one of a target that
-- has more are left for the next scan.
unfoldable pub merge_data : Bool → List ValueSet → List ValueSet → List ValueSet
merge_data target_has_more [] source = if not target_has_more then source else []
merge_data target_has_more (x ∷ xs) [] = x ∷ xs
merge_data target_has_more (x ∷ xs) (y ∷ ys) =
    let both = merge_data target_has_more xs ys in
    let target_first = merge_data target_has_more xs (y ∷ ys) in
    let source_first = merge_data target_has_more (x ∷ xs) ys in
    if bytes_eq x.user_key y.user_key
    then x ∷ both
    else if bytes_lt x.user_key y.user_key
    then x ∷ target_first
    else y ∷ source_first

unfoldable pub merge_scan_response : ShardScanResponse → ShardScanResponse → ShardScanResponse
unfolding merge_data
merge_scan_response target source = record {
  value_sets = merge_data target.has_more target.value_sets source.value_sets;
  has_more = target.has_more || source.has_more;
}

unfoldable pub is_equals : Option Bytes → Bytes → Bool
is_equals none user_key = false
is_equals (some target) user_key = bytes_eq target user_key

unfoldable pub is_exceeds : Option Bytes → Bytes → Bool
is_exceeds none user_key = false
is_exceeds (some target) user_key = bytes_lt target user_key

unfoldable pub is_exclude_boundary : ShardScanRequest → Bytes → Bool
unfolding is_equals
is_exclude_boundary req user_key =
    (req.exclude_start_key && is_equals req.start_key user_key)
    || (req.exclude_end_key && is_equals req.end_key user_key)

-- What the loop of `scan_value_set` makes of an entry.
pub data Visit : Type 0 where
  skipped : Visit
  seen : Option Bytes → ℕ → Visit

-- The values and their bytes after an entry.
unfoldable pub push_value : ShardScanRequest → Option Bytes → ℕ → List Value × ℕ → List Value × ℕ
push_value req (some value) version (values, total_bytes) =
    (values ++ record { content = some value; version = version } ∷ [], total_bytes + length value)
push_value req none version (values, total_bytes) =
    if req.include_raw_data
    then (values ++ record { content = none; version = version } ∷ [], total_bytes)
    else (values, total_bytes)

unfoldable pub value_set_of : Bytes → List Value × ℕ → Option (ValueSet × ℕ)
value_set_of user_key (values, total_bytes) =
    if is_empty values
    then none
    else some (record { user_key = user_key; values = values }, total_bytes + length user_key)

module _ (I : Codec TxnIntent) (resolve : Resolve) where
  -- The function `resolve_txn` of the file.
  unfoldable pub resolve_txn : ℕ → ℕ → Bytes → Bytes → Result (Option (Option Bytes × ℕ))
  resolve_txn shard_id start_version user_key encoded = do
    intent ← ok_or (I.decode encoded) invalid_data
    if ltb start_version intent.start_version then ok none else (do
      resolved ← resolve shard_id user_key start_version intent.start_version
      elim resolved [
        | none ↦ ok none
        | some v ↦ if ltb start_version v.version then ok none else ok (some (v.content, v.version))
      ])

  unfoldable pub visit : ShardScanRequest → MvccEntry → Result Visit
  unfolding resolve_txn
  visit req entry =
      if (entry_version entry == txn_intent_version) && not req.ignore_txn_intent
      then (do
        value ← ok_or (entry_value entry) invalid_data
        resolved ← resolve_txn req.shard_id req.start_version entry.user_key value
        elim resolved [ none ↦ ok skipped | some r ↦ ok (seen r.0 r.1) ])
      else if ltb req.start_version (entry_version entry)
      then ok skipped
      else ok (seen (entry_value entry) (entry_version entry))

  -- The loop of `scan_value_set` over the entries of the key, with what is left of the snapshot.
  unfoldable pub scan_value_set :
      ℕ
      → ShardScanRequest
      → Bytes
      → List Value × ℕ
      → Snapshot
      → Result (Snapshot × Option (ValueSet × ℕ))
  unfolding next_entry is_exclude_boundary visit push_value value_set_of
  scan_value_set zero req user_key found s = ok (s, value_set_of user_key found)
  scan_value_set (suc fuel) req user_key found s =
      let (s', entry) = next_entry s in
      elim entry [
        | none ↦ ok (s', value_set_of user_key found)
        | some e ↦ if is_exclude_boundary req e.user_key then ok (s', none) else (do
          visited ← visit req e
          elim visited [
            | skipped ↦ scan_value_set fuel req user_key found s'
            | seen value version ↦
                (let more = push_value req value version found in
                  let later = scan_value_set fuel req user_key more s' in
                  if req.include_raw_data then later else ok (s', value_set_of user_key more))
          ])
      ]

  -- Whether the data reach a limit.
  unfoldable pub is_full : ShardScanRequest → List ValueSet → ℕ → Bool
  is_full req found total_bytes =
      (not (req.limit == 0) && (req.limit == length found))
      || (not (req.limit_bytes == 0) && leb req.limit_bytes total_bytes)

  -- The loop of `scan_inner`; each round but the last consumes an entry of the snapshot.
  unfoldable pub scan_from :
      ℕ → ShardScanRequest → List ValueSet → ℕ → Snapshot → Result ShardScanResponse
  unfolding next is_exceeds scan_value_set is_full
  scan_from zero req found total_bytes s = ok record { value_sets = found; has_more = false }
  scan_from (suc fuel) req found total_bytes s =
      let (s', has_next) = next s in
      elim (if has_next then s'.current_key else none) [
        | none ↦ ok record { value_sets = found; has_more = false }
        | some user_key ↦
            if is_exceeds req.end_key user_key
            then ok record { value_sets = found; has_more = false }
            else (scan_value_set (length s'.db_iter + 2) req user_key ([], 0) s' >>= λ r. elim r.1 [
              | none ↦ scan_from fuel req found total_bytes r.0
              | some v ↦
                  (let found' = found ++ v.0 ∷ [] in
                    let total = total_bytes + v.1 in
                    let later = scan_from fuel req found' total r.0 in
                    if is_full req found' total
                    then ok record { value_sets = found'; has_more = true }
                    else later)
            ])
      ]

  unfoldable pub scan_inner : ShardScanRequest → Snapshot → Result ShardScanResponse
  unfolding scan_from
  scan_inner req s = scan_from (length s.db_iter + 2) req [] 0 s

-- The group that the shard moves to, if it moves from the group of the replica.
unfoldable pub scan_destination : ExecCtx → ℕ → Result (Option ℕ)
scan_destination ctx shard_id = elim ctx.move_shard_desc [
  | none ↦ ok none
  | some desc ↦ do
    shard ← expect desc.shard_desc
    ok (
        if (shard.id == shard_id) && (desc.src_group_id == ctx.group_id)
        then some desc.dest_group_id
        else none)
]

-- A scan with a prefix takes the keys at both ends.
unfoldable pub scan_request : ShardScanRequest → ShardScanRequest
scan_request req = elim req.prefix [
  | none ↦ req
  | some key ↦ record req { exclude_end_key = false; exclude_start_key = false }
]

unfoldable pub scan_mode : ShardScanRequest → SnapshotMode
scan_mode req = elim req.prefix [ none ↦ start req.start_key | some key ↦ SnapshotMode.prefix key ]

module _ {R : RawDb} (I : Codec TxnIntent) (resolve : Resolve) where
  unfoldable pub scan : ExecCtx → GroupEngine R → ShardScanRequest → Result ShardScanResponse
  unfolding scan_destination scan_request scan_mode scan_inner snapshot
  scan ctx e req = do
    destination ← if req.allow_scan_moving_shard then ok none else scan_destination ctx req.shard_id
    elim destination [
      | some dest ↦
          err (forward (record { shard_id = req.shard_id; dest_group_id = dest; payloads = [] }))
      | none ↦ do
        s ← snapshot e req.shard_id (scan_mode req)
        scan_inner I resolve (scan_request req) s
    ]
