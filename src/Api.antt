-- ===== src/Api.antt =====
-- The protocol messages that the server and the client exchange (src/api/sekas/server/v1/*.proto,
-- src/api/src/*.rs, src/server/proto/v1/metadata.proto), and the errors of src/server/src/error.rs.
-- An enum field of a message is open: `unrecognized n` is a number that no constructor has.
use sekas.Prelude.{ℕ, ◌≡◌, refl, arith, Bytes, Bool, true, false, Option, none, some, List}

-- A value of one key; `content` is absent in a tombstone.
pub record Value : Type 0 where
  pub content : Option Bytes
  pub version : ℕ

unfoldable pub tombstone_value : ℕ → Value
tombstone_value version = record { content = none; version = version }

unfoldable pub with_value : Bytes → ℕ → Value
with_value content version = record { content = some content; version = version }

pub record ValueSet : Type 0 where
  pub user_key : Bytes
  pub values : List Value

pub data WriteConditionType : Type 0 where
  expect_exists expect_not_exists expect_value : WriteConditionType
  expect_version expect_version_lt expect_version_le : WriteConditionType
  expect_version_gt expect_version_ge : WriteConditionType
  expect_starts_with expect_ends_with expect_slice expect_contains : WriteConditionType
  unrecognized : ℕ → WriteConditionType

pub record WriteCondition : Type 0 where
  pub kind : WriteConditionType
  pub value : Bytes
  pub version : ℕ
  pub begin : ℕ

pub data PutType : Type 0 where
  plain add_i64 nop : PutType
  unrecognized : ℕ → PutType

pub record PutRequest : Type 0 where
  pub put_type : PutType
  pub key : Bytes
  pub value : Bytes
  pub ttl : ℕ
  pub conditions : List WriteCondition
  pub take_prev_value : Bool

pub record DeleteRequest : Type 0 where
  pub key : Bytes
  pub conditions : List WriteCondition
  pub take_prev_value : Bool

pub data WriteRequest : Type 0 where
  delete : DeleteRequest → WriteRequest
  put : PutRequest → WriteRequest

unfoldable pub user_key : WriteRequest → Bytes
user_key (put p) = p.key
user_key (delete d) = d.key

-- The record that a transaction leaves under a key until it commits or aborts.
pub record TxnIntent : Type 0 where
  pub start_version : ℕ
  pub is_delete : Bool
  pub value : Option Bytes

unfoldable pub tombstone_intent : ℕ → TxnIntent
tombstone_intent start_version = record {
  start_version = start_version;
  is_delete = true;
  value = none;
}

unfoldable pub with_put : ℕ → Option Bytes → TxnIntent
with_put start_version value = record {
  start_version = start_version;
  is_delete = false;
  value = value;
}

pub data TxnState : Type 0 where
  running committed aborted : TxnState

pub record RangePartition : Type 0 where
  pub start : Bytes
  pub stop : Bytes

pub record ShardDesc : Type 0 where
  pub id : ℕ
  pub collection_id : ℕ
  pub range : Option RangePartition

pub data ReplicaRole : Type 0 where
  voter learner incoming_voter demoting_voter : ReplicaRole
  unrecognized : ℕ → ReplicaRole

pub record ReplicaDesc : Type 0 where
  pub id : ℕ
  pub node_id : ℕ
  pub role : ReplicaRole

pub record GroupDesc : Type 0 where
  pub id : ℕ
  pub epoch : ℕ
  pub shards : List ShardDesc
  pub replicas : List ReplicaDesc

pub record MoveShardDesc : Type 0 where
  pub shard_desc : Option ShardDesc
  pub src_group_id : ℕ
  pub src_group_epoch : ℕ
  pub dest_group_id : ℕ
  pub dest_group_epoch : ℕ

pub data MoveShardStep : Type 0 where
  prepare moving moved finished aborted : MoveShardStep
  unrecognized : ℕ → MoveShardStep

pub record MoveShardState : Type 0 where
  pub move_shard : Option MoveShardDesc
  pub last_moved_key : Option Bytes
  pub step : MoveShardStep

-- The position of a log entry; also the state that an apply reached.
pub record EntryId : Type 0 where
  pub index : ℕ
  pub term : ℕ

pub record ForwardCtx : Type 0 where
  pub shard_id : ℕ
  pub dest_group_id : ℕ
  pub payloads : List ValueSet

-- The errors of the raft library's storage (`raft::StorageError`).
pub data StoreError : Type 0 where
  compacted snapshot_temporarily_unavailable other : StoreError

pub data Error : Type 0 where
  invalid_argument invalid_data : Error
  cas_failed : ℕ → ℕ → Option Value → Error
  forward : ForwardCtx → Error
  shard_not_found : ℕ → Error
  not_leader : ℕ → ℕ → Option ReplicaDesc → Error
  group_not_ready : ℕ → Error
  epoch_not_match : GroupDesc → Error
  service_is_busy : Error
  raft : StoreError → Error
  not_root_leader already_exists : Error

-- `Result<A>` of a function that may also panic.
pub data Result {ℓ} (A : Type ℓ) : Type ℓ where
  ok : A → Result A
  err : Error → Result A
  panicked : Result A

infixl 5 ◌>>=◌ ◌>>◌
abbrev pub ◌>>=◌ {ℓ κ} : {A : Type ℓ} {B : Type κ} → Result A → (A → Result B) → Result B
ok a >>= f = f a
err e >>= f = err e
panicked >>= f = panicked

-- The steps of a sequence that succeeds.
pub bind_ok {ℓ κ} :
    {A : Type ℓ} {B : Type κ} (r : Result A) (f : A → Result B) (b : B)
    → (r >>= f) ≡ ok b
    → (a : A) × (r ≡ ok a) × (f a ≡ ok b)
bind_ok (ok a) f b e = (a, refl, e)
bind_ok (err x) f b e = absurd (ground (arith, e))
bind_ok panicked f b e = absurd (ground (arith, e))

abbrev pub ◌>>◌ {ℓ κ} : {A : Type ℓ} {B : Type κ} → Result A → Result B → Result B
m >> k = m >>= λ _. k

-- `Option::ok_or_else`, and `Option::unwrap` or `expect`.
abbrev pub ok_or {ℓ} : {A : Type ℓ} → Option A → Error → Result A
ok_or none e = err e
ok_or (some a) e = ok a

abbrev pub expect {ℓ} : {A : Type ℓ} → Option A → Result A
expect none = panicked
expect (some a) = ok a

-- `get_move_shard_desc` and `get_shard_desc` panic where the message lacks the part.
unfoldable pub get_move_shard_desc : MoveShardState → Result MoveShardDesc
get_move_shard_desc s = expect s.move_shard

unfoldable pub get_shard_desc : MoveShardState → Result ShardDesc
unfolding get_move_shard_desc
get_shard_desc s = do desc ← get_move_shard_desc s; expect desc.shard_desc
