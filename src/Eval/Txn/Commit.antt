-- ===== src/Eval/Txn/Commit.antt =====
-- What a commit leaves of an intent.
use sekas.Prelude.{
  ℕ, ◌≤◌, ◌<◌, ◌≡◌, refl, sym, ap, ◌∙◌, ◌⊎◌, inl, inr, false, Option, none, some, [], ◌∷◌, Bytes,
  arith, u64_max, bytes_eq, bytes_eq_refl, Bool-cases, if◌then◌else◌, ==_refl,
}
use sekas.Api.{TxnIntent, TxnState, ShardDesc, ok}
use sekas.Engine.Keys.{mvcc_key}
use sekas.Engine.RawDb.{RawDb, WriteOp, WriteBatch}
use sekas.Engine.Prost.{Codec, RoundTrips}
use sekas.Engine.Snapshot.{data_value, tombstone_bytes}
use sekas.Engine.Group.{GroupEngine}
use sekas.Engine.Data.{shard_desc, get, put, tombstone, delete}
use sekas.Engine.Data.Versions.{IsWellFormed}
use sekas.Engine.Data.Latest.{content_of, write-IsWellFormed}
use sekas.Engine.Data.Written.{get_stored, same_version}
use sekas.Eval.Forward.{ExecCtx, check_forward, moving_to}
use sekas.Eval.Txn.{target_intent, read_target_intent, commit_batch, commit_intent}

-- What is stored for an intent that commits; a nop stores nothing.
abbrev pub committed_bytes : TxnIntent → Option Bytes
committed_bytes intent =
    if intent.is_delete
    then some tombstone_bytes
    else elim intent.value [ none ↦ none | some v ↦ some (data_value v) ]

-- The operations of a commit.
abbrev replace_ops : ℕ → Bytes → ℕ → Bytes → WriteBatch
replace_ops c key cv stored =
    WriteOp.delete (mvcc_key c key u64_max) ∷ WriteOp.put (mvcc_key c key cv) stored ∷ []

read_target_intent-stored :
    {R : RawDb} (I : Codec TxnIntent) (e : GroupEngine R) (shard_id x : ℕ) (xs : Bytes)
    (intent : TxnIntent) {desc : ShardDesc}
    → RoundTrips I
    → shard_desc e shard_id ≡ ok desc
    → IsWellFormed R e.db desc.collection_id
    → R.get e.db (mvcc_key desc.collection_id (x ∷ xs) u64_max)
      ≡ some (data_value (I.encode_to_vec intent))
    → read_target_intent I e intent.start_version shard_id (x ∷ xs) ≡ ok (some intent)
unfolding read_target_intent target_intent data_value
read_target_intent-stored I e shard_id x xs intent trip known wf here =
    rw
      (
        get_stored e shard_id x u64_max xs _ known wf (omega arith) here (λ w val h b. b),
        trip intent,
        ==_refl intent.start_version,
      )
      refl

below_or_same : (m n : ℕ) → m ≤ n → (m < n) ⊎ (m ≡ n)
below_or_same m n h = omega (arith, h)

-- The versions of the key after the replacement.
replaced_versions :
    (R : RawDb) (db : R.Db) (c : ℕ) (key stored : Bytes) (cv : ℕ)
    → cv < u64_max
    → ((w : ℕ) (val : Bytes) → R.get db (mvcc_key c key w) ≡ some val → w < u64_max → w ≤ cv)
    → (w : ℕ) (val : Bytes)
    → R.get (R.write db (replace_ops c key cv stored)) (mvcc_key c key w) ≡ some val
    → w ≤ u64_max
    → w ≤ cv
replaced_versions R db c key stored cv bound above w val h b =
    let seen = sym (R.get-write db (replace_ops c key cv stored) (mvcc_key c key w)) ∙ h in
    elim (Bool-cases (bytes_eq (mvcc_key c key cv) (mvcc_key c key w))) [
      | inl same ↦ omega (arith, same_version c cv w key (omega (arith, bound)) b same)
      | inr other ↦ elim (Bool-cases (bytes_eq (mvcc_key c key u64_max) (mvcc_key c key w))) [
        | inl gone ↦ cc (rw (other, gone) at seen)
        | inr kept ↦ above w val (rw (other, kept) at seen) (below_max R c key w b kept)
      ]
    ]
  where
    below_max :
        (R : RawDb) (c : ℕ) (key : Bytes) (w : ℕ)
        → w ≤ u64_max
        → bytes_eq (mvcc_key c key u64_max) (mvcc_key c key w) ≡ false
        → w < u64_max
    below_max R c key w b kept = elim (below_or_same w u64_max b) [
      | inl less ↦ less
      | inr same ↦
          absurd (cc (kept, bytes_eq_refl (mvcc_key c key u64_max), ap (mvcc_key c key) same))
    ]

get_replaced :
    {R : RawDb} (e : GroupEngine R) (shard_id x cv : ℕ) (xs stored : Bytes) {desc : ShardDesc}
    → shard_desc e shard_id ≡ ok desc
    → IsWellFormed R e.db desc.collection_id
    → cv < u64_max
    → ((w : ℕ) (val : Bytes)
        → R.get e.db (mvcc_key desc.collection_id (x ∷ xs) w) ≡ some val
        → w < u64_max
        → w ≤ cv)
    → get
        (record e { db = R.write e.db (replace_ops desc.collection_id (x ∷ xs) cv stored) })
        shard_id
        (x ∷ xs)
      ≡ ok (some (record { content = content_of stored; version = cv }))
unfolding shard_desc
get_replaced {R} e shard_id x cv xs stored {desc} known wf bound above =
    get_stored (record e { db = R.write e.db (replace_ops desc.collection_id (x ∷ xs) cv stored) })
      shard_id x cv xs stored known
      (write-IsWellFormed R e.db desc.collection_id _ wf
        (tt, ((λ here. (x, xs, cv, refl, omega (arith, bound))), tt)))
      (omega (arith, bound))
      (R.get-write e.db _ (mvcc_key desc.collection_id (x ∷ xs) cv)
        ∙ (rw (bytes_eq_refl (mvcc_key desc.collection_id (x ∷ xs) cv)) refl))
      (replaced_versions R e.db desc.collection_id (x ∷ xs) stored cv bound above)

commit_batch-replace_ops :
    {R : RawDb} (I : Codec TxnIntent) (e : GroupEngine R) (shard_id cv : ℕ) (key stored : Bytes)
    (intent : TxnIntent) {desc : ShardDesc}
    → shard_desc e shard_id ≡ ok desc
    → committed_bytes intent ≡ some stored
    → commit_batch I e shard_id key intent cv ≡ ok (replace_ops desc.collection_id key cv stored)
unfolding commit_batch delete put tombstone
commit_batch-replace_ops I e shard_id cv key stored intent known h = ground (arith, known)

-- The intent of a transaction is stored, its shard is known and not moving, the collection is well
-- formed, and no committed version is newer than the commit: a commit succeeds, signals the waiters,
-- and once its batch is written, `get` returns what the intent holds at the commit's version, for a
-- delete a tombstone. The codec of intents is one that round trips.
pub commit_intent-get :
    {R : RawDb} (I : Codec TxnIntent) (ctx : ExecCtx) (e : GroupEngine R) (shard_id x cv : ℕ)
    (xs stored : Bytes) (intent : TxnIntent) {desc : ShardDesc}
    → RoundTrips I
    → ctx.move_shard_desc ≡ none
    → shard_desc e shard_id ≡ ok desc
    → IsWellFormed R e.db desc.collection_id
    → cv < u64_max
    → ((w : ℕ) (val : Bytes)
        → R.get e.db (mvcc_key desc.collection_id (x ∷ xs) w) ≡ some val
        → w < u64_max
        → w ≤ cv)
    → R.get e.db (mvcc_key desc.collection_id (x ∷ xs) u64_max)
      ≡ some (data_value (I.encode_to_vec intent))
    → committed_bytes intent ≡ some stored
    → (ops : WriteBatch) × (commit_intent I ctx e (record {
      shard_id = shard_id;
      user_key = x ∷ xs;
      start_version = intent.start_version;
      commit_version = cv;
    })
        ≡ ok (record { batch = some ops; signal = some (TxnState.committed, some cv) }))
      × (get (record e { db = R.write e.db ops }) shard_id (x ∷ xs)
          ≡ ok (some (record { content = content_of stored; version = cv })))
unfolding commit_intent check_forward moving_to
commit_intent-get I ctx e shard_id x cv xs stored intent {desc} trip still known wf bound above here
      h =
    (
      replace_ops desc.collection_id (x ∷ xs) cv stored,
      rw
          (
            still,
            read_target_intent-stored I e shard_id x xs intent trip known wf here,
            commit_batch-replace_ops I e shard_id cv (x ∷ xs) stored intent known h,
          )
          refl,
      get_replaced e shard_id x cv xs stored known wf bound above,
    )
