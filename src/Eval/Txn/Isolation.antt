-- ===== src/Eval/Txn/Isolation.antt =====
-- A transaction never writes over the intent of another one.
use sekas.Prelude.{
  ℕ, ◌≡◌, refl, ap, ◌∙◌, ◌⊎◌, inl, inr, Bool, true, Option, none, some, List, [], ◌∷◌, Bytes, arith,
  subst, Bool-cases, Option-cases, ==_iff, sym, u64_max, ◌<◌, ◌==◌,
}
use sekas.Api.{Value, TxnIntent, WriteRequest, user_key, Result, ok, ◌>>=◌}
use sekas.Engine.RawDb.{RawDb}
use sekas.Engine.Prost.{Codec}
use sekas.Engine.Group.{GroupEngine}
use sekas.Eval.Forward.{ExecCtx}
use sekas.Schema.{txn_intent_version}
use sekas.Api.{ShardDesc, invalid_data, ok_or}
use sekas.Engine.Keys.{mvcc_key}
use sekas.Engine.Snapshot.{MvccEntry, entry_version, entry_value}
use sekas.Engine.Data.{shard_desc}
use sekas.Engine.Data.Versions.{AreVersions, IsWellFormed, key_entries-AreVersions}
use sekas.Engine.Data.Latest.{content_of}
use sekas.Eval.Get.Visible.{no_intent, below_first}
use sekas.Eval.Txn.{intent_and_next, second_value, Written, read_intent_and_next_key, write_intent}
use sekas.Eval.Txn.Freed.{IsFreeFor, some_ne, some_inj, write_intent-IsFreed}

-- The intent of a transaction is stored under a key.
abbrev pub HasIntent : (R : RawDb) → Codec TxnIntent → R.Db → ℕ → Bytes → ℕ → Type 0
HasIntent R I db c key start_version =
    (stored : Bytes) × (content : Bytes) × (intent : TxnIntent) × (R.get db (mvcc_key c key u64_max)
      ≡ some stored)
    × (content_of stored ≡ some content)
    × (I.decode content ≡ some intent)
    × (intent.start_version ≡ start_version)

-- No intent is stored under the key, or that of the transaction is, and then nothing is written.
abbrev pub IsIsolated : {R : RawDb} → Codec TxnIntent → ℕ → ℕ → Bytes → Written R → Type 0
IsIsolated {R} I start_version c key w =
    (R.get w.engine.db (mvcc_key c key u64_max) ≡ none)
    ⊎ (HasIntent R I w.engine.db c key start_version × (w.batch ≡ []))

entry_content :
    (e : MvccEntry) (content : Bytes)
    → entry_value e ≡ some content
    → content_of e.value ≡ some content
unfolding entry_value
entry_content e content h = h

-- An intent that is read is decoded from the content.
decoded_intent :
    (I : Codec TxnIntent) (stored : Option Bytes) (next : Option Value)
    (r : Option TxnIntent × Option Value)
    → (do
      content ← ok_or stored invalid_data
      intent ← ok_or (I.decode content) invalid_data
      ok (some intent, next))
      ≡ ok r
    → (content : Bytes) × (intent : TxnIntent) × (stored ≡ some content)
      × (I.decode content ≡ some intent)
      × (r.0 ≡ some intent)
decoded_intent I none next r h = absurd (ground (arith, h))
decoded_intent I (some content) next r h = elim (Option-cases (I.decode content)) [
  | inl broken ↦ absurd (ground (arith, h, broken))
  | inr (intent, found) ↦ (content, intent, refl, found, ground (arith, h, found))
]

-- What `intent_and_next` tells of the entries of a key, by what is stored.
module _ (R : RawDb) (I : Codec TxnIntent) (db : R.Db) (c : ℕ) (key : Bytes) where
  unlocked :
      (es : List MvccEntry) (prev : Option Value)
      → AreVersions R db c key es
      → intent_and_next I es ≡ ok (none, prev)
      → R.get db (mvcc_key c key u64_max) ≡ none
  unfolding intent_and_next
  unlocked [] prev a h = no_intent R db c key [] a tt
  unlocked (e ∷ es) prev a h = elim (Bool-cases (entry_version e == txn_intent_version)) [
    | inl at_max ↦
        let (content, intent, stored, decoded, same) =
          decoded_intent I (entry_value e) (second_value es) (none, prev)
            (rw (intent_and_next, at_max) at h) in
        absurd (some_ne intent same)
    | inr committed ↦
        let small : entry_version e < u64_max = ground (arith, committed, a.sound.0.2) in
        no_intent R db c key (e ∷ es) a (small, below_first e es small a.newest_first.0)
  ]

  locked :
      (es : List MvccEntry) (intent : TxnIntent) (prev : Option Value)
      → AreVersions R db c key es
      → intent_and_next I es ≡ ok (some intent, prev)
      → HasIntent R I db c key intent.start_version
  unfolding intent_and_next
  locked [] intent prev a h = absurd (ground (arith, h))
  locked (e ∷ es) intent prev a h = elim (Bool-cases (entry_version e == txn_intent_version)) [
    | inl at_max ↦
        let (content, found, stored, decoded, same) =
          decoded_intent I (entry_value e) (second_value es) (some intent, prev)
            (rw (intent_and_next, at_max) at h) in
        let version : entry_version e ≡ u64_max = (==_iff (entry_version e) u64_max).0 at_max in
        (
          e.value,
          content,
          found,
          ap (λ n. R.get db (mvcc_key c key n)) (sym version)
              ∙ ap (R.get db) (sym a.sound.0.1)
              ∙ a.sound.0.0,
          entry_content e content stored,
          decoded,
          ap (λ i. i.start_version) (some_inj found intent (sym same)),
        )
    | inr committed ↦ absurd (ground (arith, committed, h))
  ]

  isolated :
      (es : List MvccEntry) (start_version : ℕ) (skip : Bool) (prev : Option Value)
      (r : Result (Option TxnIntent × Option Value))
      → AreVersions R db c key es
      → r ≡ intent_and_next I es
      → IsFreeFor start_version skip prev r
      → (R.get db (mvcc_key c key u64_max) ≡ none)
        ⊎ (HasIntent R I db c key start_version × (skip ≡ true))
  isolated es start_version skip prev r a same (inl free) =
      inl (unlocked es prev a (sym same ∙ free.1))
  isolated es start_version skip prev r a same (inr (skipped, (intent, found, own))) =
      inr (subst (HasIntent R I db c key) own (locked es intent prev a (sym same ∙ found)), skipped)

-- A write of an intent that succeeds, however many transactions it has waited for, finds its key, which
-- is not empty and of a known shard whose collection is well formed, in one of two states: no intent is
-- stored there, or the stored intent is of the same transaction, and then the batch is empty.
pub write_intent-IsIsolated :
    {R : RawDb} (I : Codec TxnIntent) (waits : List (Result (GroupEngine R))) (ctx : ExecCtx)
    (e : GroupEngine R) (write : WriteRequest) (start_version shard_id x : ℕ) (xs : Bytes)
    (w : Written R) {desc : ShardDesc}
    → user_key write ≡ x ∷ xs
    → shard_desc w.engine shard_id ≡ ok desc
    → IsWellFormed R w.engine.db desc.collection_id
    → write_intent I waits ctx e
        (record { start_version = start_version; shard_id = shard_id; write = some write })
      ≡ some (ok w)
    → IsIsolated I start_version desc.collection_id (x ∷ xs) w
unfolding read_intent_and_next_key
write_intent-IsIsolated {R} I waits ctx e write start_version shard_id x xs w {desc} at known wf h =
    let (skip, prev, free, empty) =
      write_intent-IsFreed I waits ctx e write start_version shard_id w h in
    let (es, read, versions) = key_entries-AreVersions w.engine shard_id x xs known wf in
    let found : read_intent_and_next_key I w.engine shard_id (x ∷ xs) ≡ intent_and_next I es =
      rw read refl in
    elim (isolated R I w.engine.db desc.collection_id (x ∷ xs) es start_version skip prev
      (read_intent_and_next_key I w.engine shard_id (user_key write)) versions
      (ap (read_intent_and_next_key I w.engine shard_id) at ∙ found) free) [
        | inl unlocked ↦ inl unlocked
        | inr (own, skipped) ↦ inr (own, empty skipped)
      ]
