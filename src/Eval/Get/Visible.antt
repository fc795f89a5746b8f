-- ===== src/Eval/Get/Visible.antt =====
-- What a read at a version sees of a key.
use sekas.Prelude.{
  ℕ, ◌≤◌, ◌<◌, ◌≡◌, refl, sym, ap, ◌∙◌, inl, inr, false, Option, none, some, List, [], ◌∷◌, Bytes,
  arith, u64_max, All, All-mono, ==_iff, leb, ◌==◌, if◌then◌else◌, Bool-cases, Option-cases,
}
use sekas.Api.{Value, TxnIntent, ShardDesc, invalid_data, Result, ok, err, panicked, ◌>>=◌, ok_or}
use sekas.Schema.{txn_intent_version}
use sekas.Engine.Keys.{mvcc_key, version_of}
use sekas.Engine.Keys.Decode.{version_of-mvcc_key}
use sekas.Engine.RawDb.{RawDb}
use sekas.Engine.Prost.{Codec}
use sekas.Engine.Snapshot.{MvccEntry, entry_version, entry_value, to_value}
use sekas.Engine.Group.{GroupEngine}
use sekas.Engine.Data.{shard_desc}
use sekas.Engine.Data.Versions.{
  AreVersions, IsWellFormed, HasEntry, IsNewestFirst, key_entries-AreVersions,
}
use sekas.Engine.Data.Latest.{content_of, version_le_first}
use sekas.Eval.Get.{Resolve, serves, read_entries, read_key}

-- An entry is a stored version of the key.
abbrev IsStoredEntry : (R : RawDb) → R.Db → ℕ → Bytes → MvccEntry → Type 0
IsStoredEntry R db c key e =
    (R.get db e.key ≡ some e.value)
    × (e.key ≡ mvcc_key c key (entry_version e))
    × (entry_version e ≤ u64_max)

-- Whether a version is committed and not newer than a reader.
abbrev pub IsSeen : ℕ → ℕ → Type 0
IsSeen start_version v = (v ≤ start_version) × (v < u64_max)

-- `o` is the newest committed version of the key up to `start_version`.
abbrev pub IsVisible : (R : RawDb) → R.Db → ℕ → Bytes → ℕ → Option Value → Type 0
IsVisible R db c key start_version none =
    (v : ℕ) (val : Bytes) → R.get db (mvcc_key c key v) ≡ some val → IsSeen start_version v → ⊥
IsVisible R db c key start_version (some o) =
    ((val : Bytes) × (R.get db (mvcc_key c key o.version) ≡ some val)
      × (o.content ≡ content_of val)
      × IsSeen start_version o.version)
    × ((v : ℕ) (val : Bytes)
        → R.get db (mvcc_key c key v) ≡ some val
        → IsSeen start_version v
        → v ≤ o.version)

-- The same among entries.
abbrev VisibleAmong : (R : RawDb) → R.Db → ℕ → Bytes → ℕ → List MvccEntry → Option Value → Type 0
VisibleAmong R db c key s es none =
    (v : ℕ) (val : Bytes) → HasEntry (mvcc_key c key v) val es → IsSeen s v → ⊥
VisibleAmong R db c key s es (some o) =
    ((val : Bytes) × (R.get db (mvcc_key c key o.version) ≡ some val)
      × (o.content ≡ content_of val)
      × IsSeen s o.version)
    × ((v : ℕ) (val : Bytes) → HasEntry (mvcc_key c key v) val es → IsSeen s v → v ≤ o.version)

entry_is_version :
    (c v : ℕ) (key : Bytes) (e : MvccEntry)
    → v ≤ u64_max
    → mvcc_key c key v ≡ e.key
    → v ≡ entry_version e
unfolding entry_version
entry_is_version c v key e b h = sym (version_of-mvcc_key c key v b) ∙ ap version_of h

-- An entry that is not seen in front of others changes nothing.
VisibleAmong-later :
    (R : RawDb) (db : R.Db) (c : ℕ) (key : Bytes) (s : ℕ) (e : MvccEntry) (es : List MvccEntry)
    → (IsSeen s (entry_version e) → ⊥)
    → (o : Option Value) → VisibleAmong R db c key s es o
    → VisibleAmong R db c key s (e ∷ es) o
VisibleAmong-later R db c key s e es unseen none a = go
  where
    go : (v : ℕ) (val : Bytes) → HasEntry (mvcc_key c key v) val (e ∷ es) → IsSeen s v → ⊥
    go v val (inl h) seen =
        let same : v ≡ entry_version e = entry_is_version c v key e (omega (arith, seen.1)) h.0 in
        unseen (omega (arith, same, seen.0), omega (arith, same, seen.1))
    go v val (inr h) seen = a v val h seen
VisibleAmong-later R db c key s e es unseen (some o) a = (a.0, go)
  where
    go :
        (v : ℕ) (val : Bytes)
        → HasEntry (mvcc_key c key v) val (e ∷ es)
        → IsSeen s v
        → v ≤ o.version
    go v val (inl h) seen =
        let same : v ≡ entry_version e = entry_is_version c v key e (omega (arith, seen.1)) h.0 in
        absurd (unseen (omega (arith, same, seen.0), omega (arith, same, seen.1)))
    go v val (inr h) seen = a.1 v val h seen

-- Entries none of which is an intent.
read_entries-VisibleAmong :
    (R : RawDb) (db : R.Db) (c : ℕ) (I : Codec TxnIntent) (resolve_txn : Resolve) (shard_id : ℕ)
    (key : Bytes) (s : ℕ) (es : List MvccEntry)
    → All (IsStoredEntry R db c key) es
    → IsNewestFirst es
    → All (λ e. entry_version e < u64_max) es
    → (o : Option Value) × (read_entries I resolve_txn shard_id key s es ≡ ok o)
      × VisibleAmong R db c key s es o
unfolding read_entries to_value entry_value
read_entries-VisibleAmong R db c I resolve_txn shard_id key s [] st n b =
    (none, refl, λ v val h seen. h)
read_entries-VisibleAmong R db c I resolve_txn shard_id key s (e ∷ es) st n b =
    let (o, ran, a) =
      read_entries-VisibleAmong R db c I resolve_txn shard_id key s es st.1 n.1 b.1 in
    let committed : (entry_version e == txn_intent_version) ≡ false = ground (arith, b.0) in
    elim (Bool-cases (leb (entry_version e) s)) [
      | inl seen ↦ (
        some (to_value e),
        rw (committed, seen) refl,
        (
          (e.value, ap (R.get db) (sym st.0.1) ∙ st.0.0, refl, (ground (arith, seen), b.0)),
          λ v val h t. version_le_first c key val v e es (omega (arith, t.1)) n h,
        ),
      )
      | inr newer ↦ (
        o,
        rw (committed, newer) ran,
        VisibleAmong-later R db c key s e es (λ t. ground (arith, newer, t.0)) o a,
      )
    ]

-- What a reader sees once an intent is resolved: the value, unless it is newer than the reader.
abbrev pub or_resolved : ℕ → Option Value → Option Value → Option Value
or_resolved s o none = o
or_resolved s o (some v) = if leb v.version s then some v else o

-- A read with the intent that is stored at the largest version: `o` is what it sees otherwise.
abbrev pub with_intent :
    Codec TxnIntent → Resolve → ℕ → Bytes → ℕ → Option Bytes → Option Value → Result (Option Value)
with_intent I resolve_txn shard_id key s none o = ok o
with_intent I resolve_txn shard_id key s (some stored) o = do
  value ← ok_or (content_of stored) invalid_data
  intent ← ok_or (I.decode value) invalid_data
  if leb intent.start_version s
      then (do
        resolved ← resolve_txn shard_id key s intent.start_version
        ok (or_resolved s o resolved))
      else ok o

resolved-serves :
    (s : ℕ) (o : Option Value) (r : Result (Option Value))
    → (r >>= λ resolved. if serves s resolved then ok resolved else ok o)
      ≡ (r >>= λ resolved. ok (or_resolved s o resolved))
unfolding serves
resolved-serves s o (ok none) = refl
resolved-serves s o (ok (some v)) = ground arith
resolved-serves s o (err e) = refl
resolved-serves s o panicked = refl

resolved_intent :
    (I : Codec TxnIntent) (resolve_txn : Resolve) (shard_id : ℕ) (key : Bytes) (s : ℕ)
    (o : Option Value) (content : Option Bytes)
    → (do
      value ← ok_or content invalid_data
      intent ← ok_or (I.decode value) invalid_data
      if leb intent.start_version s
          then (do
            resolved ← resolve_txn shard_id key s intent.start_version
            if serves s resolved then ok resolved else ok o)
          else ok o)
      ≡ (do
        value ← ok_or content invalid_data
        intent ← ok_or (I.decode value) invalid_data
        if leb intent.start_version s
            then (do
              resolved ← resolve_txn shard_id key s intent.start_version
              ok (or_resolved s o resolved))
            else ok o)
resolved_intent I resolve_txn shard_id key s o none = refl
resolved_intent I resolve_txn shard_id key s o (some value) = elim (Option-cases (I.decode value)) [
  | inl broken ↦ rw broken refl
  | inr (intent, decoded) ↦ rw decoded (
      ap (λ r. if leb intent.start_version s then r else ok o)
        (resolved-serves s o (resolve_txn shard_id key s intent.start_version)))
]

pub below_first :
    (e : MvccEntry) (es : List MvccEntry)
    → entry_version e < u64_max
    → All (λ f. entry_version f < entry_version e) es
    → All (λ f. entry_version f < u64_max) es
below_first e es b a = All-mono es (λ f less. omega (arith, less, b)) a

VisibleAmong-all :
    (R : RawDb) (db : R.Db) (c : ℕ) (key : Bytes) (s : ℕ) (es : List MvccEntry)
    → AreVersions R db c key es
    → (o : Option Value) → VisibleAmong R db c key s es o
    → IsVisible R db c key s o
VisibleAmong-all R db c key s es a none v =
    λ w val h seen. v w val (a.complete w val h (omega (arith, seen.1))) seen
VisibleAmong-all R db c key s es a (some o) v =
    (v.0, λ w val h seen. v.1 w val (a.complete w val h (omega (arith, seen.1))) seen)

has_no_max :
    (c : ℕ) (key val : Bytes) (es : List MvccEntry)
    → All (λ e. entry_version e < u64_max) es
    → HasEntry (mvcc_key c key u64_max) val es
    → ⊥
has_no_max c key val [] b h = h
has_no_max c key val (e ∷ es) b (inl h) =
    omega (arith, b.0, entry_is_version c u64_max key e (omega arith) h.0)
has_no_max c key val (e ∷ es) b (inr h) = has_no_max c key val es b.1 h

-- Nothing is stored at the largest version if no entry has it.
pub no_intent :
    (R : RawDb) (db : R.Db) (c : ℕ) (key : Bytes) (es : List MvccEntry)
    → AreVersions R db c key es
    → All (λ e. entry_version e < u64_max) es
    → R.get db (mvcc_key c key u64_max) ≡ none
no_intent R db c key es a b = elim (Option-cases (R.get db (mvcc_key c key u64_max))) [
  | inl free ↦ free
  | inr (val, there) ↦
      absurd (has_no_max c key val es b (a.complete u64_max val there (omega arith)))
]

-- The entries of a key, read with the intent that they may begin with.
read_entries-with_intent :
    (R : RawDb) (db : R.Db) (c : ℕ) (I : Codec TxnIntent) (resolve_txn : Resolve) (shard_id : ℕ)
    (key : Bytes) (s : ℕ) (es : List MvccEntry)
    → AreVersions R db c key es
    → (o : Option Value) × (read_entries I resolve_txn shard_id key s es
        ≡ with_intent I resolve_txn shard_id key s (R.get db (mvcc_key c key u64_max)) o)
      × IsVisible R db c key s o
unfolding read_entries entry_value
read_entries-with_intent R db c I resolve_txn shard_id key s [] a = (
  none,
  rw (no_intent R db c key [] a tt) refl,
  λ v val h seen. a.complete v val h (omega (arith, seen.1)),
)
read_entries-with_intent R db c I resolve_txn shard_id key s (e ∷ es) a =
    elim (Bool-cases (entry_version e == txn_intent_version)) [
      | inl intent ↦
          let at_max : entry_version e ≡ u64_max = (==_iff (entry_version e) u64_max).0 intent in
          let (o, ran, v) =
            read_entries-VisibleAmong R db c I resolve_txn shard_id key s es a.sound.1
              a.newest_first.1
              (All-mono es (λ f less. omega (arith, less, at_max)) a.newest_first.0) in
          let stored : R.get db (mvcc_key c key u64_max) ≡ some e.value =
            ap (λ n. R.get db (mvcc_key c key n)) (sym at_max)
            ∙ ap (R.get db) (sym a.sound.0.1)
            ∙ a.sound.0.0 in
          (
            o,
            rw (intent, stored, ran)
                (resolved_intent I resolve_txn shard_id key s o (content_of e.value)),
            VisibleAmong-all R db c key s (e ∷ es) a o
                (VisibleAmong-later R db c key s e es (λ seen. omega (arith, seen.1, at_max)) o v),
          )
      | inr committed ↦
          let small : All (λ f. entry_version f < u64_max) (e ∷ es) = (
            ground (arith, committed, a.sound.0.2),
            below_first e es (ground (arith, committed, a.sound.0.2)) a.newest_first.0,
          ) in
          let (o, ran, v) =
            read_entries-VisibleAmong R db c I resolve_txn shard_id key s (e ∷ es) a.sound
              a.newest_first small in
          (
            o,
            ran ∙ sym (rw (no_intent R db c key (e ∷ es) a small) refl),
            VisibleAmong-all R db c key s (e ∷ es) a o v,
          )
    ]

-- A read of a key that is not empty, in a known shard whose collection is well formed, returns the
-- newest committed version up to the version of the reader, unless an intent that is not newer than
-- the reader resolves to a value that is not newer either; then it returns that. It fails only as the
-- intent cannot be decoded or resolved.
pub read_key-IsVisible :
    {R : RawDb} (I : Codec TxnIntent) (resolve_txn : Resolve) (e : GroupEngine R) (shard_id x : ℕ)
    (xs : Bytes) (s : ℕ) {desc : ShardDesc}
    → shard_desc e shard_id ≡ ok desc
    → IsWellFormed R e.db desc.collection_id
    → (o : Option Value) × (read_key I resolve_txn e shard_id (x ∷ xs) s
        ≡ with_intent I resolve_txn shard_id
            (x ∷ xs)
            s
            (R.get e.db (mvcc_key desc.collection_id (x ∷ xs) u64_max))
            o)
      × IsVisible R e.db desc.collection_id (x ∷ xs) s o
unfolding read_key
read_key-IsVisible {R} I resolve_txn e shard_id x xs s {desc} known wf =
    let (es, read, versions) = key_entries-AreVersions e shard_id x xs known wf in
    let (o, ran, v) =
      read_entries-with_intent R e.db desc.collection_id I resolve_txn shard_id (x ∷ xs) s es
        versions in
    (o, rw read ran, v)
