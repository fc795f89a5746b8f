-- ===== src/Engine/Data/Latest.antt =====
-- `GroupEngine::get` returns the newest stored version of a key, and a write is read back.
use sekas.Prelude.{
  ℕ, ◌≤◌, ◌≡◌, refl, sym, ap, ◌∙◌, inl, inr, true, Option, none, some, List, [], ◌∷◌, Bytes, arith,
  bytes_eq, bytes_eq→eq, u64_max, All, drop, get_or, if◌then◌else◌, ◌==◌, Bool-cases, subst,
}
use sekas.Api.{Value, ShardDesc, ok}
use sekas.Engine.Keys.{mvcc_key, version_of}
use sekas.Engine.Keys.Decode.{version_of-mvcc_key}
use sekas.Engine.RawDb.{RawDb, WriteOp, WriteBatch, after_ops}
use sekas.Engine.Snapshot.{MvccEntry, in_collection, entry_version, entry_value, to_value}
use sekas.Engine.Group.{GroupEngine}
use sekas.Engine.Data.{shard_desc, get, first_value}
use sekas.Engine.Data.Versions.{
  AreVersions, IsWellFormed, IsVersionKey, HasEntry, IsNewestFirst, key_entries-AreVersions,
}

-- The content that a stored value stands for; a tombstone has none.
abbrev pub content_of : Bytes → Option Bytes
content_of stored = if get_or stored 0 0 == 1 then none else some (drop 1 stored)

-- `o` is the newest version of the key in the database.
abbrev pub IsLatest : (R : RawDb) → R.Db → ℕ → Bytes → Option Value → Type 0
IsLatest R db c key none =
    (v : ℕ) (val : Bytes) → R.get db (mvcc_key c key v) ≡ some val → v ≤ u64_max → ⊥
IsLatest R db c key (some o) =
    ((val : Bytes) × (R.get db (mvcc_key c key o.version) ≡ some val)
      × (o.content ≡ content_of val)
      × (o.version ≤ u64_max))
    × ((v : ℕ) (val : Bytes) → R.get db (mvcc_key c key v) ≡ some val → v ≤ u64_max → v ≤ o.version)

-- A version among entries is at most the first one's.
pub version_le_first :
    (c : ℕ) (key val : Bytes) (v : ℕ) (e : MvccEntry) (es : List MvccEntry)
    → v ≤ u64_max
    → IsNewestFirst (e ∷ es)
    → HasEntry (mvcc_key c key v) val (e ∷ es)
    → v ≤ entry_version e
unfolding entry_version
version_le_first c key val v e es b n (inl (ek, ev)) =
    omega (arith, sym (version_of-mvcc_key c key v b) ∙ ap version_of ek)
version_le_first c key val v e [] b n (inr h) = elim h [ ]
version_le_first c key val v e (f ∷ es) b n (inr h) =
    let below = version_le_first c key val v f es b n.1 h in omega (arith, below, n.0.0)

first_value-IsLatest :
    (R : RawDb) (db : R.Db) (c : ℕ) (key : Bytes) (es : List MvccEntry)
    → AreVersions R db c key es
    → IsLatest R db c key (first_value es)
unfolding first_value to_value entry_value
first_value-IsLatest R db c key [] a = λ v val h b. a.complete v val h b
first_value-IsLatest R db c key (e ∷ es) a = (
  (e.value, ap (R.get db) (sym a.sound.0.1) ∙ a.sound.0.0, refl, a.sound.0.2),
  λ v val h b. version_le_first c key val v e es b a.newest_first (a.complete v val h b),
)

-- `get` on a key that is not empty, in a shard that the engine knows and whose collection is
-- well formed, returns the newest stored version, and nothing only if no version is stored.
pub get-IsLatest :
    {R : RawDb} (e : GroupEngine R) (shard_id x : ℕ) (xs : Bytes) {desc : ShardDesc}
    → shard_desc e shard_id ≡ ok desc
    → IsWellFormed R e.db desc.collection_id
    → (o : Option Value) × (get e shard_id (x ∷ xs) ≡ ok o)
      × IsLatest R e.db desc.collection_id (x ∷ xs) o
unfolding get
get-IsLatest {R} e shard_id x xs {desc} h wf =
    let (es, read, versions) = key_entries-AreVersions e shard_id x xs h wf in
    (
      first_value es,
      rw read refl,
      first_value-IsLatest R e.db desc.collection_id (x ∷ xs) es versions,
    )

-- What one write of a batch may do to the keys of a collection.
abbrev pub KeepsForm : ℕ → WriteOp → Type 0
KeepsForm c (WriteOp.put k v) = in_collection c k ≡ true → IsVersionKey c k
KeepsForm c (WriteOp.delete k) = Unit {0}

after_ops-form :
    (c : ℕ) (k v : Bytes) (ops : WriteBatch) (old : Option Bytes)
    → All (KeepsForm c) ops
    → ((w : Bytes) → old ≡ some w → in_collection c k ≡ true → IsVersionKey c k)
    → after_ops k ops old ≡ some v
    → in_collection c k ≡ true
    → IsVersionKey c k
after_ops-form c k v [] old f g h = g v h
after_ops-form c k v (WriteOp.put j w ∷ ops) old f g h = elim (Bool-cases (bytes_eq j k)) [
  | inl same ↦
      let e : j ≡ k = bytes_eq→eq j k same in
      after_ops-form c k v ops (some w) f.1
        (λ u _. subst (λ i. in_collection c i ≡ true → IsVersionKey c i) e f.0) (rw same at h)
  | inr other ↦ after_ops-form c k v ops old f.1 g (rw other at h)
]
after_ops-form c k v (WriteOp.delete j ∷ ops) old f g h = elim (Bool-cases (bytes_eq j k)) [
  | inl same ↦ after_ops-form c k v ops none f.1 (λ u e. cc) (rw same at h)
  | inr other ↦ after_ops-form c k v ops old f.1 g (rw other at h)
]

-- A batch whose puts have the form of `mvcc_key` keeps a collection well formed.
pub write-IsWellFormed :
    (R : RawDb) (db : R.Db) (c : ℕ) (ops : WriteBatch)
    → IsWellFormed R db c
    → All (KeepsForm c) ops
    → IsWellFormed R (R.write db ops) c
write-IsWellFormed R db c ops wf f k v h =
    after_ops-form c k v ops (R.get db k) f (wf k) (sym (R.get-write db ops k) ∙ h)
