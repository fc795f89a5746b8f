-- ===== src/Engine/Data/Written.antt =====
-- What a write leaves to be read: a value that is put above all stored versions of its key is what
-- `get` returns then, and a tombstone hides the key.
use sekas.Prelude.{
  ℕ, ◌≤◌, ◌≡◌, refl, sym, ap, ◌∙◌, inl, inr, Option, none, some, [], ◌∷◌, Bytes, arith, bytes_eq,
  bytes_eq→eq, bytes_eq_refl, u64_max, Bool-cases, subst, true,
}
use sekas.Api.{Value, ShardDesc, ok, with_value, tombstone_value}
use sekas.Engine.Keys.{mvcc_key, version_of}
use sekas.Engine.Keys.Decode.{version_of-mvcc_key}
use sekas.Engine.RawDb.{RawDb, WriteOp, WriteBatch}
use sekas.Engine.Snapshot.{data_value, tombstone_bytes}
use sekas.Engine.Group.{GroupEngine}
use sekas.Engine.Data.{shard_desc, get, put, tombstone}
use sekas.Engine.Data.Versions.{IsWellFormed}
use sekas.Engine.Data.Latest.{IsLatest, content_of, get-IsLatest, write-IsWellFormed}

-- The versions of a key that a database stores are at most `v`.
abbrev pub VersionsUpTo : (R : RawDb) → R.Db → ℕ → Bytes → ℕ → Type 0
VersionsUpTo R db c key v =
    (w : ℕ) (val : Bytes) → R.get db (mvcc_key c key w) ≡ some val → w ≤ u64_max → w ≤ v

-- The newest version of a key, by what is stored.
latest_stored :
    (R : RawDb) (db : R.Db) (c : ℕ) (key stored : Bytes) (v : ℕ)
    → v ≤ u64_max
    → R.get db (mvcc_key c key v) ≡ some stored
    → VersionsUpTo R db c key v
    → (o : Option Value) → IsLatest R db c key o
    → o ≡ some (record { content = content_of stored; version = v })
latest_stored R db c key stored v bound here above none l = absurd (l v stored here bound)
latest_stored R db c key stored v bound here above (some o)
      ((val, at_version, content, b), newest) =
    let lower = newest v stored here bound in
    let upper = above o.version val at_version b in
    let same : o.version ≡ v = omega arith in cc (same, at_version, content, here)

-- `get` returns the value that is stored at `v` if nothing newer is.
pub get_stored :
    {R : RawDb} (e : GroupEngine R) (shard_id x v : ℕ) (xs stored : Bytes) {desc : ShardDesc}
    → shard_desc e shard_id ≡ ok desc
    → IsWellFormed R e.db desc.collection_id
    → v ≤ u64_max
    → R.get e.db (mvcc_key desc.collection_id (x ∷ xs) v) ≡ some stored
    → VersionsUpTo R e.db desc.collection_id (x ∷ xs) v
    → get e shard_id (x ∷ xs) ≡ ok (some (record { content = content_of stored; version = v }))
get_stored {R} e shard_id x v xs stored {desc} h wf b here above =
    let (o, read, latest) = get-IsLatest e shard_id x xs h wf in
    read ∙ ap ok (latest_stored R e.db desc.collection_id (x ∷ xs) stored v b here above o latest)

pub get-write_self :
    (R : RawDb) (db : R.Db) (k v : Bytes) → R.get (R.write db (WriteOp.put k v ∷ [])) k ≡ some v
get-write_self R db k v = R.get-write db _ k ∙ (rw (bytes_eq_refl k))

-- Keys of two versions differ if the versions do.
pub same_version :
    (c v w : ℕ) (key : Bytes)
    → v ≤ u64_max
    → w ≤ u64_max
    → bytes_eq (mvcc_key c key v) (mvcc_key c key w) ≡ true
    → v ≡ w
same_version c v w key b d same =
    sym (version_of-mvcc_key c key v b)
    ∙ ap version_of (bytes_eq→eq (mvcc_key c key v) (mvcc_key c key w) same)
    ∙ version_of-mvcc_key c key w d

pub versions_after :
    (R : RawDb) (db : R.Db) (c : ℕ) (key stored : Bytes) (v : ℕ)
    → v ≤ u64_max
    → VersionsUpTo R db c key v
    → VersionsUpTo R (R.write db (WriteOp.put (mvcc_key c key v) stored ∷ [])) c key v
versions_after R db c key stored v bound above w val h b =
    elim (Bool-cases (bytes_eq (mvcc_key c key v) (mvcc_key c key w))) [
      | inl same ↦ omega (arith, same_version c v w key bound b same)
      | inr other ↦ above w val ((rw other at (sym (R.get-write db _ (mvcc_key c key w)) ∙ h))) b
    ]

pub get_written :
    {R : RawDb} (e : GroupEngine R) (shard_id x v : ℕ) (xs stored : Bytes) {desc : ShardDesc}
    → shard_desc e shard_id ≡ ok desc
    → IsWellFormed R e.db desc.collection_id
    → v ≤ u64_max
    → VersionsUpTo R e.db desc.collection_id (x ∷ xs) v
    → get
        (record e {
          db = R.write e.db (WriteOp.put (mvcc_key desc.collection_id (x ∷ xs) v) stored ∷ []);
        })
        shard_id
        (x ∷ xs)
      ≡ ok (some (record { content = content_of stored; version = v }))
unfolding shard_desc
get_written {R} e shard_id x v xs stored {desc} h wf b above =
    get_stored
      (record e {
        db = R.write e.db (WriteOp.put (mvcc_key desc.collection_id (x ∷ xs) v) stored ∷ []);
      })
      shard_id x v xs stored h
      (write-IsWellFormed R e.db desc.collection_id _ wf ((λ _. (x, xs, v, refl, b)), tt)) b
      (get-write_self R e.db _ stored)
      (versions_after R e.db desc.collection_id (x ∷ xs) stored v b above)

-- The shard is known, its collection well formed, the key not empty, and no version above `v` is
-- stored: once the batch of a `put` is written, `get` returns the value at version `v`.
pub get-put :
    {R : RawDb} (e : GroupEngine R) (shard_id x v : ℕ) (xs value : Bytes) {desc : ShardDesc}
    {ops : WriteBatch}
    → shard_desc e shard_id ≡ ok desc
    → IsWellFormed R e.db desc.collection_id
    → v ≤ u64_max
    → VersionsUpTo R e.db desc.collection_id (x ∷ xs) v
    → put e [] shard_id (x ∷ xs) value v ≡ ok ops
    → get (record e { db = R.write e.db ops }) shard_id (x ∷ xs) ≡ ok (some (with_value value v))
unfolding put data_value with_value
get-put {R} e shard_id x v xs value {desc} {ops} h wf b above written =
    let batch : WriteBatch =
      WriteOp.put (mvcc_key desc.collection_id (x ∷ xs) v) (data_value value) ∷ [] in
    let same : batch ≡ ops = cc (written, h) in
    subst
      (λ o.
        get (record e { db = R.write e.db o }) shard_id (x ∷ xs) ≡ ok (some (with_value value v)))
      same (get_written e shard_id x v xs (data_value value) h wf b above)

-- The same for a tombstone: `get` then returns a value without content.
pub get-tombstone :
    {R : RawDb} (e : GroupEngine R) (shard_id x v : ℕ) (xs : Bytes) {desc : ShardDesc}
    {ops : WriteBatch}
    → shard_desc e shard_id ≡ ok desc
    → IsWellFormed R e.db desc.collection_id
    → v ≤ u64_max
    → VersionsUpTo R e.db desc.collection_id (x ∷ xs) v
    → tombstone e [] shard_id (x ∷ xs) v ≡ ok ops
    → get (record e { db = R.write e.db ops }) shard_id (x ∷ xs) ≡ ok (some (tombstone_value v))
unfolding tombstone tombstone_bytes tombstone_value
get-tombstone {R} e shard_id x v xs {desc} {ops} h wf b above written =
    let batch : WriteBatch =
      WriteOp.put (mvcc_key desc.collection_id (x ∷ xs) v) tombstone_bytes ∷ [] in
    let same : batch ≡ ops = cc (written, h) in
    subst
      (λ o.
        get (record e { db = R.write e.db o }) shard_id (x ∷ xs) ≡ ok (some (tombstone_value v)))
      same (get_written e shard_id x v xs tombstone_bytes h wf b above)
