-- ===== src/Engine/Data/Versions.antt =====
-- The entries that a snapshot of one key yields are exactly its stored versions, newest first.
use sekas.Prelude.{
  ℕ, ◌≤◌, ◌<◌, ◌≡◌, refl, sym, ap, ◌∙◌, ◌⊎◌, inl, inr, true, false, ◌&&◌, some, List, [], ◌∷◌, ◌++◌,
  Bytes, take, length, arith, bytes_eq, bytes_lt, bytes_eq→eq, bytes_eq_refl, bytes_lt_irrefl,
  bytes_lt_trichotomy, bytes_lt_asymm, le_bytes, length-le_bytes, u64_max, All, Bool-cases, subst,
  All-mono,
}
use sekas.Api.{ShardDesc, ok}
use sekas.Engine.Keys.{mvcc_key, raw, revert_mvcc_key, version_of, collection_prefix}
use sekas.Engine.Keys.Order.{mvcc_key-lt_key, mvcc_key-lt_version}
use sekas.Engine.Keys.Decode.{
  revert_mvcc_key-mvcc_key, version_of-mvcc_key, collection_prefix-mvcc_key,
}
use sekas.Engine.RawDb.{RawDb, Pairs, Has, IsAscending}
use sekas.Engine.Snapshot.{MvccEntry, new_entry, in_collection, entry_version}
use sekas.Engine.Group.{GroupEngine}
use sekas.Engine.Data.{key_entries, shard_desc}
use sekas.Engine.Data.Iteration.{take_key, first_entries-take_key}

-- A key of the form that `mvcc_key` gives a user key that is not empty.
abbrev pub IsVersionKey : ℕ → Bytes → Type 0
IsVersionKey c k = (x : ℕ) × (xs : Bytes) × (w : ℕ) × (k ≡ mvcc_key c (x ∷ xs) w) × (w ≤ u64_max)

-- A pair at or behind the start of an iterator, well formed if it belongs to the collection.
abbrev Row : ℕ → Bytes → Bytes × Bytes → Type 0
Row c start p = (bytes_lt p.0 start ≡ false) × (in_collection c p.0 ≡ true → IsVersionKey c p.0)

rows_from_pairs :
    (P : Bytes × Bytes → Type 0) (l : Pairs) → ((k v : Bytes) → Has k v l → P (k, v)) → All P l
rows_from_pairs P [] f = tt
rows_from_pairs P ((k, v) ∷ l) f =
    (f k v (inl (refl, refl)), rows_from_pairs P l (λ j w h. f j w (inr h)))

Has_of_All : (P : Bytes → Type 0) (l : Pairs) (k v : Bytes) → All (λ p. P p.0) l → Has k v l → P k
Has_of_All P [] k v a h = absurd h
Has_of_All P ((j, w) ∷ l) k v a (inl e) = subst P (sym e.0) a.0
Has_of_All P ((j, w) ∷ l) k v a (inr h) = Has_of_All P l k v a.1 h

-- What lies between two strings with a common prefix has the prefix.
prefix_between :
    (ps k xs ys : Bytes)
    → bytes_lt k (ps ++ xs) ≡ false
    → bytes_lt (ps ++ ys) k ≡ false
    → take (length ps) k ≡ ps
unfolding bytes_lt
prefix_between [] k xs ys h g = refl
prefix_between (p ∷ ps) [] xs ys h g = cc
prefix_between (p ∷ ps) (k ∷ ks) xs ys h g = ground (arith, prefix_between ps ks xs ys)

collection_between :
    (c v w : ℕ) (key j : Bytes)
    → bytes_lt j (mvcc_key c key v) ≡ false
    → bytes_lt (mvcc_key c key w) j ≡ false
    → in_collection c j ≡ true
unfolding in_collection collection_prefix mvcc_key
collection_between c v w key j h g =
    rw
      (subst (λ n. take n j ≡ le_bytes 8 c) (length-le_bytes 8 c)
        (prefix_between (le_bytes 8 c) j _ _ h g))
      (bytes_eq_refl (le_bytes 8 c))

in_collection-mvcc_key : (c : ℕ) (key : Bytes) (v : ℕ) → in_collection c (mvcc_key c key v) ≡ true
unfolding in_collection
in_collection-mvcc_key c key v =
    rw (collection_prefix-mvcc_key c key v) (bytes_eq_refl (le_bytes 8 c))

-- A well-formed pair between two versions of a key is a version of that key.
key_between :
    (c x v w : ℕ) (xs j : Bytes)
    → bytes_lt j (mvcc_key c (x ∷ xs) v) ≡ false
    → bytes_lt (mvcc_key c (x ∷ xs) w) j ≡ false
    → IsVersionKey c j
    → revert_mvcc_key j ≡ x ∷ xs
key_between c x v w xs j h g (y, ys, u, e, b) = elim (bytes_lt_trichotomy (y ∷ ys) (x ∷ xs)) [
  | inl same ↦ ap revert_mvcc_key e ∙ revert_mvcc_key-mvcc_key c (y ∷ ys) u ∙ same
  | inr (inl below) ↦ cc (h, e, mvcc_key-lt_key c y x ys xs u v below)
  | inr (inr above) ↦ cc (g, e, mvcc_key-lt_key c x y xs ys w u above)
]

abbrev pub HasEntry : Bytes → Bytes → List MvccEntry → Type 0
HasEntry k v [] = ⊥
HasEntry k v (e ∷ es) = ((k ≡ e.key) × (v ≡ e.value)) ⊎ HasEntry k v es

-- No stored version of the key is missed.
take_key_complete :
    (c x v : ℕ) (xs val : Bytes) (l : Pairs)
    → IsAscending l
    → All (Row c (mvcc_key c (x ∷ xs) u64_max)) l
    → Has (mvcc_key c (x ∷ xs) v) val l
    → HasEntry (mvcc_key c (x ∷ xs) v) val (take_key c (x ∷ xs) l)
unfolding take_key new_entry
take_key_complete c x v xs val [] s r h = absurd h
take_key_complete c x v xs val ((j, w) ∷ l) s r (inl (ek, ev)) =
    rw
      (
        ← ek,
        in_collection-mvcc_key c (x ∷ xs) v,
        revert_mvcc_key-mvcc_key c (x ∷ xs) v,
        bytes_eq_refl (x ∷ xs),
      )
      (inl (refl, ev))
take_key_complete c x v xs val ((j, w) ∷ l) s r (inr h) =
    let above : bytes_lt (mvcc_key c (x ∷ xs) v) j ≡ false =
      bytes_lt_asymm j _ (Has_of_All (λ k. bytes_lt j k ≡ true) l _ val s.0 h) in
    let here : in_collection c j ≡ true = collection_between c u64_max v (x ∷ xs) j r.0.0 above in
    rw (here, key_between c x u64_max v xs j r.0.0 above (r.0.1 here), bytes_eq_refl (x ∷ xs))
      (inr (take_key_complete c x v xs val l s.1 r.1 h))

abbrev IsStored : ℕ → Bytes → Pairs → MvccEntry → Type 0
IsStored c key l e =
    Has e.key e.value l × (e.key ≡ mvcc_key c key (entry_version e)) × (entry_version e ≤ u64_max)

-- A well-formed key of the collection is the key of its user key and version.
version_key :
    (c : ℕ) (key j : Bytes)
    → IsVersionKey c j
    → key ≡ revert_mvcc_key j
    → (j ≡ mvcc_key c key (version_of j)) × (version_of j ≤ u64_max)
version_key c key j (x, xs, w, e, b) h =
    let r : version_of j ≡ w = ap version_of e ∙ version_of-mvcc_key c (x ∷ xs) w b in
    let k : key ≡ x ∷ xs = h ∙ ap revert_mvcc_key e ∙ revert_mvcc_key-mvcc_key c (x ∷ xs) w in
    (cc (r, k, e), omega (arith, r))

-- Every entry is a stored version of the key.
take_key_sound :
    (c : ℕ) (key : Bytes) (l : Pairs)
    → All (λ p. in_collection c p.0 ≡ true → IsVersionKey c p.0) l
    → All (IsStored c key l) (take_key c key l)
unfolding take_key new_entry entry_version
take_key_sound c key [] r = tt
take_key_sound c key ((j, w) ∷ l) r =
    elim (Bool-cases (in_collection c j && bytes_eq key (revert_mvcc_key j))) [
      | inr out ↦ rw out tt
      | inl here ↦
          let mine : (in_collection c j ≡ true) × (bytes_eq key (revert_mvcc_key j) ≡ true) =
            ground arith in
          let form = version_key c key j (r.0 mine.0) (bytes_eq→eq key _ mine.1) in
          rw here (
            (inl (refl, refl), form.0, form.1),
            All-mono (take_key c key l) (λ e st. (inr st.0, st.1, st.2))
                (take_key_sound c key l r.1),
          )
    ]

number_trichotomy : (m n : ℕ) → (m < n) ⊎ ((m ≡ n) ⊎ (n < m))
number_trichotomy m n = omega arith

-- Two versions of a key stand in the order of their keys.
version_below :
    (c : ℕ) (key : Bytes) (v w : ℕ)
    → bytes_lt (mvcc_key c key v) (mvcc_key c key w) ≡ true
    → w ≤ u64_max
    → v ≤ u64_max
    → w < v
version_below c key v w h b d = elim (number_trichotomy w v) [
  | inl below ↦ below
  | inr (inl same) ↦ cc (h, bytes_lt_irrefl (mvcc_key c key v), same)
  | inr (inr above) ↦ cc (h, bytes_lt_asymm _ _ (mvcc_key-lt_version c key v w above b))
]

-- Newest first.
abbrev pub IsNewestFirst : List MvccEntry → Type 0
IsNewestFirst [] = Unit {0}
IsNewestFirst (e ∷ es) = All (λ f. entry_version f < entry_version e) es × IsNewestFirst es

take_key-IsNewestFirst :
    (c : ℕ) (key : Bytes) (l : Pairs)
    → IsAscending l
    → All (λ p. in_collection c p.0 ≡ true → IsVersionKey c p.0) l
    → IsNewestFirst (take_key c key l)
unfolding take_key new_entry entry_version
take_key-IsNewestFirst c key [] s r = tt
take_key-IsNewestFirst c key ((j, w) ∷ l) s r =
    elim (Bool-cases (in_collection c j && bytes_eq key (revert_mvcc_key j))) [
      | inr out ↦ rw out tt
      | inl here ↦
          let mine : (in_collection c j ≡ true) × (bytes_eq key (revert_mvcc_key j) ≡ true) =
            ground arith in
          let form = version_key c key j (r.0 mine.0) (bytes_eq→eq key _ mine.1) in
          rw here (
            All-mono (take_key c key l)
                (λ e st.
                  version_below c key (version_of j) (version_of e.key)
                    (cc (
                      form.0,
                      st.1,
                      Has_of_All (λ k. bytes_lt j k ≡ true) l e.key e.value s.0 st.0,
                    ))
                    st.2 form.1)
                (take_key_sound c key l r.1),
            take_key-IsNewestFirst c key l s.1 r.1,
          )
    ]

-- What a list of entries says of one key of a database.
pub record AreVersions (R : RawDb) (db : R.Db) (c : ℕ) (key : Bytes) (es : List MvccEntry)
    : Type 0 where
  pub sound :
      All
        (λ e.
          (R.get db e.key ≡ some e.value)
          × (e.key ≡ mvcc_key c key (entry_version e))
          × (entry_version e ≤ u64_max))
        es
  pub complete :
      (v : ℕ) (val : Bytes)
      → R.get db (mvcc_key c key v) ≡ some val
      → v ≤ u64_max
      → HasEntry (mvcc_key c key v) val es
  pub newest_first : IsNewestFirst es

-- The keys of a collection that a database holds have the form of `mvcc_key`.
abbrev pub IsWellFormed : (R : RawDb) → R.Db → ℕ → Type 0
IsWellFormed R db c =
    (k v : Bytes) → R.get db k ≡ some v → in_collection c k ≡ true → IsVersionKey c k

seek_rows :
    (R : RawDb) (db : R.Db) (c : ℕ) (from : Bytes)
    → IsWellFormed R db c
    → All (Row c from) (R.seek db from)
seek_rows R db c from wf =
    rows_from_pairs (Row c from) (R.seek db from)
      (λ k v h. let found = R.seek_sound db from k v h in (found.1, wf k v found.0))

start_before :
    (c : ℕ) (key : Bytes) (v : ℕ)
    → v ≤ u64_max
    → bytes_lt (mvcc_key c key v) (mvcc_key c key u64_max) ≡ false
start_before c key v h = elim (number_trichotomy v u64_max) [
  | inl below ↦ bytes_lt_asymm _ _ (mvcc_key-lt_version c key v u64_max below (omega arith))
  | inr (inl same) ↦ rw same (bytes_lt_irrefl (mvcc_key c key u64_max))
  | inr (inr above) ↦ absurd (omega arith)
]

take_key-AreVersions :
    (R : RawDb) (db : R.Db) (c x : ℕ) (xs : Bytes)
    → IsWellFormed R db c
    → AreVersions R db c (x ∷ xs) (take_key c (x ∷ xs) (R.seek db (mvcc_key c (x ∷ xs) u64_max)))
take_key-AreVersions R db c x xs wf = record {
  sound =
      All-mono _ (λ e st. ((R.seek_sound db from e.key e.value st.0).0, st.1, st.2))
        (take_key_sound c (x ∷ xs) (R.seek db from) forms);
  complete = λ v val stored b.
      take_key_complete c x v xs val (R.seek db from) (R.seek-IsAscending db from) rows
        (R.seek_complete db from _ val stored (start_before c (x ∷ xs) v b));
  newest_first =
      take_key-IsNewestFirst c (x ∷ xs) (R.seek db from) (R.seek-IsAscending db from) forms;
}
  where
    from : Bytes
    from = mvcc_key c (x ∷ xs) u64_max

    rows : All (Row c from) (R.seek db from)
    rows = seek_rows R db c from wf

    forms : All (λ p. in_collection c p.0 ≡ true → IsVersionKey c p.0) (R.seek db from)
    forms = All-mono (R.seek db from) (λ p row. row.1) rows

pub key_entries-take_key :
    {R : RawDb} (e : GroupEngine R) (shard_id x : ℕ) (xs : Bytes) {desc : ShardDesc}
    → shard_desc e shard_id ≡ ok desc
    → key_entries e shard_id (x ∷ xs)
      ≡ ok (
          take_key desc.collection_id
            (x ∷ xs)
            (R.seek e.db (mvcc_key desc.collection_id (x ∷ xs) u64_max)))
unfolding key_entries raw
key_entries-take_key {R} e shard_id x xs {desc} h = rw h (
    ap ok (
      first_entries-take_key desc.collection_id (x ∷ xs)
        (R.seek e.db (mvcc_key desc.collection_id (x ∷ xs) u64_max))))

-- A read of all versions of a key returns what is stored of the key, all of it, newest first.
-- The key is not empty, the shard is known, and the collection's keys are well formed.
pub key_entries-AreVersions :
    {R : RawDb} (e : GroupEngine R) (shard_id x : ℕ) (xs : Bytes) {desc : ShardDesc}
    → shard_desc e shard_id ≡ ok desc
    → IsWellFormed R e.db desc.collection_id
    → (es : List MvccEntry) × (key_entries e shard_id (x ∷ xs) ≡ ok es)
      × AreVersions R e.db desc.collection_id (x ∷ xs) es
key_entries-AreVersions {R} e shard_id x xs {desc} h wf = (
  _,
  key_entries-take_key e shard_id x xs h,
  take_key-AreVersions R e.db desc.collection_id x xs wf,
)
