-- ===== src/Tests/MemDb.antt =====
-- An in-memory store with the laws that the engine asks of RocksDB: an ascending list of pairs.
use sekas.Prelude.{
  ◌≡◌, refl, sym, ap, ◌∙◌, inl, inr, true, false, Option, none, some, [], ◌∷◌, Bytes, arith,
  bytes_eq, bytes_lt, bytes_eq→eq, bytes_eq_refl, bytes_lt_trans, bytes_lt_irrefl,
  bytes_lt_trichotomy, All, All-mono, Bool-cases, if◌then◌else◌, subst,
}
use sekas.Engine.RawDb.{RawDb, WriteOp, WriteBatch, Pairs, Has, IsAscending, after_ops}

unfoldable pub lookup : Bytes → Pairs → Option Bytes
lookup k [] = none
lookup k ((j, v) ∷ l) = if bytes_eq j k then some v else lookup k l

unfoldable pub insert : Bytes → Bytes → Pairs → Pairs
insert k v [] = (k, v) ∷ []
insert k v ((j, w) ∷ l) =
    let rest = insert k v l in
    if bytes_eq j k then (k, v) ∷ l else if bytes_lt k j then (k, v) ∷ (j, w) ∷ l else (j, w) ∷ rest

unfoldable pub remove : Bytes → Pairs → Pairs
remove k [] = []
remove k ((j, w) ∷ l) = let rest = remove k l in if bytes_eq j k then rest else (j, w) ∷ rest

unfoldable pub seek_from : Bytes → Pairs → Pairs
seek_from from [] = []
seek_from from ((j, w) ∷ l) =
    let rest = seek_from from l in if bytes_lt j from then rest else (j, w) ∷ rest

bytes_eq_sym : (j k : Bytes) → bytes_eq j k ≡ true → bytes_eq k j ≡ true
bytes_eq_sym j k h = cc (bytes_eq→eq j k h, bytes_eq_refl k)

lookup-insert :
    (k v j : Bytes) (l : Pairs)
    → lookup j (insert k v l) ≡ (if bytes_eq k j then some v else lookup j l)
unfolding lookup insert
lookup-insert k v j [] = refl
lookup-insert k v j ((i, w) ∷ l) =
    ground (arith, lookup-insert k v j l, bytes_eq→eq i k, bytes_eq→eq k j, bytes_eq_refl j)

lookup-remove :
    (k j : Bytes) (l : Pairs) → lookup j (remove k l) ≡ (if bytes_eq k j then none else lookup j l)
unfolding lookup remove
lookup-remove k j [] = ground arith
lookup-remove k j ((i, w) ∷ l) = ground (
  arith,
  lookup-remove k j l,
  bytes_eq→eq i k,
  bytes_eq→eq i j,
  bytes_eq→eq k j,
  bytes_eq_refl k,
  bytes_eq_refl j,
)

abbrev Above : Bytes → Pairs → Type 0
Above j l = All (λ p. bytes_lt j p.0 ≡ true) l

insert-Above :
    (j k v : Bytes) (l : Pairs) → Above j l → bytes_lt j k ≡ true → Above j (insert k v l)
unfolding insert
insert-Above j k v [] a h = (h, tt)
insert-Above j k v ((i, w) ∷ l) a h = ground (arith, insert-Above j k v l a.1 h, a.1)

remove-Above : (j k : Bytes) (l : Pairs) → Above j l → Above j (remove k l)
unfolding remove
remove-Above j k [] a = tt
remove-Above j k ((i, w) ∷ l) a = ground (arith, remove-Above j k l a.1)

seek-Above : (j from : Bytes) (l : Pairs) → Above j l → Above j (seek_from from l)
unfolding seek_from
seek-Above j from [] a = tt
seek-Above j from ((i, w) ∷ l) a = ground (arith, seek-Above j from l a.1)

larger : (j k : Bytes) → bytes_eq j k ≡ false → bytes_lt k j ≡ false → bytes_lt j k ≡ true
larger j k other above = elim (bytes_lt_trichotomy j k) [
  | inl same ↦ cc (other, same, bytes_eq_refl k)
  | inr (inl below) ↦ below
  | inr (inr reversed) ↦ cc (above, reversed)
]

insert-IsAscending : (k v : Bytes) (l : Pairs) → IsAscending l → IsAscending (insert k v l)
unfolding insert
insert-IsAscending k v [] a = (tt, tt)
insert-IsAscending k v ((j, w) ∷ l) a = elim (Bool-cases (bytes_eq j k)) [
  | inl same ↦
      rw same (subst (λ i. All (λ p. bytes_lt i p.0 ≡ true) l) (bytes_eq→eq j k same) a.0, a.1)
  | inr other ↦ rw other (elim (Bool-cases (bytes_lt k j)) [
    | inl below ↦ rw below ((below, All-mono l (λ p h. bytes_lt_trans k j p.0 below h) a.0), a)
    | inr above ↦
        rw above (insert-Above j k v l a.0 (larger j k other above), insert-IsAscending k v l a.1)
  ])
]

remove-IsAscending : (k : Bytes) (l : Pairs) → IsAscending l → IsAscending (remove k l)
unfolding remove
remove-IsAscending k [] a = tt
remove-IsAscending k ((j, w) ∷ l) a =
    ground (arith, remove-Above j k l a.0, remove-IsAscending k l a.1)

pub seek-IsAscending : (from : Bytes) (l : Pairs) → IsAscending l → IsAscending (seek_from from l)
unfolding seek_from
seek-IsAscending from [] a = tt
seek-IsAscending from ((j, w) ∷ l) a =
    ground (arith, seek-Above j from l a.0, seek-IsAscending from l a.1)

pub seek-Has :
    (from k v : Bytes) (l : Pairs)
    → Has k v (seek_from from l)
    → Has k v l × (bytes_lt k from ≡ false)
unfolding seek_from
seek-Has from k v [] h = absurd h
seek-Has from k v ((j, w) ∷ l) h = ground (arith, seek-Has from k v l)

pub Has-seek :
    (from k v : Bytes) (l : Pairs)
    → Has k v l
    → bytes_lt k from ≡ false
    → Has k v (seek_from from l)
unfolding seek_from
Has-seek from k v [] h b = h
Has-seek from k v ((j, w) ∷ l) h b = ground (arith, Has-seek from k v l)

Has-Above : (j k v : Bytes) (l : Pairs) → Above j l → Has k v l → bytes_lt j k ≡ true
Has-Above j k v [] a h = absurd h
Has-Above j k v ((i, w) ∷ l) a (inl e) = cc (a.0, e.0)
Has-Above j k v ((i, w) ∷ l) a (inr h) = Has-Above j k v l a.1 h

pub lookup-Has : (k v : Bytes) (l : Pairs) → lookup k l ≡ some v → Has k v l
unfolding lookup
lookup-Has k v [] h = cc
lookup-Has k v ((j, w) ∷ l) h = ground (arith, lookup-Has k v l, bytes_eq→eq j k)

pub Has-lookup : (k v : Bytes) (l : Pairs) → IsAscending l → Has k v l → lookup k l ≡ some v
unfolding lookup
Has-lookup k v [] a h = absurd h
Has-lookup k v ((j, w) ∷ l) a (inl (e, f)) = rw (← e, bytes_eq_refl k) (ap some (sym f))
Has-lookup k v ((j, w) ∷ l) a (inr h) =
    ground
      (arith, Has-lookup k v l a.1 h, Has-Above j k v l a.0 h, bytes_eq→eq j k, bytes_lt_irrefl k)

unfoldable pub write_pairs : WriteBatch → Pairs → Pairs
write_pairs [] l = l
write_pairs (WriteOp.put k v ∷ ops) l = write_pairs ops (insert k v l)
write_pairs (WriteOp.delete k ∷ ops) l = write_pairs ops (remove k l)

pub write-IsAscending :
    (ops : WriteBatch) (l : Pairs) → IsAscending l → IsAscending (write_pairs ops l)
unfolding write_pairs
write-IsAscending [] l a = a
write-IsAscending (WriteOp.put k v ∷ ops) l a =
    write-IsAscending ops (insert k v l) (insert-IsAscending k v l a)
write-IsAscending (WriteOp.delete k ∷ ops) l a =
    write-IsAscending ops (remove k l) (remove-IsAscending k l a)

pub lookup-write :
    (ops : WriteBatch) (l : Pairs) (k : Bytes)
    → lookup k (write_pairs ops l) ≡ after_ops k ops (lookup k l)
unfolding write_pairs
lookup-write [] l k = refl
lookup-write (WriteOp.put j v ∷ ops) l k =
    lookup-write ops (insert j v l) k ∙ ap (after_ops k ops) (lookup-insert j v k l)
lookup-write (WriteOp.delete j ∷ ops) l k =
    lookup-write ops (remove j l) k ∙ ap (after_ops k ops) (lookup-remove j k l)

abbrev pub mem_db : RawDb
mem_db = record {
  Db = (l : Pairs) × IsAscending l;
  get = λ db k. lookup k db.0;
  seek = λ db from. seek_from from db.0;
  write = λ db ops. (write_pairs ops db.0, write-IsAscending ops db.0 db.1);
  seek-IsAscending = λ db from. seek-IsAscending from db.0 db.1;
  seek_sound = λ db from k v h.
      let (member, b) = seek-Has from k v db.0 h in (Has-lookup k v db.0 db.1 member, b);
  seek_complete = λ db from k v h b. Has-seek from k v db.0 (lookup-Has k v db.0 h) b;
  get-write = λ db ops k. lookup-write ops db.0 k;
}

abbrev pub empty_db : (l : Pairs) × IsAscending l
empty_db = ([], tt)
