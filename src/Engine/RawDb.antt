-- ===== src/Engine/RawDb.antt =====
-- RocksDB as the group engine uses it: one column family, read by key and by a forward iterator,
-- written by batches. RocksDB is not part of the repository, so it is a record of operations with
-- the documented laws. Read and write errors of the disk are left out.
use sekas.Prelude.{
  ◌≡◌, ◌⊎◌, true, false, Option, none, some, List, [], ◌∷◌, Bytes, bytes_lt, bytes_eq, All,
  if◌then◌else◌,
}

-- What a batch holds, in the order of the calls.
pub data WriteOp : Type 0 where
  put : Bytes → Bytes → WriteOp
  delete : Bytes → WriteOp

abbrev pub WriteBatch : Type 0
WriteBatch = List WriteOp

abbrev pub Pairs : Type 0
Pairs = List (Bytes × Bytes)

abbrev pub Has : Bytes → Bytes → Pairs → Type 0
Has k v [] = ⊥
Has k v ((j, w) ∷ rest) = ((k ≡ j) × (v ≡ w)) ⊎ Has k v rest

-- Strictly ascending keys.
abbrev pub IsAscending : Pairs → Type 0
IsAscending [] = Unit {0}
IsAscending ((k, v) ∷ rest) = All (λ p. bytes_lt k p.0 ≡ true) rest × IsAscending rest

-- The value of a key after a batch: the last operation on the key counts.
abbrev pub after_ops : Bytes → WriteBatch → Option Bytes → Option Bytes
after_ops k [] old = old
after_ops k (put j v ∷ ops) old = after_ops k ops (if bytes_eq j k then some v else old)
after_ops k (delete j ∷ ops) old = after_ops k ops (if bytes_eq j k then none else old)

pub record RawDb : Type 1 where
  pub Db : Type 0
  pub get : Db → Bytes → Option Bytes
  pub seek : Db → Bytes → Pairs
  pub write : Db → WriteBatch → Db
  pub seek-IsAscending : (db : Db) (from : Bytes) → IsAscending (seek db from)
  pub seek_sound :
      (db : Db) (from k v : Bytes)
      → Has k v (seek db from)
      → (get db k ≡ some v) × (bytes_lt k from ≡ false)
  pub seek_complete :
      (db : Db) (from k v : Bytes)
      → get db k ≡ some v
      → bytes_lt k from ≡ false
      → Has k v (seek db from)
  pub get-write :
      (db : Db) (ops : WriteBatch) (k : Bytes) → get (write db ops) k ≡ after_ops k ops (get db k)
