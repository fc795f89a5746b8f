-- ===== src/Engine/Data/Iteration.antt =====
-- What the loop over the versions of one key reads: the leading pairs of the iterator that belong to
-- the key.
use sekas.Prelude.{
  ℕ, zero, suc, ◌+◌, ◌<◌, ◌≡◌, refl, true, false, ◌&&◌, Option, none, some, List, [], ◌∷◌, Bytes,
  length, arith, if◌then◌else◌, bytes_eq, bytes_eq→eq, bytes_eq_refl,
}
use sekas.Engine.Keys.{revert_mvcc_key}
use sekas.Engine.RawDb.{Pairs}
use sekas.Engine.Snapshot.{
  Snapshot, SnapshotRange, MvccEntry, new_entry, in_collection, next_iterator, collect,
  mvcc_entries,
}
use sekas.Engine.Data.{first_entries}

-- The leading pairs of an iterator that belong to one key of one collection.
unfoldable pub take_key : ℕ → Bytes → Pairs → List MvccEntry
take_key c key [] = []
take_key c key ((k, v) ∷ rest) =
    if in_collection c k && bytes_eq key (revert_mvcc_key k)
    then new_entry k v ∷ take_key c key rest
    else []

-- The loop over an iterator that stands at `key`.
collect-take_key :
    (fuel c : ℕ) (r : SnapshotRange) (key : Bytes) (iter : Pairs)
    → length iter < fuel
    → collect fuel (record {
      collection_id = c;
      range = r;
      db_iter = iter;
      current_key = some key;
      cached_entry = none;
    })
      ≡ take_key c key iter
unfolding collect take_key new_entry
collect-take_key zero c r key iter h = absurd (omega arith)
collect-take_key (suc fuel) c r key [] h = refl
collect-take_key (suc fuel) c r key ((k, v) ∷ rest) h =
    ground (arith, collect-take_key fuel c r key rest)

-- The state of a snapshot of one key with an entry in the cache.
cached_at : ℕ → Bytes → Option Bytes → Bytes → Bytes → Pairs → Snapshot
cached_at c key current k v iter = record {
  collection_id = c;
  range = SnapshotRange.target key;
  db_iter = iter;
  current_key = current;
  cached_entry = some (new_entry k v);
}

look_first :
    (c : ℕ) (key k v : Bytes) (iter : Pairs)
    → next_iterator c (SnapshotRange.target key) none (some (new_entry k v)) iter ≡ (
        if bytes_eq key (revert_mvcc_key k)
        then (cached_at c key (some (revert_mvcc_key k)) k v iter, true)
        else (cached_at c key none k v iter, false))
unfolding next_iterator cached_at
look_first c key k v [] = ground arith
look_first c key k v ((j, w) ∷ rest) = ground arith

mvcc_entries-cached_at :
    (c : ℕ) (key k v : Bytes) (iter : Pairs)
    → mvcc_entries (cached_at c key (some (revert_mvcc_key k)) k v iter)
      ≡ new_entry k v ∷ take_key c (revert_mvcc_key k) iter
unfolding mvcc_entries cached_at
mvcc_entries-cached_at c key k v iter = ground (
  arith,
  bytes_eq_refl (revert_mvcc_key k),
  collect-take_key (length iter + 1) c (SnapshotRange.target key) (revert_mvcc_key k) iter,
)

pub first_entries-take_key :
    (c : ℕ) (key : Bytes) (iter : Pairs)
    → first_entries (record {
      collection_id = c;
      range = SnapshotRange.target key;
      db_iter = iter;
      current_key = none;
      cached_entry = none;
    })
      ≡ take_key c key iter
unfolding first_entries take_key
first_entries-take_key c key [] = refl
first_entries-take_key c key ((k, v) ∷ rest) = ground (
  arith,
  look_first c key k v rest,
  mvcc_entries-cached_at c key k v rest,
  bytes_eq→eq key (revert_mvcc_key k),
)
