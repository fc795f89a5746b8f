-- ===== src/Engine/Snapshot.antt =====
-- The snapshot of a shard's data and the iterator over the versions of one key
-- (src/server/src/engine/group.rs, `Snapshot`, `SnapshotCore`, `MvccIterator`, `MvccEntry`).
use sekas.Prelude.{
  ℕ, zero, suc, ◌+◌, Bool, true, false, not, Option, none, some, List, [], ◌∷◌, Bytes, drop, length,
  get_or, bytes_eq, starts_with, le_bytes, if◌then◌else◌, ◌==◌,
}
use sekas.Api.{Value}
use sekas.Schema.{in_range}
use sekas.Engine.Keys.{revert_mvcc_key, version_of, collection_prefix}
use sekas.Engine.RawDb.{Pairs}

-- The first byte of a stored value (`mod values`).
abbrev pub data_tag : ℕ
data_tag = 0

abbrev pub tombstone_tag : ℕ
tombstone_tag = 1

-- `values::data` and `values::tombstone`.
unfoldable pub data_value : Bytes → Bytes
data_value v = data_tag ∷ v

unfoldable pub tombstone_bytes : Bytes
tombstone_bytes = tombstone_tag ∷ []

pub record MvccEntry : Type 0 where
  pub key : Bytes
  pub user_key : Bytes
  pub value : Bytes

unfoldable pub new_entry : Bytes → Bytes → MvccEntry
new_entry key value = record { key = key; user_key = revert_mvcc_key key; value = value }

unfoldable pub entry_version : MvccEntry → ℕ
entry_version e = version_of e.key

-- `MvccEntry::value`: nothing for a tombstone.
unfoldable pub entry_value : MvccEntry → Option Bytes
entry_value e = if get_or e.value 0 0 == tombstone_tag then none else some (drop 1 e.value)

-- `From<MvccEntry> for Value`.
unfoldable pub to_value : MvccEntry → Value
unfolding entry_value entry_version
to_value e = record { content = entry_value e; version = entry_version e }

pub data SnapshotRange : Type 0 where
  target : Bytes → SnapshotRange
  prefix : Bytes → SnapshotRange
  range : Bytes → Bytes → SnapshotRange

unfoldable pub is_valid_key : SnapshotRange → Bytes → Bool
is_valid_key (target target_key) key = bytes_eq target_key key
is_valid_key (prefix p) key = starts_with key p
is_valid_key (range start stop) key = in_range start stop key

pub record Snapshot : Type 0 where
  pub collection_id : ℕ
  pub range : SnapshotRange
  pub db_iter : Pairs
  pub current_key : Option Bytes
  pub cached_entry : Option MvccEntry

unfoldable pub is_current_key : Option Bytes → Bytes → Bool
is_current_key none key = false
is_current_key (some k) key = bytes_eq k key

-- What a round of `next_mvcc_iterator` makes of the cached entry.
pub data Look : Type 0 where
  consumed advance : Look
  found : Bytes → Look

unfoldable pub look : SnapshotRange → Option Bytes → Option MvccEntry → Look
unfolding is_valid_key is_current_key
look r current none = advance
look r current (some e) =
    if not (is_valid_key r e.user_key)
    then consumed
    else if is_current_key current e.user_key
    then advance
    else found e.user_key

-- `SnapshotCore::next_entry` goes on while the collection is the snapshot's.
unfoldable pub in_collection : ℕ → Bytes → Bool
in_collection c key = bytes_eq (collection_prefix key) (le_bytes 8 c)

-- The loop of `next_mvcc_iterator`; the flag says whether an iterator is returned.
unfoldable pub next_iterator :
    ℕ → SnapshotRange → Option Bytes → Option MvccEntry → Pairs → Snapshot × Bool
unfolding look in_collection new_entry
next_iterator c r current cached [] = elim (look r current cached) [
  | consumed ↦ (state current, false)
  | found k ↦ (state (some k), true)
  | advance ↦ (state current, false)
]
  where
    state : Option Bytes → Snapshot
    state key = record {
      collection_id = c;
      range = r;
      db_iter = [];
      current_key = key;
      cached_entry = cached;
    }
next_iterator c r current cached ((k, v) ∷ rest) = elim (look r current cached) [
  | consumed ↦ (state current ((k, v) ∷ rest), false)
  | found key ↦ (state (some key) ((k, v) ∷ rest), true)
  | advance ↦ elim (in_collection c k) [
    | true ↦ next_iterator c r current (some (new_entry k v)) rest
    | false ↦ (state current rest, false)
  ]
]
  where
    state : Option Bytes → Pairs → Snapshot
    state key iter = record {
      collection_id = c;
      range = r;
      db_iter = iter;
      current_key = key;
      cached_entry = cached;
    }

-- `Snapshot::next`.
unfoldable pub next : Snapshot → Snapshot × Bool
unfolding next_iterator
next s = next_iterator s.collection_id s.range s.current_key s.cached_entry s.db_iter

-- A round of `next_mvcc_entry` at a cached entry.
unfoldable pub take_cached : Snapshot → MvccEntry → Snapshot × Option MvccEntry
unfolding is_current_key
take_cached s e =
    if is_current_key s.current_key e.user_key
    then (record s { cached_entry = none }, some e)
    else (record s { cached_entry = some e }, none)

unfoldable pub pull : Snapshot → Pairs → Snapshot × Option MvccEntry
unfolding take_cached in_collection new_entry
pull s [] = (s, none)
pull s ((k, v) ∷ rest) =
    if in_collection s.collection_id k
    then take_cached (record s { db_iter = rest }) (new_entry k v)
    else (record s { db_iter = rest }, none)

-- `MvccIterator::next`, by `next_mvcc_entry`.
unfoldable pub next_entry : Snapshot → Snapshot × Option MvccEntry
unfolding take_cached pull
next_entry s = elim s.cached_entry [ none ↦ pull s s.db_iter | some e ↦ take_cached s e ]

-- `for entry in mvcc_iter`, on fuel; each round consumes the cached entry or a pair.
unfoldable pub collect : ℕ → Snapshot → List MvccEntry
unfolding next_entry
collect zero s = []
collect (suc fuel) s =
    let (s', entry) = next_entry s in elim entry [ none ↦ [] | some e ↦ e ∷ collect fuel s' ]

unfoldable pub mvcc_entries : Snapshot → List MvccEntry
unfolding collect
mvcc_entries s = collect (length s.db_iter + 2) s
