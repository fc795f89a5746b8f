-- ===== src/Raft/EntryCache.antt =====
-- The entries that are not applied yet (src/server/src/raftgroup/storage.rs, `EntryCache`). The
-- encoded size of an entry, which prost computes, is a parameter. A sum of sizes does not wrap.
pub mod Runs
pub mod Fetch
use sekas.Prelude.{
  ℕ, ◌+◌, ◌-◌, ◌/◌, Bool, true, false, ◌||◌, Option, none, some, List, [], ◌∷◌, ◌++◌, Bytes, length,
  take, drop, get_elem?, is_empty, ltb, leb, if◌then◌else◌,
}
use sekas.Api.{Result, ok, err, panicked, ◌>>=◌}

pub record LogEntry : Type 0 where
  pub index : ℕ
  pub term : ℕ
  pub content : Bytes

-- `VecDeque::back`.
unfoldable pub last_entry : List LogEntry → Option LogEntry
last_entry [] = none
last_entry (e ∷ []) = some e
last_entry (e ∷ f ∷ es) = last_entry (f ∷ es)

unfoldable pub first_index : List LogEntry → Option ℕ
first_index [] = none
first_index (e ∷ es) = some e.index

-- `EntryCache::entry`: an index behind the cache is out of range of the queue.
unfoldable pub entry : List LogEntry → ℕ → Result (Option LogEntry)
entry [] index = ok none
entry (e ∷ es) index =
    if leb e.index index
    then elim (get_elem? (e ∷ es) (index - e.index)) [ none ↦ panicked | some f ↦ ok (some f) ]
    else ok none

-- `EntryCache::append`.
unfoldable pub append : List LogEntry → List LogEntry → Result (List LogEntry)
unfolding last_entry
append cache [] = ok cache
append cache (e ∷ es) = elim (last_entry cache) [
  | none ↦ ok (cache ++ e ∷ es)
  | some last ↦
      if leb e.index last.index
      then ok (take (length cache - (last.index - e.index + 1)) cache ++ e ∷ es)
      else if ltb (last.index + 1) e.index
      then panicked
      else ok (cache ++ e ∷ es)
]

-- `EntryCache::drains_to`: half of what is applied is dropped.
unfoldable pub drains_to : List LogEntry → ℕ → Result (List LogEntry)
drains_to [] applied_index = ok []
drains_to (e ∷ es) applied_index =
    if ltb applied_index e.index
    then panicked
    else if ltb (length (e ∷ es)) ((applied_index - e.index) / 2)
    then panicked
    else ok (drop ((applied_index - e.index) / 2) (e ∷ es))

module _ (encoded_len : LogEntry → ℕ) where
  -- The leading entries whose sizes fit, `take_while` of `fetch_entries_to`.
  unfoldable pub take_within : ℕ → List LogEntry → List LogEntry
  take_within room [] = []
  take_within room (e ∷ es) =
      if leb (encoded_len e) room then e ∷ take_within (room - encoded_len e) es else []

  -- One entry is fetched whatever its size is.
  unfoldable pub at_least_one : List LogEntry → List LogEntry → List LogEntry
  at_least_one slice [] = take 1 slice
  at_least_one slice (e ∷ es) = e ∷ es

  -- `EntryCache::fetch_entries_to`, what it adds to the entries.
  unfoldable pub fetch_entries_to : List LogEntry → ℕ → ℕ → ℕ → Result (List LogEntry)
  unfolding take_within at_least_one
  fetch_entries_to [] begin stop max_size = if leb stop begin then ok [] else panicked
  fetch_entries_to (e ∷ es) begin stop max_size =
      if leb stop begin
      then ok []
      else if ltb begin e.index || ltb (length (e ∷ es)) (begin - e.index)
      then panicked
      else (let slice = take (stop - begin) (drop (begin - e.index) (e ∷ es)) in
          ok (at_least_one slice (take_within max_size slice)))
