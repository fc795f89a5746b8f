-- ===== src/Tests/RaftLogs.antt =====
-- Runs of the log of a replica and its cache.
use sekas.Prelude.{
  ℕ, ◌+◌, ◌-◌, ◌≤◌, ◌<◌, ◌≡◌, refl, false, none, some, List, [], ◌∷◌, length, take, drop, get_elem?,
  ltb, if◌then◌else◌, min, arith,
}
use sekas.Api.{ok, err, raft, StoreError}
use sekas.Raft.EntryCache.{LogEntry, append, entry}
use sekas.Raft.EntryCache.Runs.{IsRun, append_replaces}
use sekas.Raft.EntryCache.Fetch.{IsFetched}
use sekas.Raft.Storage.{
  StateKey, Message, LogBatch, LogEngine, WriteTask, Storage, truncated_index, truncated_term,
  write, compact_to, term, entries, check_range, is_cached,
}
use sekas.Raft.Storage.Writes.{
  IsConsistent, EndsConsistent, latest_message, write-IsConsistent, compact_to-IsConsistent,
}
use sekas.Raft.Storage.Terms.{IsCachedFrom, term_cases, entries-IsFetched}

abbrev log_entry : ℕ → ℕ → LogEntry
log_entry index term = record { index = index; term = term; content = [] }

-- The entries 6 to 8 are cached.
abbrev cached : List LogEntry
cached = log_entry 6 2 ∷ log_entry 7 2 ∷ log_entry 8 2 ∷ []

cached-IsRun : IsRun 6 cached
cached-IsRun = (refl, (refl, (refl, tt)))

append_replaces_example :
    (out : List LogEntry) × (append cached (log_entry 8 3 ∷ log_entry 9 3 ∷ []) ≡ ok out)
    × IsRun (min 8 6) out
    × (min 8 6 + length out ≡ 8 + 2)
    × ((i : ℕ)
        → get_elem? out i ≡ (
            if ltb i (8 - 6)
            then get_elem? cached i
            else get_elem? (log_entry 8 3 ∷ log_entry 9 3 ∷ []) (i - (8 - 6))))
append_replaces_example =
    append_replaces 6 8 cached (log_entry 8 3) (log_entry 9 3 ∷ []) cached-IsRun (refl, (refl, tt))
      (omega arith)

-- The log is truncated at 4, and its entry 5 is not cached.
abbrev storage : Storage
storage = record {
  replica_id = 1;
  first_index = 5;
  last_index = 8;
  cache = cached;
  local_state = record { replica_id = 1; last_truncated = some record { index = 4; term = 1 } };
  hard_state = record { term = 2; vote = 1; commit = 6 };
  create_snapshot = false;
  is_creating_snapshot = false;
}

storage-IsConsistent : IsConsistent storage
unfolding truncated_index
storage-IsConsistent = (refl, omega arith, 6, cached-IsRun, refl)

abbrev engine : LogEngine
engine = record { fetch = λ a b n. ok []; get_entry = λ i. ok none }

abbrev task : WriteTask
task = record {
  hard_state = some record { term = 3; vote = 2; commit = 7 };
  entries = log_entry 8 3 ∷ log_entry 9 3 ∷ [];
  snapshot = none;
}

write-IsConsistent_example : EndsConsistent (write task storage)
write-IsConsistent_example =
    write-IsConsistent task storage storage-IsConsistent
      ((refl, (refl, tt)), omega arith, omega arith)

entry_found : term engine record storage { first_index = 8 } 7 ≡ ok 2
unfolding term check_range truncated_index is_cached entry
entry_found = refl

compact_to-IsConsistent_example :
    (s' : Storage) × (batch : LogBatch) × (compact_to engine 8 storage ≡ ok (s', batch))
    × IsConsistent s'
    × (s'.local_state.last_truncated ≡ some (record { index = 8 - 1; term = 2 }))
    × (latest_message StateKey.local_state_key batch
        ≡ some (
            if ltb 6 8
            then Message.hard_state s'.hard_state
            else Message.local_state s'.local_state))
    × (latest_message StateKey.hard_state_key batch ≡ none)
compact_to-IsConsistent_example =
    compact_to-IsConsistent engine 8 2 storage storage-IsConsistent (omega arith) (omega arith)
      entry_found

cached_from : IsCachedFrom 6 storage
cached_from = (cached-IsRun, refl)

term_cases_example :
    (7 ≡ truncated_index storage → term engine storage 7 ≡ ok (truncated_term storage))
    × (7 < truncated_index storage → term engine storage 7 ≡ err (raft StoreError.compacted))
    × (6 ≤ 7
        → truncated_index storage < 7
        → (e : LogEntry) × (entry cached 7 ≡ ok (some e))
          × (e.index ≡ 7)
          × (term engine storage 7 ≡ ok e.term))
term_cases_example = term_cases engine 6 7 storage cached_from (omega arith)

behind_truncated : truncated_index storage < 6
unfolding truncated_index
behind_truncated = omega arith

entries-IsFetched_example :
    (out : List LogEntry) × (entries engine (λ e. 10) storage 6 9 25 ≡ ok out)
    × IsFetched (λ e. 10) 25 (take (9 - 6) (drop (6 - 6) cached)) out
    × IsRun 6 out
entries-IsFetched_example =
    entries-IsFetched engine (λ e. 10) 6 6 9 25 storage cached_from (omega arith) behind_truncated
      (omega arith) (omega arith)
