-- ===== src/Raft/Storage.antt =====
-- The log of a replica as the raft library sees it (src/server/src/raftgroup/storage.rs, `Storage`).
-- The engine of the log (raft-engine) and the manager of snapshots are parameters; what is written to
-- the engine is a list of commands.
pub mod Terms
pub mod Writes
use sekas.Prelude.{
  ℕ, ◌+◌, ◌-◌, ◌≤◌, ◌≡◌, Bool, true, false, ◌||◌, ◌&&◌, not, Option, none, some, List, [], ◌∷◌,
  ◌++◌, Bytes, length, is_empty, ltb, leb, ◌==◌, if◌then◌else◌, min, max, u64_max, is_some,
}
use sekas.Api.{EntryId, Error, raft, StoreError, Result, ok, err, panicked, ◌>>=◌, ◌>>◌, expect}
use sekas.Raft.EntryCache.{
  LogEntry, last_entry, first_index, entry, append, drains_to, fetch_entries_to,
}

pub record HardState : Type 0 where
  pub term : ℕ
  pub vote : ℕ
  pub commit : ℕ

pub record RaftLocalState : Type 0 where
  pub replica_id : ℕ
  pub last_truncated : Option EntryId

-- `keys::HARD_STATE_KEY` and `keys::LOCAL_STATE_KEY`.
pub data StateKey : Type 0 where
  hard_state_key local_state_key : StateKey

pub data Message : Type 0 where
  hard_state : HardState → Message
  local_state : RaftLocalState → Message

-- What a `LogBatch` asks of the engine.
pub data LogCommand : Type 0 where
  clean : LogCommand
  compact : ℕ → LogCommand
  add_entries : List LogEntry → LogCommand
  put_message : StateKey → Message → LogCommand

abbrev pub LogBatch : Type 0
LogBatch = List LogCommand

-- The engine for one replica: the entries of a range under a limit on their size, and one entry.
pub record LogEngine : Type 0 where
  pub fetch : ℕ → ℕ → ℕ → Result (List LogEntry)
  pub get_entry : ℕ → Result (Option LogEntry)

pub record RaftSnapshot : Type 0 where
  pub index : ℕ
  pub term : ℕ

pub record WriteTask : Type 0 where
  pub hard_state : Option HardState
  pub entries : List LogEntry
  pub snapshot : Option RaftSnapshot

pub record Storage : Type 0 where
  pub replica_id : ℕ
  pub first_index : ℕ
  pub last_index : ℕ
  pub cache : List LogEntry
  pub local_state : RaftLocalState
  pub hard_state : HardState
  pub create_snapshot : Bool
  pub is_creating_snapshot : Bool

unfoldable pub last_truncated_entry_id : Storage → EntryId
last_truncated_entry_id s = elim s.local_state.last_truncated [
  | none ↦ record { index = 0; term = 0 }
  | some id ↦ id
]

unfoldable pub truncated_index : Storage → ℕ
unfolding last_truncated_entry_id
truncated_index s = (last_truncated_entry_id s).index

unfoldable pub truncated_term : Storage → ℕ
unfolding last_truncated_entry_id
truncated_term s = (last_truncated_entry_id s).term

unfoldable pub check_range : Storage → ℕ → ℕ → Result (Unit {0})
unfolding truncated_index
check_range s low high =
    if ltb high low
    then panicked
    else if ltb (s.last_index + 1) high
    then panicked
    else if leb low (truncated_index s)
    then err (raft StoreError.compacted)
    else ok tt

-- The range of the log on `open`: an empty log starts behind what was truncated.
unfoldable pub open_range : Option EntryId → Option ℕ → Option ℕ → Result (ℕ × ℕ)
open_range truncated first last =
    let first_index : ℕ = elim first [ none ↦ 1 | some i ↦ i ] in
    let last_index : ℕ = elim last [ none ↦ 0 | some i ↦ i ] in
    elim truncated [
      | none ↦ ok (first_index, last_index)
      | some id ↦
          if leb first_index last_index
          then if id.index + 1 == first_index then ok (first_index, last_index) else panicked
          else ok (id.index + 1, id.index)
    ]

-- `Storage::open`, without the knob for tests: the entries that are not applied are cached.
unfoldable pub open_storage :
    LogEngine
    → ℕ
    → ℕ
    → Option HardState
    → Option RaftLocalState
    → Option ℕ
    → Option ℕ
    → Result Storage
unfolding open_range
open_storage engine replica_id applied_index hard local first last = do
  hs ← expect hard
  state ← expect local
  (first_index, last_index) ← open_range state.last_truncated first last
  cache ←
      if ltb applied_index last_index
      then if leb first_index (applied_index + 1)
        then engine.fetch (applied_index + 1) (last_index + 1) u64_max
        else panicked
      else ok []
  ok (record {
    replica_id = replica_id;
    first_index = first_index;
    last_index = last_index;
    cache = cache;
    local_state = state;
    hard_state = hs;
    create_snapshot = false;
    is_creating_snapshot = false;
  })

-- The hard state of a task comes first.
unfoldable pub write_hard_state : Option HardState → Storage → Storage × LogBatch
write_hard_state none s = (s, [])
write_hard_state (some hs) s = (
  record s { hard_state = hs },
  LogCommand.put_message StateKey.hard_state_key (Message.hard_state hs) ∷ [],
)

unfoldable pub write_snapshot : RaftSnapshot → Storage → Storage × LogBatch
write_snapshot snap s =
    let local : RaftLocalState = record {
      replica_id = s.replica_id;
      last_truncated = some (record { index = snap.index; term = snap.term });
    } in
    let hs : HardState = record s.hard_state { commit = snap.index } in
    (
      record s {
        cache = [];
        first_index = snap.index + 1;
        last_index = snap.index;
        local_state = local;
        hard_state = hs;
      },
      LogCommand.clean
          ∷ LogCommand.put_message StateKey.local_state_key (Message.local_state local)
          ∷ LogCommand.put_message StateKey.hard_state_key (Message.hard_state hs)
          ∷ [],
    )

unfoldable pub write_entries : List LogEntry → Storage → Result (Storage × LogBatch)
write_entries entries s = elim (last_entry entries) [
  | none ↦ ok (s, [])
  | some last ↦ do
    cache ← append s.cache entries
    ok (record s { cache = cache; last_index = last.index }, LogCommand.add_entries entries ∷ [])
]

-- `Storage::write`.
unfoldable pub write : WriteTask → Storage → Result (Storage × LogBatch)
unfolding write_hard_state write_snapshot write_entries
write task s = do
  let (s', first) = write_hard_state task.hard_state s
  (last, batch) ← elim task.snapshot [
    | some snap ↦ if is_empty task.entries then ok (write_snapshot snap s') else panicked
    | none ↦ write_entries task.entries s'
  ]
  ok (last, first ++ batch)

unfoldable pub post_apply : ℕ → Storage → Result Storage
post_apply applied_index s = do
  cache ← drains_to s.cache applied_index
  ok (record s { cache = cache })

-- Whether the cache reaches down to an index.
unfoldable pub is_cached : List LogEntry → ℕ → Bool
unfolding first_index
is_cached cache index = elim (first_index cache) [ none ↦ false | some low ↦ leb low index ]

-- The sum of the data's lengths.
unfoldable pub content_size : List LogEntry → ℕ
content_size [] = 0
content_size (e ∷ es) = length e.content + content_size es

module _ (engine : LogEngine) where
  -- `raft::Storage::term`.
  unfoldable pub term : Storage → ℕ → Result ℕ
  unfolding truncated_index truncated_term check_range is_cached
  term s idx = if idx == truncated_index s then ok (truncated_term s) else (do
    check_range s idx (idx + 1)
    if is_cached s.cache idx
        then (do found ← entry s.cache idx; e ← expect found; ok e.term)
        else (do
          found ← engine.get_entry idx
          elim found [ none ↦ err (raft StoreError.compacted) | some e ↦ ok e.term ]))

  -- `Storage::compact_to`: an error of `term` is unwrapped. The hard state is written under the key of
  -- the local state.
  unfoldable pub compact_to : ℕ → Storage → Result (Storage × LogBatch)
  unfolding term
  compact_to to s = do
    let s1 = record s { first_index = to }
    truncated ← if to == 0 then panicked else ok (to - 1)
    t ← elim (term s1 truncated) [ ok t ↦ ok t | err e ↦ panicked | panicked ↦ panicked ]
    let local : RaftLocalState = record {
      replica_id = s.replica_id;
      last_truncated = some (record { index = truncated; term = t });
    }
    let start : LogBatch =
        LogCommand.compact to
        ∷ LogCommand.put_message StateKey.local_state_key (Message.local_state local)
        ∷ []
    let hs : HardState = record s.hard_state { commit = to }
    ok (
        if ltb s.hard_state.commit to
        then (
          record s1 { hard_state = hs; local_state = local },
          start ++ LogCommand.put_message StateKey.local_state_key (Message.hard_state hs) ∷ [],
        )
        else (record s1 { local_state = local }, start))

  -- `raft::Storage::entries`, with the size limit as a number.
  unfoldable pub entries : (LogEntry → ℕ) → Storage → ℕ → ℕ → ℕ → Result (List LogEntry)
  unfolding check_range first_index
  entries encoded_len s low high max_size = do
    check_range s low high
    let cache_low : ℕ = elim (first_index s.cache) [ none ↦ u64_max | some i ↦ i ]
    if low == high then ok [] else (do
      stored ← if ltb low cache_low then engine.fetch low (min cache_low high) max_size else ok []
      let missing = ltb low cache_low && ltb (length stored) (min cache_low high - low)
      cached ←
          if not missing && ltb cache_low high
          then fetch_entries_to encoded_len s.cache (max low cache_low) high
              (max_size - content_size stored)
          else ok []
      ok (stored ++ cached))

-- `raft::Storage::snapshot`: `latest` is the snapshot that the manager has, with the index it covers.
unfoldable pub snapshot : Option (ℕ × RaftSnapshot) → ℕ → Storage → Storage × Result RaftSnapshot
snapshot latest request_index s =
    if s.is_creating_snapshot
    then (s, err (raft StoreError.snapshot_temporarily_unavailable))
    else (let start = if s.create_snapshot then (s, panicked) else (
      record s { create_snapshot = true; is_creating_snapshot = true },
      err (raft StoreError.snapshot_temporarily_unavailable),
    ) in
        elim latest [
          | none ↦ start
          | some (covered, snap) ↦ if leb request_index covered then (s, ok snap) else start
        ])
