-- ===== src/Raft/Storage/Writes.antt =====
-- The bounds of the log and its cache stay in step under writes and compactions.
use sekas.Prelude.{
  ℕ, ◌+◌, ◌-◌, ◌≤◌, ◌<◌, ◌≡◌, refl, false, Option, none, some, List, [], ◌∷◌, ◌++◌, length, arith,
  ltb, min, if◌then◌else◌, is_empty, ◌==◌, Bool-cases, inl, inr,
}
use sekas.Api.{Result, ok, panicked}
use sekas.Raft.EntryCache.{LogEntry, last_entry}
use sekas.Raft.EntryCache.Runs.{IsRun, back_of_run, append_replaces}
use sekas.Raft.Storage.{
  Storage, HardState, RaftLocalState, StateKey, Message, LogCommand, LogBatch, LogEngine,
  RaftSnapshot, WriteTask, truncated_index, write, write_hard_state, write_snapshot, write_entries,
  compact_to, term,
}

-- The log starts behind what is truncated, and the cache has no gap and ends where the log does.
abbrev pub IsConsistent : Storage → Type 0
IsConsistent s =
    (truncated_index s + 1 ≡ s.first_index)
    × (s.first_index ≤ s.last_index + 1)
    × (low : ℕ) × IsRun low s.cache
    × (low + length s.cache ≡ s.last_index + 1)

-- A task that the raft library makes: a snapshot, or entries that follow the log or replace its end.
abbrev pub Fits : Storage → Option RaftSnapshot → List LogEntry → Type 0
Fits s (some snap) es = es ≡ []
Fits s none [] = Unit {0}
Fits s none (e ∷ es) =
    IsRun e.index (e ∷ es) × (s.first_index ≤ e.index) × (e.index ≤ s.last_index + 1)

abbrev pub IsTaskFor : Storage → WriteTask → Type 0
IsTaskFor s task = Fits s task.snapshot task.entries

write_hard_state-IsConsistent :
    (hs : Option HardState) (s : Storage) → IsConsistent s → IsConsistent (write_hard_state hs s).0
unfolding write_hard_state truncated_index
write_hard_state-IsConsistent none s c = c
write_hard_state-IsConsistent (some hs) s c = c

write_hard_state-IsTaskFor :
    (hs : Option HardState) (s : Storage) (task : WriteTask)
    → IsTaskFor s task
    → IsTaskFor (write_hard_state hs s).0 task
unfolding write_hard_state
write_hard_state-IsTaskFor none s task t = t
write_hard_state-IsTaskFor (some hs) s task t = t

write_snapshot-IsConsistent :
    (snap : RaftSnapshot) (s : Storage) → IsConsistent (write_snapshot snap s).0
unfolding write_snapshot truncated_index
write_snapshot-IsConsistent snap s = (refl, omega arith, snap.index + 1, tt, omega arith)

abbrev pub EndsConsistent : Result (Storage × LogBatch) → Type 0
EndsConsistent r = (s : Storage) × (batch : LogBatch) × (r ≡ ok (s, batch)) × IsConsistent s

write_entries-IsConsistent :
    (s : Storage) (e : LogEntry) (es : List LogEntry)
    → IsConsistent s
    → IsRun e.index (e ∷ es)
    → s.first_index ≤ e.index
    → e.index ≤ s.last_index + 1
    → EndsConsistent (write_entries (e ∷ es) s)
unfolding write_entries truncated_index
write_entries-IsConsistent s e es (starts, inside, low, run, ends) r f h =
    let (last, found, at) = back_of_run e.index e es r in
    let (out, appended, run', ends', _) =
      append_replaces low e.index s.cache e es run r (omega (arith, ends)) in
    (
      record s { cache = out; last_index = last.index },
      LogCommand.add_entries (e ∷ es) ∷ [],
      rw (write_entries, found, appended) refl,
      (starts, omega (arith, at), min e.index low, run', omega (arith, ends', at)),
    )

write_entries-nil : (s : Storage) → IsConsistent s → EndsConsistent (write_entries [] s)
unfolding write_entries last_entry
write_entries-nil s c = (s, [], refl, c)

abbrev snapshot_or_entries :
    Option RaftSnapshot → List LogEntry → Storage → Result (Storage × LogBatch)
snapshot_or_entries snap es s = elim snap [
  | some snap' ↦ if is_empty es then ok (write_snapshot snap' s) else panicked
  | none ↦ write_entries es s
]

after_hard_state :
    (snap : Option RaftSnapshot) (es : List LogEntry) (s : Storage)
    → IsConsistent s
    → Fits s snap es
    → EndsConsistent (snapshot_or_entries snap es s)
after_hard_state (some snap) [] s c u =
    ((write_snapshot snap s).0, (write_snapshot snap s).1, refl, write_snapshot-IsConsistent snap s)
after_hard_state (some snap) (e ∷ es) s c u = cc
after_hard_state none [] s c u = write_entries-nil s c
after_hard_state none (e ∷ es) s c (r, f, h) = write_entries-IsConsistent s e es c r f h

-- A write of a task that fits the log does not panic, and the log stays consistent: it starts behind
-- what is truncated, and its cache has no gap and ends where it ends.
pub write-IsConsistent :
    (task : WriteTask) (s : Storage)
    → IsConsistent s
    → IsTaskFor s task
    → EndsConsistent (write task s)
unfolding write
write-IsConsistent task s c t =
    let (s', batch, ran, done) =
      after_hard_state task.snapshot task.entries (write_hard_state task.hard_state s).0
        (write_hard_state-IsConsistent task.hard_state s c)
        (write_hard_state-IsTaskFor task.hard_state s task t) in
    (s', (write_hard_state task.hard_state s).1 ++ batch, rw (write, ran) refl, done)

-- The message that a batch leaves under a key, if it puts one.
abbrev pub latest_message : StateKey → LogBatch → Option Message
latest_message key [] = none
latest_message StateKey.hard_state_key (LogCommand.put_message StateKey.hard_state_key m ∷ batch) =
    elim (latest_message StateKey.hard_state_key batch) [ none ↦ some m | some n ↦ some n ]
latest_message StateKey.local_state_key
      (LogCommand.put_message StateKey.local_state_key m ∷ batch) =
    elim (latest_message StateKey.local_state_key batch) [ none ↦ some m | some n ↦ some n ]
latest_message key (c ∷ batch) = latest_message key batch

-- A compaction to a position in the log, whose former entry has a term, keeps the log consistent and
-- truncates it there. If the commit index is below it, the batch leaves the hard state under the key
-- of the local state and puts nothing under the key of the hard state.
pub compact_to-IsConsistent :
    (engine : LogEngine) (to t : ℕ) (s : Storage)
    → IsConsistent s
    → s.first_index < to
    → to ≤ s.last_index + 1
    → term engine (record s { first_index = to }) (to - 1) ≡ ok t
    → (s' : Storage) × (batch : LogBatch) × (compact_to engine to s ≡ ok (s', batch))
      × IsConsistent s'
      × (s'.local_state.last_truncated ≡ some (record { index = to - 1; term = t }))
      × (latest_message StateKey.local_state_key batch
          ≡ some (
              if ltb s.hard_state.commit to
              then Message.hard_state s'.hard_state
              else Message.local_state s'.local_state))
      × (latest_message StateKey.hard_state_key batch ≡ none)
unfolding compact_to truncated_index
compact_to-IsConsistent engine to t s (starts, inside, low, run, ends) above below found =
    let local : RaftLocalState = record {
      replica_id = s.replica_id;
      last_truncated = some (record { index = to - 1; term = t });
    } in
    let start : LogBatch =
      LogCommand.compact to
      ∷ LogCommand.put_message StateKey.local_state_key (Message.local_state local)
      ∷ [] in
    let raised : HardState = record s.hard_state { commit = to } in
    let positive : (to == 0) ≡ false = ground (arith, above) in
    let next : to - 1 + 1 ≡ to = omega (arith, above) in
    elim (Bool-cases (ltb s.hard_state.commit to)) [
      | inl behind ↦ (
        record s { first_index = to; local_state = local; hard_state = raised },
        start ++ LogCommand.put_message StateKey.local_state_key (Message.hard_state raised) ∷ [],
        rw (compact_to, positive, found, behind) refl,
        (next, below, low, run, ends),
        refl,
        rw behind refl,
        refl,
      )
      | inr ahead ↦ (
        record s { first_index = to; local_state = local },
        start,
        rw (compact_to, positive, found, ahead) refl,
        (next, below, low, run, ends),
        refl,
        rw ahead refl,
        refl,
      )
    ]
