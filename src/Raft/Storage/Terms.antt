-- ===== src/Raft/Storage/Terms.antt =====
-- What the raft library reads of a consistent log.
use sekas.Prelude.{
  ℕ, suc, zero, ◌+◌, ◌-◌, ◌≤◌, ◌<◌, ◌≡◌, refl, ap, true, false, some, List, [], ◌∷◌, length, take,
  drop, get_elem?, arith, ltb, leb, ◌==◌, max,
}
use sekas.Api.{raft, StoreError, ok, err}
use sekas.Raft.EntryCache.{LogEntry, first_index, entry}
use sekas.Raft.EntryCache.Runs.{IsRun}
use sekas.Raft.EntryCache.Fetch.{IsFetched, fetch_entries_to-IsFetched}
use sekas.Raft.Storage.{
  Storage, LogEngine, truncated_index, truncated_term, check_range, is_cached, term, entries,
  content_size,
}

get_elem?-run :
    (k n : ℕ) (es : List LogEntry)
    → IsRun n es
    → k < length es
    → (e : LogEntry) × (get_elem? es k ≡ some e) × (e.index ≡ n + k)
get_elem?-run k n [] r h = absurd (omega arith)
get_elem?-run zero n (e ∷ es) r h = (e, refl, omega (arith, r.0))
get_elem?-run (suc k) n (e ∷ es) r h =
    let (f, found, at) = get_elem?-run k (n + 1) es r.1 (omega arith) in
    (f, found, omega (arith, at))

-- The cached part of a log: where the cache starts, and that it reaches the log's end.
abbrev pub IsCachedFrom : ℕ → Storage → Type 0
IsCachedFrom low s = IsRun low s.cache × (low + length s.cache ≡ s.last_index + 1)

entry-run :
    (low idx : ℕ) (es : List LogEntry)
    → IsRun low es
    → low ≤ idx
    → idx < low + length es
    → (e : LogEntry) × (entry es idx ≡ ok (some e)) × (e.index ≡ idx)
unfolding entry
entry-run low idx [] r b h = absurd (omega arith)
entry-run low idx (c ∷ cs) r b h =
    let (e, found, at) = get_elem?-run (idx - low) low (c ∷ cs) r (omega arith) in
    let here : leb c.index idx ≡ true = ground (arith, r.0, b) in
    let same : idx - c.index ≡ idx - low = omega (arith, r.0) in
    (e, rw (entry, here, same, found) refl, omega (arith, at, b))

is_cached-run :
    (low idx : ℕ) (es : List LogEntry)
    → IsRun low es
    → low ≤ idx
    → idx < low + length es
    → is_cached es idx ≡ true
unfolding is_cached first_index
is_cached-run low idx [] r b h = absurd (omega arith)
is_cached-run low idx (c ∷ cs) r b h = ground (arith, r.0, b)

-- In the cached part of a log, `term` returns the term of the entry at the index, and does not ask
-- the engine. At the truncated index it returns the truncated term, and below it the log is
-- compacted.
pub term_cases :
    (engine : LogEngine) (low idx : ℕ) (s : Storage)
    → IsCachedFrom low s
    → idx ≤ s.last_index
    → (idx ≡ truncated_index s → term engine s idx ≡ ok (truncated_term s))
      × (idx < truncated_index s → term engine s idx ≡ err (raft StoreError.compacted))
      × (low ≤ idx
          → truncated_index s < idx
          → (e : LogEntry) × (entry s.cache idx ≡ ok (some e))
            × (e.index ≡ idx)
            × (term engine s idx ≡ ok e.term))
unfolding term check_range
term_cases engine low idx s (run, ends) inside = (
  (λ at. let t : (idx == truncated_index s) ≡ true = ground (arith, at) in rw (term, t) refl),
  (λ below.
      let t : (idx == truncated_index s) ≡ false = ground (arith, below) in
      let r : ltb (idx + 1) idx ≡ false = ground arith in
      let u : ltb (s.last_index + 1) (idx + 1) ≡ false = ground (arith, inside) in
      let v : leb idx (truncated_index s) ≡ true = ground (arith, below) in
      rw (term, t, check_range, r, u, v) refl),
  (λ cached above.
      let (e, found, at) = entry-run low idx s.cache run cached (omega (arith, inside, ends)) in
      let c = is_cached-run low idx s.cache run cached (omega (arith, inside, ends)) in
      let t : (idx == truncated_index s) ≡ false = ground (arith, above) in
      let r : ltb (idx + 1) idx ≡ false = ground arith in
      let u : ltb (s.last_index + 1) (idx + 1) ≡ false = ground (arith, inside) in
      let v : leb idx (truncated_index s) ≡ false = ground (arith, above) in
      (e, found, at, rw (term, t, check_range, r, u, v, c, found) refl)),
)

first_index-run :
    (low begin : ℕ) (es : List LogEntry)
    → IsRun low es
    → low < low + length es
    → first_index es ≡ some low
unfolding first_index
first_index-run low begin [] r h = absurd (omega arith)
first_index-run low begin (e ∷ es) r h = ap some r.0

-- A read of entries in the cached part of a log returns a prefix of the range without a gap: as many
-- entries as fit in the size, and one at least. The engine is not asked.
pub entries-IsFetched :
    (engine : LogEngine) (encoded_len : LogEntry → ℕ) (low begin stop max_size : ℕ) (s : Storage)
    → IsCachedFrom low s
    → low ≤ begin
    → truncated_index s < begin
    → begin < stop
    → stop ≤ s.last_index + 1
    → (out : List LogEntry) × (entries engine encoded_len s begin stop max_size ≡ ok out)
      × IsFetched encoded_len max_size (take (stop - begin) (drop (begin - low) s.cache)) out
      × IsRun begin out
unfolding entries check_range content_size
entries-IsFetched engine encoded_len low begin stop max_size s (run, ends) cached above some_left
      inside =
    let (out, fetched, is_fetched, out_run) =
      fetch_entries_to-IsFetched encoded_len low begin stop max_size s.cache run cached some_left
        (omega (arith, inside, ends)) in
    let first =
      first_index-run low begin s.cache run (omega (arith, cached, some_left, inside, ends)) in
    let r : ltb stop begin ≡ false = ground (arith, some_left) in
    let u : ltb (s.last_index + 1) stop ≡ false = ground (arith, inside) in
    let v : leb begin (truncated_index s) ≡ false = ground (arith, above) in
    let w : (begin == stop) ≡ false = ground (arith, some_left) in
    let x : ltb begin low ≡ false = ground (arith, cached) in
    let y : ltb low stop ≡ true = ground (arith, cached, some_left) in
    let z : max begin low ≡ begin = ground (arith, cached) in
    let room : max_size - content_size [] ≡ max_size = omega arith in
    (
      out,
      rw (entries, check_range, r, u, v, w, first, x, y, z, room, fetched) refl,
      is_fetched,
      out_run,
    )
