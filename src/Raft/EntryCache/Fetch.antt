-- ===== src/Raft/EntryCache/Fetch.antt =====
-- What the cache returns for a range of indexes under a limit on the size.
use sekas.Prelude.{
  ℕ, suc, ◌+◌, ◌-◌, ◌≤◌, ◌<◌, ◌≡◌, ◌⊎◌, refl, sym, ap, inl, inr, false, ◌||◌, List, [], ◌∷◌, length,
  take, drop, arith, ltb, leb, Bool-cases, subst, length-drop,
}
use sekas.Api.{ok}
use sekas.Raft.EntryCache.{LogEntry, take_within, at_least_one, fetch_entries_to}
use sekas.Raft.EntryCache.Runs.{IsRun, length-take-min, take-IsRun, drop-IsRun}

module _ (encoded_len : LogEntry → ℕ) where
  abbrev pub total_len : List LogEntry → ℕ
  total_len [] = 0
  total_len (e ∷ es) = encoded_len e + total_len es

  -- `out` is the longest prefix of `slice` whose size is at most `room`.
  abbrev pub IsLongest : ℕ → List LogEntry → List LogEntry → Type 0
  IsLongest room slice out =
      (out ≡ take (length out) slice)
      × (total_len out ≤ room)
      × ((out ≡ slice) ⊎ (room < total_len (take (length out + 1) slice)))

  take_within-IsLongest :
      (room : ℕ) (slice : List LogEntry) → IsLongest room slice (take_within encoded_len room slice)
  unfolding take_within
  take_within-IsLongest room [] = (refl, omega arith, inl refl)
  take_within-IsLongest room (e ∷ es) = elim (Bool-cases (leb (encoded_len e) room)) [
    | inr big ↦ rw big (refl, omega arith, inr (ground (arith, big)))
    | inl fits ↦
        let (prefix, within, rest) = take_within-IsLongest (room - encoded_len e) es in
        rw fits (
          ap (λ t. e ∷ t) prefix,
          ground (arith, fits, within),
          more room e es (take_within encoded_len (room - encoded_len e) es) (ground (arith, fits))
              rest,
        )
  ]
    where
      more :
          (room : ℕ) (e : LogEntry) (es out : List LogEntry)
          → encoded_len e ≤ room
          → (out ≡ es) ⊎ (room - encoded_len e < total_len (take (length out + 1) es))
          → (e ∷ out ≡ e ∷ es) ⊎ (room < total_len (take (length (e ∷ out) + 1) (e ∷ es)))
      more room e es out fits (inl all) = inl (ap (λ t. e ∷ t) all)
      more room e es out fits (inr over) =
          let step : length (e ∷ out) + 1 ≡ suc (length out + 1) = omega arith in
          inr (rw step (omega (arith, fits, over)))

  -- What a fetch returns of a slice: a prefix, at least one entry, and as many as fit.
  abbrev pub IsFetched : ℕ → List LogEntry → List LogEntry → Type 0
  IsFetched max_size slice out =
      (out ≡ take (length out) slice)
      × (0 < length out)
      × ((total_len out ≤ max_size) ⊎ (length out ≡ 1))
      × ((out ≡ slice) ⊎ (max_size < total_len (take (length out + 1) slice)))

  IsFetched-at_least_one :
      (max_size : ℕ) (slice out : List LogEntry)
      → 0 < length slice
      → IsLongest max_size slice out
      → IsFetched max_size slice (at_least_one encoded_len slice out)
  unfolding at_least_one
  IsFetched-at_least_one max_size slice (e ∷ out) h l = (l.0, omega arith, inl l.1, l.2)
  IsFetched-at_least_one max_size [] [] h l = absurd (omega arith)
  IsFetched-at_least_one max_size (e ∷ []) [] h l = (refl, omega arith, inr refl, inl refl)
  IsFetched-at_least_one max_size (e ∷ f ∷ es) [] h (p, w, inl none) = absurd (ground (arith, none))
  IsFetched-at_least_one max_size (e ∷ f ∷ es) [] h (p, w, inr over) =
      (refl, omega arith, inr refl, inr (omega (arith, over)))

  -- A fetch in the range of a cache without a gap returns a prefix of the entries asked for: as many
  -- as fit in the size, and one at least, whatever its size.
  pub fetch_entries_to-IsFetched :
      (low begin stop max_size : ℕ) (cache : List LogEntry)
      → IsRun low cache
      → low ≤ begin
      → begin < stop
      → stop ≤ low + length cache
      → (out : List LogEntry) × (fetch_entries_to encoded_len cache begin stop max_size ≡ ok out)
        × IsFetched max_size (take (stop - begin) (drop (begin - low) cache)) out
        × IsRun begin out
  unfolding fetch_entries_to
  fetch_entries_to-IsFetched low begin stop max_size [] r b s h = absurd (omega arith)
  fetch_entries_to-IsFetched low begin stop max_size (e ∷ es) r b s h =
      let slice : List LogEntry = take (stop - begin) (drop (begin - low) (e ∷ es)) in
      let out : List LogEntry =
        at_least_one encoded_len slice (take_within encoded_len max_size slice) in
      let starts : begin - e.index ≡ begin - low = omega (arith, r.0) in
      let nonempty : leb stop begin ≡ false = ground arith in
      let inside : (ltb begin e.index || ltb (length (e ∷ es)) (begin - e.index)) ≡ false =
        ground (arith, r.0, b, s, h) in
      let some_left : 0 < length slice = omega (
        arith,
        length-take-min (stop - begin) (drop (begin - low) (e ∷ es)),
        length-drop (begin - low) (e ∷ es),
      ) in
      let fetched =
        IsFetched-at_least_one max_size slice (take_within encoded_len max_size slice) some_left
          (take_within-IsLongest max_size slice) in
      let run : IsRun begin slice = take-IsRun (stop - begin) begin (drop (begin - low) (e ∷ es)) (
        subst (λ k. IsRun k (drop (begin - low) (e ∷ es))) (omega (arith, b))
          (drop-IsRun (begin - low) low (e ∷ es) r)) in
      (
        out,
        rw (nonempty, inside, starts) refl,
        fetched,
        subst (IsRun begin) (sym fetched.0) (take-IsRun (length out) begin slice run),
      )
