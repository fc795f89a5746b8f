-- ===== src/Raft/EntryCache/Runs.antt =====
-- Entries without a gap, and how the cache keeps them so.
use sekas.Prelude.{
  ℕ, suc, zero, ◌+◌, ◌-◌, ◌/◌, ◌≤◌, ◌<◌, ◌≡◌, refl, sym, ap, ◌∙◌, inl, inr, false, some, List, [],
  ◌∷◌, ◌++◌, length, take, drop, get_elem?, arith, ltb, leb, if◌then◌else◌, min, length-append,
  Bool-cases, subst,
}
use sekas.Api.{ok, panicked}
use sekas.Raft.EntryCache.{LogEntry, last_entry, append, drains_to}

-- The indexes ascend by one from `n`.
abbrev pub IsRun : ℕ → List LogEntry → Type 0
IsRun n [] = Unit {0}
IsRun n (e ∷ es) = (e.index ≡ n) × IsRun (n + 1) es

pub back_of_run :
    (n : ℕ) (e : LogEntry) (es : List LogEntry)
    → IsRun n (e ∷ es)
    → (last : LogEntry) × (last_entry (e ∷ es) ≡ some last) × (last.index ≡ n + length es)
unfolding last_entry
back_of_run n e [] r = (e, refl, omega (arith, r.0))
back_of_run n e (f ∷ es) r =
    let (last, found, at) = back_of_run (n + 1) f es r.1 in (last, found, omega (arith, at))

pub take_all : (n : ℕ) (es : List LogEntry) → length es ≤ n → take n es ≡ es
take_all zero [] h = refl
take_all zero (e ∷ es) h = absurd (omega arith)
take_all (suc n) [] h = refl
take_all (suc n) (e ∷ es) h = ap (λ t. e ∷ t) (take_all n es (omega arith))

pub take-IsRun : (k n : ℕ) (es : List LogEntry) → IsRun n es → IsRun n (take k es)
take-IsRun zero n es r = tt
take-IsRun (suc k) n [] r = tt
take-IsRun (suc k) n (e ∷ es) r = (r.0, take-IsRun k (n + 1) es r.1)

pub drop-IsRun : (k n : ℕ) (es : List LogEntry) → IsRun n es → IsRun (n + k) (drop k es)
drop-IsRun zero n es r = subst (λ m. IsRun m es) (omega arith) r
drop-IsRun (suc k) n [] r = tt
drop-IsRun (suc k) n (e ∷ es) r =
    subst (λ m. IsRun m (drop k es)) (omega arith) (drop-IsRun k (n + 1) es r.1)

pub IsRun-append :
    (n m : ℕ) (es fs : List LogEntry)
    → IsRun n es
    → n + length es ≡ m
    → IsRun m fs
    → IsRun n (es ++ fs)
IsRun-append n m [] fs r e s = subst (λ k. IsRun k fs) (omega (arith, e)) s
IsRun-append n m (f ∷ es) fs r e s = (r.0, IsRun-append (n + 1) m es fs r.1 (omega (arith, e)) s)

pub length-take-min : (k : ℕ) (es : List LogEntry) → length (take k es) ≡ min k (length es)
length-take-min zero es = omega arith
length-take-min (suc k) [] = omega arith
length-take-min (suc k) (e ∷ es) = omega (arith, length-take-min k es)

appended :
    (low n : ℕ) (cache : List LogEntry) (e : LogEntry) (es : List LogEntry) (last : LogEntry)
    → last.index + 1 ≡ low + length cache
    → e.index ≡ n
    → n ≤ low + length cache
    → (if leb e.index last.index
        then ok (take (length cache - (last.index - e.index + 1)) cache ++ e ∷ es)
        else if ltb (last.index + 1) e.index
        then panicked
        else ok (cache ++ e ∷ es))
      ≡ ok (take (n - low) cache ++ e ∷ es)
appended low n cache e es last at here h = elim (Bool-cases (leb e.index last.index)) [
  | inl over ↦
      let same : length cache - (last.index - e.index + 1) ≡ n - low = ground (arith, over) in
      rw (over, same) refl
  | inr behind ↦
      let hole : ltb (last.index + 1) e.index ≡ false = ground (arith, behind) in
      let whole : take (n - low) cache ≡ cache =
        take_all (n - low) cache (ground (arith, behind)) in
      rw (behind, hole, whole) refl
]

get_elem?-take_append :
    (k i : ℕ) (xs ys : List LogEntry)
    → k ≤ length xs
    → get_elem? (take k xs ++ ys) i ≡ (if ltb i k then get_elem? xs i else get_elem? ys (i - k))
get_elem?-take_append zero i xs ys h = ground arith
get_elem?-take_append (suc k) i [] ys h = absurd (omega arith)
get_elem?-take_append (suc k) zero (x ∷ xs) ys h = ground arith
get_elem?-take_append (suc k) (suc i) (x ∷ xs) ys h =
    get_elem?-take_append k i xs ys (omega arith) ∙ (ground arith)

-- The new entries replace the cached ones from their first index on. There is no hole between, and
-- neither the cached nor the new entries have a gap.
append_lem :
    (low n : ℕ) (cache : List LogEntry) (e : LogEntry) (es : List LogEntry)
    → IsRun low cache
    → IsRun n (e ∷ es)
    → n ≤ low + length cache
    → append cache (e ∷ es) ≡ ok (take (n - low) cache ++ e ∷ es)
unfolding append
append_lem low n [] e es r s h = ground arith
append_lem low n (c ∷ cs) e es r s h =
    let (last, found, at) = back_of_run low c cs r in
    rw (append, found) (appended low n (c ∷ cs) e es last (omega (arith, at)) s.0 h)

take_none : (n low : ℕ) (cache : List LogEntry) → n ≤ low → take (n - low) cache ≡ []
take_none n low cache h = let e : n - low ≡ 0 = omega (arith, h) in rw e refl

-- The cache stays without a gap and ends where the new entries do.
append-IsRun :
    (low n : ℕ) (cache : List LogEntry) (e : LogEntry) (es : List LogEntry)
    → IsRun low cache
    → IsRun n (e ∷ es)
    → n ≤ low + length cache
    → IsRun (min n low) (take (n - low) cache ++ e ∷ es)
      × (min n low + length (take (n - low) cache ++ e ∷ es) ≡ n + length (e ∷ es))
append-IsRun low n cache e es r s h = elim (Bool-cases (leb n low)) [
  | inl early ↦
      let first : min n low ≡ n = ground (arith, early) in
      rw (take_none n low cache (ground (arith, early)), first) (s, refl)
  | inr later ↦
      let first : min n low ≡ low = ground (arith, later) in
      let kept : length (take (n - low) cache) ≡ n - low =
        omega (arith, length-take-min (n - low) cache, h) in
      (
        subst (λ k. IsRun k (take (n - low) cache ++ e ∷ es)) (sym first)
            (IsRun-append low n (take (n - low) cache) (e ∷ es) (take-IsRun (n - low) low cache r)
              (ground (arith, later, kept)) s),
        ground (arith, later, kept, length-append (take (n - low) cache) (e ∷ es)),
      )
]

-- Entries without a gap are appended to a cache without a gap, and no hole is between them: the
-- cache stays without a gap and ends where the new entries do. Below their first index it has what
-- it had, from there on it has the new entries.
pub append_replaces :
    (low n : ℕ) (cache : List LogEntry) (e : LogEntry) (es : List LogEntry)
    → IsRun low cache
    → IsRun n (e ∷ es)
    → n ≤ low + length cache
    → (out : List LogEntry) × (append cache (e ∷ es) ≡ ok out)
      × IsRun (min n low) out
      × (min n low + length out ≡ n + length (e ∷ es))
      × ((i : ℕ)
          → get_elem? out i
            ≡ (if ltb i (n - low) then get_elem? cache i else get_elem? (e ∷ es) (i - (n - low))))
append_replaces low n cache e es r s h =
    let (run, end) = append-IsRun low n cache e es r s h in
    (
      take (n - low) cache ++ e ∷ es,
      append_lem low n cache e es r s h,
      run,
      end,
      λ i. get_elem?-take_append (n - low) i cache (e ∷ es) (omega (arith, h)),
    )

-- A dropped prefix moves the start of the run.
drains_to-IsRun :
    (low applied : ℕ) (cache : List LogEntry)
    → IsRun low cache
    → low ≤ applied
    → applied < low + length cache
    → (k : ℕ) × (drains_to cache applied ≡ ok (drop k cache))
      × IsRun (low + k) (drop k cache)
      × (low + k ≤ applied)
unfolding drains_to
drains_to-IsRun low applied [] r b h = absurd (omega (arith, b, h))
drains_to-IsRun low applied (e ∷ es) r b h = (
  (applied - e.index) / 2,
  ground (arith, r.0, b, h),
  drop-IsRun ((applied - e.index) / 2) low (e ∷ es) r,
  omega (arith, r.0, b),
)
