-- ===== src/Eval/Scan/Limits.antt =====
-- What a scan returns: visible values within the limit and the range.
use sekas.Prelude.{
  ℕ, zero, suc, ◌+◌, ◌≤◌, ◌≡◌, refl, sym, subst, ◌⊎◌, inl, inr, true, false, Bool-cases,
  Option-cases, not, ◌&&◌, Option, none, some, is_some, List, [], ◌∷◌, ◌++◌, Bytes, length,
  length-append, is_empty, ◌==◌, if◌then◌else◌, arith, All, All-append,
}
use sekas.Api.{Value, ValueSet, TxnIntent, invalid_data, ok, ok_or, bind_ok}
use sekas.Schema.{txn_intent_version}
use sekas.Engine.Prost.{Codec}
use sekas.Engine.Snapshot.{MvccEntry, entry_version, entry_value, Snapshot, next, next_entry}
use sekas.Eval.Get.{Resolve}
use sekas.Eval.Scan.Sizes.{set_bytes, bytes_of, bytes_of-append, scan_value_set-bytes}
use sekas.Eval.Scan.{
  ShardScanRequest, ShardScanResponse, is_exceeds, is_exclude_boundary, Visit, skipped, seen,
  push_value, value_set_of, resolve_txn, visit, scan_value_set, is_full, scan_from, scan_inner,
}

-- No value is newer than the reader; a scan that is not raw has at most one, which is no tombstone.
abbrev pub AreVisible : ShardScanRequest → List Value → Type 0
AreVisible req values =
    All (λ v. v.version ≤ req.start_version) values
    × (req.include_raw_data ≡ false
        → All (λ v. is_some v.content ≡ true) values × (length values ≤ 1))

-- A value set of the response is not empty, visible, and not behind the end.
abbrev pub IsAnswer : ShardScanRequest → ValueSet → Type 0
IsAnswer req v =
    (is_empty v.values ≡ false)
    × AreVisible req v.values
    × (is_exceeds req.end_key v.user_key ≡ false)

-- A response within the limit; it has more only where it has as many keys as the limit, or as many
-- bytes.
abbrev pub IsResponse : ShardScanRequest → ShardScanResponse → Type 0
IsResponse req resp =
    All (IsAnswer req) resp.value_sets
    × (¬ (req.limit ≡ 0) → length resp.value_sets ≤ req.limit)
    × (resp.has_more ≡ true
        → (req.limit ≡ length resp.value_sets)
          ⊎ ((¬ (req.limit_bytes ≡ 0)) × (req.limit_bytes ≤ bytes_of resp.value_sets)))

module _ (I : Codec TxnIntent) (resolve : Resolve) (req : ShardScanRequest) where
  resolve_txn-visible :
      (user_key encoded : Bytes) (content : Option Bytes) (version : ℕ)
      → resolve_txn I resolve req.shard_id req.start_version user_key encoded
        ≡ ok (some (content, version))
      → version ≤ req.start_version
  unfolding resolve_txn
  resolve_txn-visible user_key encoded content version e = ground (arith, e)

  visit-visible :
      (entry : MvccEntry) (value : Option Bytes) (version : ℕ)
      → visit I resolve req entry ≡ ok (seen value version)
      → version ≤ req.start_version
  unfolding visit
  visit-visible entry value version e =
      elim (Bool-cases ((entry_version entry == txn_intent_version) && not req.ignore_txn_intent)) [
        | inl is_intent ↦
            let (encoded, present, e1) =
              bind_ok (ok_or (entry_value entry) invalid_data) _ (seen value version)
                (rw is_intent at e) in
            let (resolved, found, e2) =
              bind_ok (resolve_txn I resolve req.shard_id req.start_version entry.user_key encoded)
                _ (seen value version) e1 in
            let found' : resolve_txn I resolve req.shard_id req.start_version entry.user_key encoded
                ≡ ok (some (value, version)) =
              ground (arith, found, e2) in
            resolve_txn-visible entry.user_key encoded value version found'
        | inr other ↦ ground (arith, other, e)
      ]

  value_set_of-IsAnswer :
      (user_key : Bytes) (found : List Value × ℕ) (v : ValueSet × ℕ)
      → AreVisible req found.0
      → is_exceeds req.end_key user_key ≡ false
      → value_set_of user_key found ≡ some v
      → IsAnswer req v.0
  unfolding value_set_of
  value_set_of-IsAnswer user_key found v h x e = ground (arith, e)

  push_value-AreVisible :
      (value : Option Bytes) (version : ℕ) (found : List Value × ℕ)
      → version ≤ req.start_version
      → AreVisible req found.0
      → (req.include_raw_data ≡ false → found.0 ≡ [])
      → AreVisible req (push_value req value version found).0
  unfolding push_value
  push_value-AreVisible (some content) version (values, total) le h empty = (
    All-append (λ v. v.version ≤ req.start_version) values _ h.0 (le, tt),
    λ raw.
        subst
          (λ vs.
            All (λ v. is_some v.content ≡ true)
              (vs ++ record { content = some content; version = version } ∷ [])
            × (length (vs ++ record { content = some content; version = version } ∷ []) ≤ 1))
          (sym (empty raw)) ((refl, tt), omega arith),
  )
  push_value-AreVisible none version (values, total) le h empty =
      elim (Bool-cases req.include_raw_data) [
        | inl raw ↦ rw raw (
          All-append (λ v. v.version ≤ req.start_version) values _ h.0 (le, tt),
          λ no. absurd (ground (arith, no)),
        )
        | inr cooked ↦ rw cooked (h.0, λ no. h.1 cooked)
      ]

  -- After an entry: the next ones are looked at, or the values are returned.
  visited-IsAnswer :
      (fuel : ℕ) (user_key : Bytes) (found : List Value × ℕ) (s s' : Snapshot) (v : ValueSet × ℕ)
      (entry : MvccEntry) (visited : Visit)
      → is_exceeds req.end_key user_key ≡ false
      → AreVisible req found.0
      → (req.include_raw_data ≡ false → found.0 ≡ [])
      → ((found' : List Value × ℕ)
          → AreVisible req found'.0
          → (req.include_raw_data ≡ false → found'.0 ≡ [])
          → scan_value_set I resolve fuel req user_key found' s ≡ ok (s', some v)
          → IsAnswer req v.0)
      → visit I resolve req entry ≡ ok visited
      → elim visited [
        | skipped ↦ scan_value_set I resolve fuel req user_key found s
        | seen value version ↦
            if req.include_raw_data
            then scan_value_set I resolve fuel req user_key (push_value req value version found) s
            else ok (s, value_set_of user_key (push_value req value version found))
      ]
        ≡ ok (s', some v)
      → IsAnswer req v.0
  visited-IsAnswer fuel user_key found s s' v entry skipped x h empty next was e =
      next found h empty e
  visited-IsAnswer fuel user_key found s s' v entry (seen value version) x h empty next was e =
      let le = visit-visible entry value version was in
      let more = push_value-AreVisible value version found le h empty in
      elim (Bool-cases req.include_raw_data) [
        | inl raw ↦
            next (push_value req value version found) more (λ no. absurd (ground (arith, raw, no)))
              (ground (arith, raw, e))
        | inr cooked ↦
            value_set_of-IsAnswer user_key (push_value req value version found) v more x
              (ground (arith, cooked, e))
      ]

  scan_value_set-IsAnswer :
      (fuel : ℕ) (user_key : Bytes) (found : List Value × ℕ) (s s' : Snapshot) (v : ValueSet × ℕ)
      → is_exceeds req.end_key user_key ≡ false
      → AreVisible req found.0
      → (req.include_raw_data ≡ false → found.0 ≡ [])
      → scan_value_set I resolve fuel req user_key found s ≡ ok (s', some v)
      → IsAnswer req v.0
  unfolding scan_value_set
  scan_value_set-IsAnswer zero user_key found s s' v x h empty e =
      value_set_of-IsAnswer user_key found v h x (ground (arith, e))
  scan_value_set-IsAnswer (suc fuel) user_key found s s' v x h empty e =
      elim (Option-cases (next_entry s).1) [
        | inl done ↦ value_set_of-IsAnswer user_key found v h x (ground (arith, done, e))
        | inr (entry, here) ↦ elim (Bool-cases (is_exclude_boundary req entry.user_key)) [
          | inl excluded ↦ absurd (ground (arith, here, excluded, e))
          | inr inside ↦
              let (visited, was, e1) =
                bind_ok (visit I resolve req entry) _ (s', some v)
                  (rw (scan_value_set, here, inside) at e) in
              visited-IsAnswer fuel user_key found (next_entry s).0 s' v entry visited x h empty
                (λ found'. scan_value_set-IsAnswer fuel user_key found' (next_entry s).0 s' v x) was
                e1
        ]
      ]

  stopped-IsResponse :
      (found : List ValueSet)
      → All (IsAnswer req) found
      → (¬ (req.limit ≡ 0) → length found + 1 ≤ req.limit)
      → IsResponse req record { value_sets = found; has_more = false }
  stopped-IsResponse found h l = (h, λ n. omega (arith, l n), λ more. absurd (ground (arith, more)))

  -- After a key: the scan goes on, or a limit is reached.
  scanned-IsResponse :
      (fuel : ℕ) (found : List ValueSet) (total : ℕ) (s : Snapshot) (resp : ShardScanResponse)
      (user_key : Bytes) (r : Snapshot × Option (ValueSet × ℕ))
      → is_exceeds req.end_key user_key ≡ false
      → All (IsAnswer req) found
      → total ≡ bytes_of found
      → (¬ (req.limit ≡ 0) → length found + 1 ≤ req.limit)
      → ((found' : List ValueSet) (total' : ℕ) (s' : Snapshot)
          → All (IsAnswer req) found'
          → total' ≡ bytes_of found'
          → (¬ (req.limit ≡ 0) → length found' + 1 ≤ req.limit)
          → scan_from I resolve fuel req found' total' s' ≡ ok resp
          → IsResponse req resp)
      → scan_value_set I resolve (length s.db_iter + 2) req user_key ([], 0) s ≡ ok r
      → elim r.1 [
        | none ↦ scan_from I resolve fuel req found total r.0
        | some v ↦
            if is_full I resolve req (found ++ v.0 ∷ []) (total + v.1)
            then ok record { value_sets = found ++ v.0 ∷ []; has_more = true }
            else scan_from I resolve fuel req (found ++ v.0 ∷ []) (total + v.1) r.0
      ]
        ≡ ok resp
      → IsResponse req resp
  unfolding is_full
  scanned-IsResponse fuel found total s resp user_key (s', none) x h sum l go was e =
      go found total s' h sum l e
  scanned-IsResponse fuel found total s resp user_key (s', some v) x h sum l go was e =
      let answer =
        scan_value_set-IsAnswer (length s.db_iter + 2) user_key ([], 0) s s' v x
          (tt, λ raw. (tt, omega arith)) (λ raw. refl) was in
      let total_of : v.1 ≡ set_bytes v.0 =
        scan_value_set-bytes I resolve req (length s.db_iter + 2) user_key ([], 0) s s' v refl
          was in
      let sums : bytes_of (found ++ v.0 ∷ []) ≡ bytes_of found + set_bytes v.0 =
        bytes_of-append found v.0 in
      let answers = All-append (IsAnswer req) found (v.0 ∷ []) h (answer, tt) in
      let grown : length (found ++ v.0 ∷ []) ≡ length found + 1 = length-append found (v.0 ∷ []) in
      elim (Bool-cases (is_full I resolve req (found ++ v.0 ∷ []) (total + v.1))) [
        | inl full ↦
            let same : record { value_sets = found ++ v.0 ∷ []; has_more = true } ≡ resp =
              ground (arith, full, e) in
            let limited : (req.limit ≡ length (found ++ v.0 ∷ []))
                ⊎ ((¬ (req.limit_bytes ≡ 0)) × (req.limit_bytes ≤ bytes_of (found ++ v.0 ∷ []))) =
              ground (arith, full, total_of, sums, sum) in
            subst (IsResponse req) same (answers, λ n. omega (arith, grown, l n), λ more. limited)
        | inr room ↦
            go (found ++ v.0 ∷ []) (total + v.1) s' answers (omega (arith, total_of, sums, sum))
              (λ n. ground (arith, grown, room, l n, n)) (rw room at e)
      ]

  scan_from-IsResponse :
      (fuel : ℕ) (found : List ValueSet) (total : ℕ) (s : Snapshot) (resp : ShardScanResponse)
      → All (IsAnswer req) found
      → total ≡ bytes_of found
      → (¬ (req.limit ≡ 0) → length found + 1 ≤ req.limit)
      → scan_from I resolve fuel req found total s ≡ ok resp
      → IsResponse req resp
  unfolding scan_from is_full
  scan_from-IsResponse zero found total s resp h sum l e =
      subst (IsResponse req) (ground (arith, e)) (stopped-IsResponse found h l)
  scan_from-IsResponse (suc fuel) found total s resp h sum l e =
      elim (Option-cases (if (next s).1 then (next s).0.current_key else none)) [
        | inl done ↦ subst (IsResponse req) (ground (arith, done, e)) (stopped-IsResponse found h l)
        | inr (user_key, here) ↦ elim (Bool-cases (is_exceeds req.end_key user_key)) [
          | inl behind ↦
              subst (IsResponse req) (ground (arith, here, behind, e))
                (stopped-IsResponse found h l)
          | inr inside ↦
              let s1 = (next s).0 in
              let (r, was, e1) =
                bind_ok (scan_value_set I resolve (length s1.db_iter + 2) req user_key ([], 0) s1) _
                  resp (rw (scan_from, here, inside) at e) in
              scanned-IsResponse fuel found total s1 resp user_key r inside h sum l
                (λ found' total' s2. scan_from-IsResponse fuel found' total' s2 resp) was e1
        ]
      ]

  -- The value sets of a response are not empty, their keys are not behind `end_key`, which the code
  -- applies to a scan with a prefix as well, and their values are not newer than the reader; without
  -- raw data each has one value, which is no tombstone. The response keeps the limit, and it has more
  -- only where it reaches the limit or the limit of bytes.
  pub scan_inner-IsResponse :
      (s : Snapshot) (resp : ShardScanResponse)
      → scan_inner I resolve req s ≡ ok resp
      → IsResponse req resp
  unfolding scan_inner
  scan_inner-IsResponse s resp e =
      scan_from-IsResponse (length s.db_iter + 2) [] 0 s resp tt refl (λ n. omega (arith, n)) e
