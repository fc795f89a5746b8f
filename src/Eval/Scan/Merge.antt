-- ===== src/Eval/Scan/Merge.antt =====
-- A merged scan is in the order of the keys, and the target's values go before the source's.
use sekas.Prelude.{
  ◌≡◌, refl, sym, subst, inl, inr, Bool, true, false, Bool-cases, not, ◌||◌, Option, none, some,
  List, [], ◌∷◌, Bytes, bytes_eq, bytes_lt, bytes_lt_trans, bytes_lt_irrefl, bytes_lt_trichotomy,
  bytes_lt_asymm, bytes_eq→eq, bytes_eq_refl, if◌then◌else◌, arith, All, All-mono,
}
use sekas.Api.{ValueSet}
use sekas.Eval.Scan.{ShardScanResponse, merge_data, merge_scan_response}

abbrev pub IsAscending : List ValueSet → Type 0
IsAscending [] = Unit
IsAscending (x ∷ xs) = All (λ y. bytes_lt x.user_key y.user_key ≡ true) xs × IsAscending xs

-- The values of a key in a scan.
unfoldable pub lookup : Bytes → List ValueSet → Option ValueSet
lookup key [] = none
lookup key (x ∷ xs) = if bytes_eq x.user_key key then some x else lookup key xs

-- `key` is not behind all the keys of the scan.
unfoldable pub is_covered : Bytes → List ValueSet → Bool
is_covered key [] = false
is_covered key (x ∷ xs) = not (bytes_lt x.user_key key) || is_covered key xs

merge_data-All :
    (P : ValueSet → Type 0) (more : Bool) (xs ys : List ValueSet)
    → All P xs
    → All P ys
    → All P (merge_data more xs ys)
unfolding merge_data
merge_data-All P true [] ys hx hy = tt
merge_data-All P false [] ys hx hy = hy
merge_data-All P more (x ∷ xs) [] hx hy = hx
merge_data-All P more (x ∷ xs) (y ∷ ys) hx hy =
    let both = merge_data-All P more xs ys hx.1 hy.1 in
    let target_first = merge_data-All P more xs (y ∷ ys) hx.1 hy in
    let source_first = merge_data-All P more (x ∷ xs) ys hx hy.1 in
    elim (Bool-cases (bytes_eq x.user_key y.user_key)) [
      | inl same ↦ rw same (hx.0, both)
      | inr ne ↦ elim (Bool-cases (bytes_lt x.user_key y.user_key)) [
        | inl lt ↦ rw (ne, lt) (hx.0, target_first)
        | inr ge ↦ rw (ne, ge) (hy.0, source_first)
      ]
    ]

below :
    (k l : Bytes) (ys : List ValueSet)
    → bytes_lt k l ≡ true
    → All (λ y. bytes_lt l y.user_key ≡ true) ys
    → All (λ y. bytes_lt k y.user_key ≡ true) ys
below k l ys h = All-mono ys (λ y. λ lt. bytes_lt_trans k l y.user_key h lt)

not_eq_of_lt : (k l : Bytes) → bytes_lt k l ≡ true → bytes_eq k l ≡ false
not_eq_of_lt k l h = elim (Bool-cases (bytes_eq k l)) [
  | inl same ↦
      let at = bytes_eq→eq k l same in
      let h' : bytes_lt l l ≡ true = subst (λ j. bytes_lt j l ≡ true) at h in
      absurd (ground (arith, h', bytes_lt_irrefl l))
  | inr ne ↦ ne
]

not_eq_of_gt : (k l : Bytes) → bytes_lt l k ≡ true → bytes_eq k l ≡ false
not_eq_of_gt k l h = elim (Bool-cases (bytes_eq k l)) [
  | inl same ↦
      let at = bytes_eq→eq k l same in
      let h' : bytes_lt l l ≡ true = subst (λ j. bytes_lt l j ≡ true) at h in
      absurd (ground (arith, h', bytes_lt_irrefl l))
  | inr ne ↦ ne
]

merge_data-IsAscending :
    (more : Bool) (xs ys : List ValueSet)
    → IsAscending xs
    → IsAscending ys
    → IsAscending (merge_data more xs ys)
unfolding merge_data
merge_data-IsAscending true [] ys hx hy = tt
merge_data-IsAscending false [] ys hx hy = hy
merge_data-IsAscending more (x ∷ xs) [] hx hy = hx
merge_data-IsAscending more (x ∷ xs) (y ∷ ys) hx hy =
    let both = merge_data-IsAscending more xs ys hx.1 hy.1 in
    let target_first = merge_data-IsAscending more xs (y ∷ ys) hx.1 hy in
    let source_first = merge_data-IsAscending more (x ∷ xs) ys hx hy.1 in
    elim (bytes_lt_trichotomy x.user_key y.user_key) [
      | inl same ↦
          let test : bytes_eq x.user_key y.user_key ≡ true = rw same (bytes_eq_refl y.user_key) in
          rw test (
            merge_data-All (λ z. bytes_lt x.user_key z.user_key ≡ true) more xs ys hx.0
                (rw same hy.0),
            both,
          )
      | inr (inl lt) ↦
          let ne : bytes_eq x.user_key y.user_key ≡ false = not_eq_of_lt x.user_key y.user_key lt in
          rw (ne, lt)
            (
              merge_data-All (λ z. bytes_lt x.user_key z.user_key ≡ true) more xs (y ∷ ys) hx.0
                  (lt, below x.user_key y.user_key ys lt hy.0),
              target_first,
            )
      | inr (inr gt) ↦
          let ne : bytes_eq x.user_key y.user_key ≡ false = not_eq_of_gt x.user_key y.user_key gt in
          let ge = bytes_lt_asymm y.user_key x.user_key gt in
          rw (ne, ge)
            (
              merge_data-All (λ z. bytes_lt y.user_key z.user_key ≡ true) more (x ∷ xs) ys
                  (gt, below y.user_key x.user_key xs gt hx.0) hy.0,
              source_first,
            )
    ]

lookup-below :
    (key : Bytes) (xs : List ValueSet)
    → All (λ x. bytes_lt key x.user_key ≡ true) xs
    → lookup key xs ≡ none
unfolding lookup
lookup-below key [] h = refl
lookup-below key (x ∷ xs) h = rw (not_eq_of_gt x.user_key key h.0) (lookup-below key xs h.1)

-- `Option::or`.
abbrev pub either : Option ValueSet → Option ValueSet → Option ValueSet
either none source = source
either (some values) source = some values

either-none : (o : Option ValueSet) → either o none ≡ o
either-none none = refl
either-none (some values) = refl

-- Below all keys nothing is found.
merge_data-below :
    (more : Bool) (xs ys : List ValueSet) (key : Bytes)
    → All (λ x. bytes_lt key x.user_key ≡ true) xs
    → All (λ y. bytes_lt key y.user_key ≡ true) ys
    → lookup key (merge_data more xs ys) ≡ either (lookup key xs) (lookup key ys)
merge_data-below more xs ys key hx hy =
    let nothing = lookup-below key xs hx in
    let nor = lookup-below key ys hy in
    rw (nothing, nor)
      (lookup-below key (merge_data more xs ys)
        (merge_data-All (λ z. bytes_lt key z.user_key ≡ true) more xs ys hx hy))

merge_data-lookup :
    (more : Bool) (xs ys : List ValueSet) (key : Bytes)
    → IsAscending xs
    → IsAscending ys
    → not more || is_covered key xs ≡ true
    → lookup key (merge_data more xs ys) ≡ either (lookup key xs) (lookup key ys)
unfolding merge_data lookup is_covered
merge_data-lookup true [] ys key hx hy c = absurd (ground (arith, c))
merge_data-lookup false [] ys key hx hy c = refl
merge_data-lookup more (x ∷ xs) [] key hx hy c = sym (either-none (lookup key (x ∷ xs)))
merge_data-lookup more (x ∷ xs) (y ∷ ys) key hx hy c =
    elim (bytes_lt_trichotomy x.user_key y.user_key) [
      | inl same ↦
          let test : bytes_eq x.user_key y.user_key ≡ true = rw same (bytes_eq_refl y.user_key) in
          elim (bytes_lt_trichotomy x.user_key key) [
            | inl at ↦
                let hit : bytes_eq x.user_key key ≡ true = rw at (bytes_eq_refl key) in
                rw (test, hit) refl
            | inr (inl low) ↦
                let skip_x = not_eq_of_lt x.user_key key low in
                let skip_y : bytes_eq y.user_key key ≡ false =
                  subst (λ k. bytes_eq k key ≡ false) same skip_x in
                rw (test, skip_x, skip_y)
                  (merge_data-lookup more xs ys key hx.1 hy.1 (ground (arith, c, low)))
            | inr (inr high) ↦
                let skip_x = not_eq_of_gt x.user_key key high in
                let skip_y : bytes_eq y.user_key key ≡ false =
                  subst (λ k. bytes_eq k key ≡ false) same skip_x in
                let high_y : bytes_lt key y.user_key ≡ true =
                  subst (λ k. bytes_lt key k ≡ true) same high in
                rw (test, skip_x, skip_y)
                  (merge_data-below more xs ys key (below key x.user_key xs high hx.0)
                    (below key y.user_key ys high_y hy.0))
          ]
      | inr (inl lt) ↦
          let ne = not_eq_of_lt x.user_key y.user_key lt in
          elim (bytes_lt_trichotomy x.user_key key) [
            | inl at ↦
                let hit : bytes_eq x.user_key key ≡ true = rw at (bytes_eq_refl key) in
                rw (ne, lt, hit) refl
            | inr (inl low) ↦
                rw (ne, lt, not_eq_of_lt x.user_key key low)
                  (merge_data-lookup more xs (y ∷ ys) key hx.1 hy (ground (arith, c, low)))
            | inr (inr high) ↦
                let high_y = bytes_lt_trans key x.user_key y.user_key high lt in
                rw (ne, lt, not_eq_of_gt x.user_key key high)
                  (merge_data-below more xs (y ∷ ys) key (below key x.user_key xs high hx.0)
                    (high_y, below key y.user_key ys high_y hy.0))
          ]
      | inr (inr gt) ↦
          let ne = not_eq_of_gt x.user_key y.user_key gt in
          let ge = bytes_lt_asymm y.user_key x.user_key gt in
          elim (Bool-cases (bytes_eq y.user_key key)) [
            | inl hit ↦
                let high : bytes_lt key x.user_key ≡ true =
                  subst (λ k. bytes_lt k x.user_key ≡ true) (bytes_eq→eq y.user_key key hit) gt in
                rw
                  (
                    ne,
                    ge,
                    hit,
                    not_eq_of_gt x.user_key key high,
                    lookup-below key xs (below key x.user_key xs high hx.0),
                  )
                  refl
            | inr skip ↦ rw (ne, ge, skip) (merge_data-lookup more (x ∷ xs) ys key hx hy.1 c)
          ]
    ]

-- A merged scan of two ascending ones is ascending, and each key has the target's values, or else the
-- source's, up to the last key of a target that has more.
pub merge_scan_response-IsAscending :
    (target source : ShardScanResponse) (key : Bytes)
    → IsAscending target.value_sets
    → IsAscending source.value_sets
    → IsAscending (merge_scan_response target source).value_sets
      × (not target.has_more || is_covered key target.value_sets ≡ true
          → lookup key (merge_scan_response target source).value_sets
            ≡ either (lookup key target.value_sets) (lookup key source.value_sets))
unfolding merge_scan_response
merge_scan_response-IsAscending target source key ht hs = (
  merge_data-IsAscending target.has_more target.value_sets source.value_sets ht hs,
  merge_data-lookup target.has_more target.value_sets source.value_sets key ht hs,
)
