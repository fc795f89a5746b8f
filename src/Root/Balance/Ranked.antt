-- ===== src/Root/Balance/Ranked.antt =====
-- The ranking is the stable order of the counts, the greatest first.
use Prim.Native.Nat.{compare, Ordering}
use native.Mathlib.Nat.{mul-le-mul_left, mul-add, mul-one}
use mathlib.Core.Path.{ap₂}
use mathlib.Core.List.{Memᴰ}
use mathlib.Core.List.Memᴰ.{head, tail}
use sekas.Prelude.{
  ℕ, ◌+◌, ◌≤◌, ◌≡◌, refl, ap, ◌∙◌, inl, inr, Bool-cases, leb, List, [], ◌∷◌, map, arith, All,
  All-mono, All-append,
}
use sekas.Root.Balance.{
  BalanceStatus, overfull, underfull, Mean, balance_state, place, insert_by, sort_by, rev,
  with_status, compare_ranked, rank_for_balance,
}

pub overfull_mono :
    (mean : Mean) (a b : ℕ)
    → a ≤ b
    → balance_state a mean ≡ overfull
    → balance_state b mean ≡ overfull
unfolding balance_state
overfull_mono mean a b h o = let le = mul-le-mul_left mean.number h in ground (arith, o, le)

pub underfull_mono :
    (mean : Mean) (a b : ℕ)
    → a ≤ b
    → balance_state b mean ≡ underfull
    → balance_state a mean ≡ underfull
unfolding balance_state
underfull_mono mean a b h u = let le = mul-le-mul_left mean.number h in ground (arith, u, le)

-- What is overfull counts at least two more than what is not even after one more.
pub overfull-gap :
    (mean : Mean) (a b : ℕ)
    → balance_state a mean ≡ overfull
    → ¬ (balance_state (b + 1) mean ≡ overfull)
    → b + 2 ≤ a
unfolding balance_state
overfull-gap mean a b o n = elim (Bool-cases (leb (b + 2) a)) [
  | inl h ↦ ground (arith, h)
  | inr h ↦ absurd (n (overfull_mono mean a (b + 1) (ground (arith, h)) o))
]

-- One more does not make the underfull overfull.
pub underfull-room :
    (mean : Mean) (b : ℕ)
    → balance_state b mean ≡ underfull
    → ¬ (balance_state (b + 1) mean ≡ overfull)
unfolding balance_state
underfull-room mean b u o =
    let step = mul-add mean.number b 1 in
    let one = mul-one mean.number in ground (arith, u, o, step, one)

module _ {ℓ} {A : Type ℓ} (cmp : A → A → Ordering) where
  module _ {κ} (P : A → Type κ) where
    place-All :
        (o : Ordering) (x y : A) (ys rest : List A)
        → P x
        → All P (y ∷ ys)
        → All P rest
        → All P (place o x y ys rest)
    unfolding place
    place-All Ordering.lt x y ys rest h hs r = (h, hs)
    place-All Ordering.eq x y ys rest h hs r = (h, hs)
    place-All Ordering.gt x y ys rest h hs r = (hs.0, r)

    pub insert_by-All : (x : A) (ys : List A) → P x → All P ys → All P (insert_by cmp x ys)
    unfolding insert_by
    insert_by-All x [] h hs = (h, tt)
    insert_by-All x (y ∷ ys) h hs =
        place-All (cmp x y) x y ys (insert_by cmp x ys) h hs (insert_by-All x ys h hs.1)

    pub sort_by-All : (xs : List A) → All P xs → All P (sort_by cmp xs)
    unfolding sort_by
    sort_by-All [] hs = tt
    sort_by-All (x ∷ xs) hs = insert_by-All x (sort_by cmp xs) hs.0 (sort_by-All xs hs.1)

  place-Memᴰ :
      (a : A) (o : Ordering) (x y : A) (ys rest : List A)
      → Memᴰ a (x ∷ y ∷ ys)
      → (Memᴰ a (x ∷ ys) → Memᴰ a rest)
      → Memᴰ a (place o x y ys rest)
  unfolding place
  place-Memᴰ a Ordering.lt x y ys rest m f = m
  place-Memᴰ a Ordering.eq x y ys rest m f = m
  place-Memᴰ a Ordering.gt x y ys rest (head e) f = tail (f (head e))
  place-Memᴰ a Ordering.gt x y ys rest (tail (head e)) f = head e
  place-Memᴰ a Ordering.gt x y ys rest (tail (tail m)) f = tail (f (tail m))

  insert_by-Memᴰ : (a x : A) (ys : List A) → Memᴰ a (x ∷ ys) → Memᴰ a (insert_by cmp x ys)
  unfolding insert_by
  insert_by-Memᴰ a x [] m = m
  insert_by-Memᴰ a x (y ∷ ys) m =
      place-Memᴰ a (cmp x y) x y ys (insert_by cmp x ys) m (insert_by-Memᴰ a x ys)

  pub sort_by-Memᴰ : (a : A) (xs : List A) → Memᴰ a xs → Memᴰ a (sort_by cmp xs)
  unfolding sort_by
  sort_by-Memᴰ a [] m = elim m [ ]
  sort_by-Memᴰ a (x ∷ xs) (head e) = insert_by-Memᴰ a x (sort_by cmp xs) (head e)
  sort_by-Memᴰ a (x ∷ xs) (tail m) =
      insert_by-Memᴰ a x (sort_by cmp xs) (tail (sort_by-Memᴰ a xs m))

module _ {ℓ} {A : Type ℓ} (count : A → ℕ) where
  -- The order of the counts alone, the greatest first.
  unfoldable pub descending : A → A → Ordering
  descending x y = compare (count y) (count x)

  compare_ranked-descending :
      (mean : Mean) (x y : A)
      → compare_ranked count (with_status count mean x) (with_status count mean y) ≡ descending x y
  unfolding compare_ranked with_status descending balance_state
  compare_ranked-descending mean x y = elim (Bool-cases (leb (count y) (count x))) [
    | inl h ↦
        let lt : count y ≤ count x = ground (arith, h) in
        let le = mul-le-mul_left mean.number lt in ground (arith, le)
    | inr h ↦
        let lt : count x ≤ count y = ground (arith, h) in
        let le = mul-le-mul_left mean.number lt in ground (arith, le)
  ]

  place-map :
      (mean : Mean) (o : Ordering) (x y : A) (ys rest : List A)
      → place o
          (with_status count mean x)
          (with_status count mean y)
          (map (with_status count mean) ys)
          (map (with_status count mean) rest)
        ≡ map (with_status count mean) (place o x y ys rest)
  unfolding place
  place-map mean Ordering.lt x y ys rest = refl
  place-map mean Ordering.eq x y ys rest = refl
  place-map mean Ordering.gt x y ys rest = refl

  insert_by-map :
      (mean : Mean) (x : A) (ys : List A)
      → insert_by
          (compare_ranked count)
          (with_status count mean x)
          (map (with_status count mean) ys)
        ≡ map (with_status count mean) (insert_by descending x ys)
  unfolding insert_by
  insert_by-map mean x [] = refl
  insert_by-map mean x (y ∷ ys) =
      ap₂
        (λ o rest.
          place o (with_status count mean x) (with_status count mean y)
            (map (with_status count mean) ys) rest)
        (compare_ranked-descending mean x y) (insert_by-map mean x ys)
      ∙ place-map mean (descending x y) x y ys (insert_by descending x ys)

  -- The comparison by status and count ranks as the counts alone do.
  pub rank_for_balance-descending :
      (mean : Mean) (xs : List A)
      → rank_for_balance count mean xs ≡ map (with_status count mean) (sort_by descending xs)
  unfolding rank_for_balance sort_by
  rank_for_balance-descending mean [] = refl
  rank_for_balance-descending mean (x ∷ xs) =
      ap (insert_by (compare_ranked count) (with_status count mean x))
        (rank_for_balance-descending mean xs)
      ∙ insert_by-map mean x (sort_by descending xs)

  abbrev pub AreDescending : List A → Type 0
  AreDescending [] = Unit
  AreDescending (x ∷ xs) = All (λ y. count y ≤ count x) xs × AreDescending xs

  place-AreDescending :
      (o : Ordering) (x y : A) (ys : List A)
      → descending x y ≡ o
      → AreDescending (y ∷ ys)
      → AreDescending (insert_by descending x ys)
      → AreDescending (place o x y ys (insert_by descending x ys))
  unfolding place descending
  place-AreDescending Ordering.lt x y ys e d i =
      let h : count y ≤ count x = ground (arith, e) in
      ((h, All-mono ys (λ z. λ le. omega (arith, le, h)) d.0), d)
  place-AreDescending Ordering.eq x y ys e d i =
      let h : count y ≤ count x = ground (arith, e) in
      ((h, All-mono ys (λ z. λ le. omega (arith, le, h)) d.0), d)
  place-AreDescending Ordering.gt x y ys e d i =
      (insert_by-All descending (λ z. count z ≤ count y) x ys (ground (arith, e)) d.0, i)

  insert_by-AreDescending :
      (x : A) (ys : List A) → AreDescending ys → AreDescending (insert_by descending x ys)
  unfolding insert_by
  insert_by-AreDescending x [] d = (tt, tt)
  insert_by-AreDescending x (y ∷ ys) d =
      place-AreDescending (descending x y) x y ys refl d (insert_by-AreDescending x ys d.1)

  pub sort_by-AreDescending : (xs : List A) → AreDescending (sort_by descending xs)
  unfolding sort_by
  sort_by-AreDescending [] = tt
  sort_by-AreDescending (x ∷ xs) =
      insert_by-AreDescending x (sort_by descending xs) (sort_by-AreDescending xs)

  -- A pair of the ranking: the element satisfies `P` and its status is computed from its count.
  abbrev pub IsRanked : (A → Type 0) → Mean → A × BalanceStatus → Type 0
  IsRanked P mean e = P e.0 × (balance_state (count e.0) mean ≡ e.1)

  module _ (P : A → Type 0) (mean : Mean) where
    with_status-All :
        (xs : List A) → All P xs → All (IsRanked P mean) (map (with_status count mean) xs)
    unfolding with_status
    with_status-All [] h = tt
    with_status-All (x ∷ xs) h = ((h.0, refl), with_status-All xs h.1)

    pub rank_for_balance-All :
        (xs : List A) → All P xs → All (IsRanked P mean) (rank_for_balance count mean xs)
    unfolding rank_for_balance
    rank_for_balance-All xs h = sort_by-All _ (IsRanked P mean) _ (with_status-All xs h)

pub rev-All {ℓ κ} : {A : Type ℓ} (P : A → Type κ) (xs : List A) → All P xs → All P (rev xs)
unfolding rev
rev-All P [] h = tt
rev-All P (x ∷ xs) h = All-append P (rev xs) (x ∷ []) (rev-All P xs h.1) (h.0, tt)

pub Memᴰ-All {ℓ} : {A : Type ℓ} (xs : List A) → All (λ y. Memᴰ y xs) xs
Memᴰ-All [] = tt
Memᴰ-All (x ∷ xs) = (head refl, All-mono xs (λ y. λ m. tail m) (Memᴰ-All xs))
