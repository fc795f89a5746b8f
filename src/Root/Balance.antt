-- ===== src/Root/Balance.antt =====
-- The ranking that the allocator's policies share: what is overfull or underfull against a mean,
-- and `sort_by`, which is stable.
--
-- The source computes with `f64`. The model compares exact fractions, as the source does for counts
-- far below 2^52: a count differs from a mean of n counts by a multiple of 1/n, and a half is exact.
pub mod Ranked
use Prim.Native.Nat.{compare, Ordering}
use sekas.Prelude.{
  ℕ, ◌+◌, ◌*◌, Bool, true, false, not, ◌&&◌, List, [], ◌∷◌, ◌++◌, map, ltb, if◌then◌else◌,
}

pub data BalanceStatus : Type 0 where
  overfull balanced underfull : BalanceStatus

abbrev pub is_overfull : BalanceStatus → Bool
is_overfull overfull = true
is_overfull balanced = false
is_overfull underfull = false

abbrev pub is_underfull : BalanceStatus → Bool
is_underfull overfull = false
is_underfull balanced = false
is_underfull underfull = true

-- `total / number`; a mean of nothing is not a number, which no count is above or below.
pub record Mean : Type 0 where
  pub total : ℕ
  pub number : ℕ

-- A count that differs from the mean by more than a half is overfull or underfull.
unfoldable pub balance_state : ℕ → Mean → BalanceStatus
balance_state count mean =
    if ltb (2 * mean.total + mean.number) (2 * (mean.number * count))
    then overfull
    else if ltb (2 * (mean.number * count) + mean.number) (2 * mean.total)
    then underfull
    else balanced

module _ {ℓ} {A : Type ℓ} where
  -- `sort_by`: equal elements keep their order.
  unfoldable pub place : Ordering → A → A → List A → List A → List A
  place Ordering.lt x y ys rest = x ∷ y ∷ ys
  place Ordering.eq x y ys rest = x ∷ y ∷ ys
  place Ordering.gt x y ys rest = y ∷ rest

  unfoldable pub insert_by : (A → A → Ordering) → A → List A → List A
  unfolding place
  insert_by cmp x [] = x ∷ []
  insert_by cmp x (y ∷ ys) = place (cmp x y) x y ys (insert_by cmp x ys)

  unfoldable pub sort_by : (A → A → Ordering) → List A → List A
  unfolding insert_by
  sort_by cmp [] = []
  sort_by cmp (x ∷ xs) = insert_by cmp x (sort_by cmp xs)

  -- `iter().rev()`.
  unfoldable pub rev : List A → List A
  rev [] = []
  rev (x ∷ xs) = rev xs ++ x ∷ []

module _ {ℓ} {A : Type ℓ} (count : A → ℕ) where
  unfoldable pub with_status : Mean → A → A × BalanceStatus
  unfolding balance_state
  with_status mean a = (a, balance_state (count a) mean)

  unfoldable pub compare_ranked : A × BalanceStatus → A × BalanceStatus → Ordering
  compare_ranked (n1, s1) (n2, s2) =
      if is_overfull s2 && not (is_overfull s1)
      then Ordering.gt
      else if is_underfull s2 && not (is_underfull s1)
      then Ordering.lt
      else compare (count n2) (count n1)

  unfoldable pub rank_for_balance : Mean → List A → List (A × BalanceStatus)
  unfolding with_status compare_ranked sort_by
  rank_for_balance mean xs = sort_by compare_ranked (map (with_status mean) xs)
