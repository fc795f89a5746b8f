-- ===== src/Root/Allocator/Shards/Moves.antt =====
-- What a move of a shard does to the balance of the groups, and when there is one.
use mathlib.Core.List.{Memᴰ}
use sekas.Prelude.{
  ◌+◌, ◌≤◌, ◌≡◌, refl, inl, inr, Bool, true, Bool-cases, Option-cases, some, List, [], ◌∷◌, map,
  retain, arith, All, All-mono,
}
use sekas.Api.{GroupDesc, ShardDesc}
use sekas.Root.Balance.{
  BalanceStatus, overfull, balanced, underfull, Mean, balance_state, is_overfull, rev,
}
use sekas.Root.Balance.Ranked.{overfull-gap, IsRanked, rank_for_balance-All, rev-All, Memᴰ-All}
use sekas.Root.Allocator.{AllocSource, ShardAction, migrate, root_group_id}
use sekas.Root.Allocator.Shards.{
  shard_count, is_user_group, current_user_groups, mean_shard_count, rank_group_for_balance,
  group_balance_state, preferred_remove_shard, migrate_to, target_from, rebalance_target,
  balance_from, compute_balance,
}

-- The action moves the first shard of `source` to `target`.
abbrev pub MovesFirst : GroupDesc → GroupDesc → ShardAction → Type 0
MovesFirst source target action =
    (shard : ShardDesc) × (rest : List ShardDesc) × (source.shards ≡ shard ∷ rest)
    × (action
        ≡ migrate record { shard = shard.id; source_group = source.id; target_group = target.id })

abbrev pub IsListed : List GroupDesc → GroupDesc → Type 0
IsListed gs g = Memᴰ g gs × (¬ (g.id ≡ root_group_id))

-- An action on listed groups, of which the source has at least two shards more.
abbrev pub IsGoodMove : List GroupDesc → ShardAction → Type 0
IsGoodMove gs action =
    (source : GroupDesc) × (target : GroupDesc) × IsListed gs source
    × IsListed gs target
    × MovesFirst source target action
    × (shard_count target + 2 ≤ shard_count source)

migrate_to-moves :
    (source target : GroupDesc) (action : ShardAction) (shards : List ShardDesc)
    → source.shards ≡ shards
    → migrate_to source target ≡ some action
    → MovesFirst source target action
unfolding migrate_to preferred_remove_shard
migrate_to-moves source target action [] here e = absurd (ground (arith, here, e))
migrate_to-moves source target action (shard ∷ rest) here e =
    (shard, rest, here, ground (arith, here, e))

module _ (P : GroupDesc → Type 0) (mean : Mean) where
  target_from-moves :
      (source : GroupDesc) (es : List (GroupDesc × BalanceStatus)) (action : ShardAction)
      → All (IsRanked shard_count P mean) es
      → balance_state (shard_count source) mean ≡ overfull
      → target_from mean source es ≡ some action
      → (target : GroupDesc) × P target
        × MovesFirst source target action
        × (shard_count target + 2 ≤ shard_count source)
  unfolding target_from group_balance_state
  target_from-moves source [] action h o e = absurd (ground (arith, e))
  target_from-moves source ((target, overfull) ∷ es) action h o e = absurd (ground (arith, e))
  target_from-moves source ((target, balanced) ∷ es) action h o e = absurd (ground (arith, e))
  target_from-moves source ((target, underfull) ∷ es) action h o e =
      elim (Bool-cases (is_overfull (balance_state (shard_count target + 1) mean))) [
        | inl over ↦
            let later : target_from mean source es ≡ some action = ground (arith, over, e) in
            target_from-moves source es action h.1 o later
        | inr room ↦
            let here : migrate_to source target ≡ some action = ground (arith, room, e) in
            (
              target,
              h.0.0,
              migrate_to-moves source target action source.shards refl here,
              overfull-gap mean (shard_count source) (shard_count target) o
                  (λ over. ground (arith, over, room)),
            )
      ]

  balance_from-moves :
      (s : AllocSource) (ranked es : List (GroupDesc × BalanceStatus)) (action : ShardAction)
      → mean_shard_count s ≡ mean
      → All (IsRanked shard_count P mean) ranked
      → All (IsRanked shard_count P mean) es
      → balance_from s ranked es ≡ action ∷ []
      → (source : GroupDesc) × (target : GroupDesc) × P source
        × P target
        × MovesFirst source target action
        × (shard_count target + 2 ≤ shard_count source)
  unfolding balance_from rebalance_target
  balance_from-moves s ranked [] action m r h e = absurd (ground (arith, e))
  balance_from-moves s ranked ((source, balanced) ∷ es) action m r h e = absurd (ground (arith, e))
  balance_from-moves s ranked ((source, underfull) ∷ es) action m r h e = absurd (ground (arith, e))
  balance_from-moves s ranked ((source, overfull) ∷ es) action m r h e =
      elim (Option-cases (target_from (mean_shard_count s) source (rev ranked))) [
        | inl nowhere ↦
            let later : balance_from s ranked es ≡ action ∷ [] = ground (arith, nowhere, e) in
            balance_from-moves s ranked es action m r h.1 later
        | inr (a, found) ↦
            let same : a ≡ action = ground (arith, found, e) in
            let found' : target_from mean source (rev ranked) ≡ some action =
              ground (arith, found, same, m) in
            let (target, p, moved, gap) =
              target_from-moves source (rev ranked) action
                (rev-All (IsRanked shard_count P mean) ranked r) h.0.1 found' in
            (source, target, h.0.0, p, moved, gap)
      ]

retain-All {ℓ} :
    {A : Type ℓ} (p : A → Bool) (xs ys : List A)
    → All (λ y. Memᴰ y xs) ys
    → All (λ y. Memᴰ y xs × (p y ≡ true)) (retain p ys)
retain-All p xs [] h = tt
retain-All p xs (y ∷ ys) h = elim (Bool-cases (p y)) [
  | inl t ↦ rw t ((h.0, t), retain-All p xs ys h.1)
  | inr f ↦ rw f (retain-All p xs ys h.1)
]

pub user_groups-All :
    (s : AllocSource) → All (IsListed (map (λ e. e.1) s.groups)) (current_user_groups s)
unfolding current_user_groups is_user_group
user_groups-All s =
    (let gs = map (λ e. e.1) s.groups in
      All-mono (retain is_user_group gs) (λ g. λ h. (h.0, λ e. ground (arith, h.1, e)))
        (retain-All is_user_group gs gs (Memᴰ-All gs)))

-- A move of a shard goes from a listed user group to one that has at least two shards less.
pub compute_balance-IsGoodMove :
    (s : AllocSource) (action : ShardAction)
    → compute_balance s ≡ action ∷ []
    → IsGoodMove (map (λ e. e.1) s.groups) action
unfolding compute_balance rank_group_for_balance
compute_balance-IsGoodMove s action e =
    (let mean = mean_shard_count s in
      let gs = map (λ e. e.1) s.groups in
      let ranked = rank_group_for_balance mean (current_user_groups s) in
      let h : All (IsRanked shard_count (IsListed gs) mean) ranked =
        rank_for_balance-All shard_count (IsListed gs) mean (current_user_groups s)
          (user_groups-All s) in
      let (source, target, ls, lt, moved, gap) =
        balance_from-moves (IsListed gs) mean s ranked ranked action refl h h e in
      (source, target, ls, lt, moved, gap))
