-- ===== src/Root/Allocator/Shards/Progress.antt =====
-- The balancing of shards goes on while a group is overfull and another one underfull.
use mathlib.Core.Path.{ap₂}
use mathlib.Core.List.{Memᴰ, map-append}
use mathlib.Core.List.Memᴰ.{head, tail}
use sekas.Prelude.{
  ℕ, ◌+◌, ◌≤◌, ◌≡◌, refl, sym, ap, ◌∙◌, subst, false, some, List, [], ◌∷◌, ◌++◌, map, arith, All,
}
use sekas.Api.{GroupDesc, ShardDesc}
use sekas.Root.Balance.{
  BalanceStatus, overfull, balanced, underfull, Mean, balance_state, is_overfull, sort_by, rev,
  with_status,
}
use sekas.Root.Balance.Ranked.{
  overfull_mono, underfull_mono, overfull-gap, underfull-room, descending,
  rank_for_balance-descending, AreDescending, sort_by-AreDescending, sort_by-Memᴰ,
}
use sekas.Root.Allocator.{AllocSource, ShardAction, migrate}
use sekas.Root.Allocator.Shards.{
  shard_count, current_user_groups, mean_shard_count, rank_group_for_balance, group_balance_state,
  preferred_remove_shard, migrate_to, target_from, rebalance_target, balance_from, compute_balance,
}

All-Memᴰ {ℓ κ} : {A : Type ℓ} (P : A → Type κ) (xs : List A) (a : A) → All P xs → Memᴰ a xs → P a
All-Memᴰ P [] a h m = elim m [ ]
All-Memᴰ P (x ∷ xs) a h (head e) = subst P (sym e) h.0
All-Memᴰ P (x ∷ xs) a h (tail m) = All-Memᴰ P xs a h.1 m

module _ {ℓ} {A : Type ℓ} (count : A → ℕ) where
  rev-map {κ} : {B : Type κ} (f : A → B) (xs : List A) → rev (map f xs) ≡ map f (rev xs)
  unfolding rev
  rev-map f [] = refl
  rev-map f (x ∷ xs) = ap (λ t. t ++ f x ∷ []) (rev-map f xs) ∙ sym (map-append f (rev xs) (x ∷ []))

  -- The last of the ranking, which `rev` puts first, has the least count.
  rev-least :
      (x : A) (xs : List A)
      → AreDescending count (x ∷ xs)
      → (z : A) × (zs : List A) × (rev (x ∷ xs) ≡ z ∷ zs) × All (λ y. count z ≤ count y) (x ∷ xs)
  unfolding rev
  rev-least x [] d = (x, [], refl, (omega arith, tt))
  rev-least x (y ∷ ys) d =
      let (z, zs, e, h) = rev-least y ys d.1 in
      (z, zs ++ x ∷ [], ap (λ t. t ++ x ∷ []) e, (omega (arith, h.0, d.0.0), h))

not_overfull : (state : BalanceStatus) → ¬ (state ≡ overfull) → is_overfull state ≡ false
not_overfull overfull n = absurd (n refl)
not_overfull balanced n = refl
not_overfull underfull n = refl

migrate_to-moves :
    (source target : GroupDesc) (shards : List ShardDesc)
    → source.shards ≡ shards
    → 1 ≤ shard_count source
    → (action : ShardAction) × (migrate_to source target ≡ some action)
unfolding migrate_to preferred_remove_shard shard_count
migrate_to-moves source target [] here h = absurd (ground (arith, here, h))
migrate_to-moves source target (shard ∷ rest) here h = (
  migrate record { shard = shard.id; source_group = source.id; target_group = target.id },
  rw here refl,
)

-- The loops on a ranking whose first group is overfull and whose last one is underfull.
ranked-moves :
    (s : AllocSource) (mean : Mean) (source target : GroupDesc)
    (ranked others before : List (GroupDesc × BalanceStatus))
    → mean_shard_count s ≡ mean
    → rev ranked ≡ with_status shard_count mean target ∷ before
    → balance_state (shard_count source) mean ≡ overfull
    → balance_state (shard_count target) mean ≡ underfull
    → (action : ShardAction) × (balance_from s ranked (with_status shard_count mean source ∷ others)
        ≡ action ∷ [])
unfolding balance_from rebalance_target target_from group_balance_state with_status
ranked-moves s mean source target ranked others before m r o u =
    let room = underfull-room mean (shard_count target) u in
    let gap = overfull-gap mean (shard_count source) (shard_count target) o room in
    let (action, found) = migrate_to-moves source target source.shards refl (omega (arith, gap)) in
    let fits : is_overfull (balance_state (shard_count target + 1) mean) ≡ false =
      not_overfull (balance_state (shard_count target + 1) mean) room in
    let aim : target_from mean source (with_status shard_count mean target ∷ before) ≡ some action =
      rw (u, fits, found) refl in
    let target_found : rebalance_target s source ranked ≡ some action =
      ap₂ (λ n es. target_from n source es) m r ∙ aim in
    (action, rw (o, target_found) refl)

sorted-moves :
    (s : AllocSource) (mean : Mean) (a b : GroupDesc) (gs : List GroupDesc)
    → mean_shard_count s ≡ mean
    → AreDescending shard_count gs
    → Memᴰ a gs
    → Memᴰ b gs
    → balance_state (shard_count a) mean ≡ overfull
    → balance_state (shard_count b) mean ≡ underfull
    → (action : ShardAction) × (balance_from s
          (map (with_status shard_count mean) gs)
          (map (with_status shard_count mean) gs)
        ≡ action ∷ [])
sorted-moves s mean a b [] m d ma mb o u = elim ma [ ]
sorted-moves s mean a b (g ∷ gs) m d ma mb o u =
    let (z, zs, ends, least) = rev-least shard_count g gs d in
    let most : All (λ y. shard_count y ≤ shard_count g) (g ∷ gs) = (omega arith, d.0) in
    let source_overfull =
      overfull_mono mean (shard_count a) (shard_count g) (All-Memᴰ _ (g ∷ gs) a most ma) o in
    let target_underfull =
      underfull_mono mean (shard_count z) (shard_count b) (All-Memᴰ _ (g ∷ gs) b least mb) u in
    let f = with_status shard_count mean in
    ranked-moves s mean g z (map f (g ∷ gs)) (map f gs) (map f zs) m
      (rev-map shard_count f (g ∷ gs) ∙ ap (map f) ends) source_overfull target_underfull

-- While a user group is overfull and another one underfull, a shard is moved.
pub compute_balance_progress :
    (s : AllocSource) (a b : GroupDesc)
    → Memᴰ a (current_user_groups s)
    → Memᴰ b (current_user_groups s)
    → group_balance_state (shard_count a) (mean_shard_count s) ≡ overfull
    → group_balance_state (shard_count b) (mean_shard_count s) ≡ underfull
    → (action : ShardAction) × (compute_balance s ≡ action ∷ [])
unfolding compute_balance group_balance_state rank_group_for_balance
compute_balance_progress s a b ma mb o u =
    (let mean = mean_shard_count s in
      let groups = current_user_groups s in
      let gs = sort_by (descending shard_count) groups in
      subst (λ ranked. (action : ShardAction) × (balance_from s ranked ranked ≡ action ∷ []))
        (sym (rank_for_balance-descending shard_count mean groups))
        (sorted-moves s mean a b gs refl (sort_by-AreDescending shard_count groups)
          (sort_by-Memᴰ (descending shard_count) a groups ma)
          (sort_by-Memᴰ (descending shard_count) b groups mb) o u))
