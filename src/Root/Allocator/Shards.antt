-- ===== src/Root/Allocator/Shards.antt =====
-- src/server/src/root/allocator/policy_shard_cnt.rs. A `HashMap` lists its values in the order of the
-- association list; a sum of counts does not wrap.
pub mod Moves
pub mod Progress
use Prim.Native.Nat.{compare, Ordering}
use sekas.Prelude.{
  ℕ, ◌+◌, Bool, not, Option, none, some, List, [], ◌∷◌, map, length, is_empty, take, retain, ◌==◌,
  if◌then◌else◌,
}
use sekas.Api.{GroupDesc, ShardDesc}
use sekas.Root.Balance.{
  BalanceStatus, Mean, is_overfull, is_underfull, balance_state, sort_by, rev, rank_for_balance,
}
use sekas.Root.Allocator.{AllocSource, ReallocateShard, ShardAction, migrate, root_group_id}

unfoldable pub shard_count : GroupDesc → ℕ
shard_count g = length g.shards

unfoldable pub is_user_group : GroupDesc → Bool
is_user_group g = not (g.id == root_group_id)

unfoldable pub current_user_groups : AllocSource → List GroupDesc
unfolding is_user_group
current_user_groups s = retain is_user_group (map (λ e. e.1) s.groups)

unfoldable pub compare_shards : GroupDesc → GroupDesc → Ordering
unfolding shard_count
compare_shards g1 g2 = compare (shard_count g1) (shard_count g2)

unfoldable pub allocate_shard : AllocSource → ℕ → List GroupDesc
unfolding current_user_groups sort_by compare_shards
allocate_shard s n =
    (let groups = current_user_groups s in
      if is_empty groups then [] else take n (sort_by compare_shards groups))

unfoldable pub total_shards : List GroupDesc → ℕ
unfolding shard_count
total_shards [] = 0
total_shards (g ∷ gs) = shard_count g + total_shards gs

unfoldable pub mean_shard_count : AllocSource → Mean
unfolding current_user_groups total_shards
mean_shard_count s =
    (let groups = current_user_groups s in
      record { total = total_shards groups; number = length groups })

unfoldable pub rank_group_for_balance : Mean → List GroupDesc → List (GroupDesc × BalanceStatus)
unfolding rank_for_balance shard_count
rank_group_for_balance mean gs = rank_for_balance shard_count mean gs

unfoldable pub group_balance_state : ℕ → Mean → BalanceStatus
unfolding balance_state
group_balance_state shard_num mean = balance_state shard_num mean

unfoldable pub preferred_remove_shard : GroupDesc → GroupDesc → Option ShardDesc
preferred_remove_shard src_group target_group = elim src_group.shards [
  | [] ↦ none
  | shard ∷ rest ↦ some shard
]

unfoldable pub migrate_to : GroupDesc → GroupDesc → Option ShardAction
unfolding preferred_remove_shard
migrate_to source target = elim (preferred_remove_shard source target) [
  | none ↦ none
  | some shard ↦
      some (migrate record { shard = shard.id; source_group = source.id; target_group = target.id })
]

-- The loop over the ranking, from its end.
unfoldable pub target_from :
    Mean → GroupDesc → List (GroupDesc × BalanceStatus) → Option ShardAction
unfolding group_balance_state shard_count migrate_to
target_from mean source [] = none
target_from mean source ((target, state) ∷ ranked) =
    let rest = target_from mean source ranked in
    if not (is_underfull state)
    then none
    else if is_overfull (group_balance_state (shard_count target + 1) mean)
    then rest
    else migrate_to source target

unfoldable pub rebalance_target :
    AllocSource → GroupDesc → List (GroupDesc × BalanceStatus) → Option ShardAction
unfolding mean_shard_count target_from rev
rebalance_target s source ranked = target_from (mean_shard_count s) source (rev ranked)

-- The loop over the ranking, from its start.
unfoldable pub balance_from :
    AllocSource
    → List (GroupDesc × BalanceStatus)
    → List (GroupDesc × BalanceStatus)
    → List ShardAction
unfolding rebalance_target
balance_from s ranked [] = []
balance_from s ranked ((source, state) ∷ others) =
    let rest = balance_from s ranked others in
    if not (is_overfull state)
    then []
    else elim (rebalance_target s source ranked) [ none ↦ rest | some action ↦ action ∷ [] ]

unfoldable pub compute_balance : AllocSource → List ShardAction
unfolding mean_shard_count current_user_groups rank_group_for_balance balance_from
compute_balance s =
    (let ranked = rank_group_for_balance (mean_shard_count s) (current_user_groups s) in
      balance_from s ranked ranked)
