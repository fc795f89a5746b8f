-- ===== src/Tests/Clusters.antt =====
-- Runs of the root: balancing, listing, liveness, watchers and the job that creates a group.
use mathlib.Core.List.{Memᴰ}
use mathlib.Core.List.Memᴰ.{head, tail}
use sekas.Prelude.{
  ℕ, ◌+◌, ◌≤◌, ◌≡◌, refl, is_some, true, false, none, some, List, [], ◌∷◌, map, All, map_get,
  map_remove, ◌==◌,
}
use sekas.Api.{ok, GroupDesc, ReplicaDesc, ShardDesc, voter}
use sekas.Root.Balance.{overfull, underfull, Mean, sort_by, with_status, rank_for_balance}
use sekas.Root.Balance.Ranked.{descending, rank_for_balance-descending}
use sekas.Root.Liveness.{Liveness, NodeLiveness, is_dead, get, renew, renew-get}
use sekas.Root.Allocator.{
  NodeDesc, active, leader, ReplicaState, schedulable, AllocSource, ShardAction, migrate,
  TransferLeader, shed,
}
use sekas.Root.Allocator.Source.{SysAllocSource, set_groups, alloc_source}
use sekas.Root.Allocator.Source.Indexed.{IsIndexed, IsExact, IsComplete, set_groups-IsIndexed}
use sekas.Root.Allocator.Shards.{
  shard_count, is_user_group, current_user_groups, total_shards, mean_shard_count,
  rank_group_for_balance, group_balance_state, preferred_remove_shard, migrate_to, target_from,
  rebalance_target, balance_from,
}
use sekas.Root.Allocator.Shards as Shards
use sekas.Root.Allocator.Shards.Moves.{IsGoodMove, compute_balance-IsGoodMove}
use sekas.Root.Allocator.Shards.Progress.{compute_balance_progress}
use sekas.Root.Allocator.Leaders as Leaders
use sekas.Root.Allocator.Leaders.{
  leader_count, total_leaders, mean_leader_count, leader_balance_state, rank_nodes_for_leader,
  other_replicas, transfer_target, leads, transfer_from, try_descrease_node_leader_count, shed_from,
}
use sekas.Root.Allocator.Leaders.Transfers.{IsTransfer, compute_balance-IsTransfer}
use sekas.Root.Allocator.Leaders.Panics.{HasResult, compute_balance-HasResult}

abbrev shard : ℕ → ShardDesc
shard id = record { id = id; collection_id = 1; range = none }

abbrev replica : ℕ → ℕ → ReplicaDesc
replica id node_id = record { id = id; node_id = node_id; role = voter }

-- The group 1 has three shards, the group 2 has none, and both have a replica on each node.
abbrev full_group : GroupDesc
full_group = record {
  id = 1;
  epoch = 3;
  shards = shard 10 ∷ shard 11 ∷ shard 12 ∷ [];
  replicas = replica 101 1 ∷ replica 102 2 ∷ [];
}

abbrev empty_group : GroupDesc
empty_group = record {
  id = 2;
  epoch = 1;
  shards = [];
  replicas = replica 201 1 ∷ replica 202 2 ∷ [];
}

abbrev groups : List GroupDesc
groups = full_group ∷ empty_group ∷ []

abbrev node : ℕ → ℕ → NodeDesc
node id leaders = record {
  id = id;
  capacity = some record { replica_count = 2; leader_count = leaders };
  status = active;
}

abbrev leading : ReplicaState
leading = record { replica_id = 101; group_id = 1; term = 4; role = leader; node_id = 1 }

abbrev nobody : Liveness
nobody = record { liveness_threshold = 10; nodes = [] }

abbrev listed : SysAllocSource
listed = record {
  liveness = nobody;
  nodes = node 1 2 ∷ node 2 0 ∷ [];
  descs = [];
  node_replicas = [];
  replicas = (101, leading) ∷ [];
}

abbrev source : AllocSource
unfolding alloc_source set_groups
source = alloc_source 7 (set_groups listed groups)

abbrev move : ShardAction
move = migrate record { shard = 10; source_group = 1; target_group = 2 }

moves : Shards.compute_balance source ≡ move ∷ []
unfolding source Shards.compute_balance map_remove
moves = refl

compute_balance-IsGoodMove_example : IsGoodMove (map (λ e. e.1) source.groups) move
compute_balance-IsGoodMove_example = compute_balance-IsGoodMove source move moves

full_group_overfull :
    group_balance_state (shard_count full_group) (mean_shard_count source) ≡ overfull
unfolding source group_balance_state mean_shard_count current_user_groups map_remove
full_group_overfull = refl

empty_group_underfull :
    group_balance_state (shard_count empty_group) (mean_shard_count source) ≡ underfull
unfolding source group_balance_state mean_shard_count current_user_groups map_remove
empty_group_underfull = refl

full_group_listed : Memᴰ full_group (current_user_groups source)
unfolding source current_user_groups map_remove
full_group_listed = tail (head refl)

empty_group_listed : Memᴰ empty_group (current_user_groups source)
unfolding source current_user_groups map_remove
empty_group_listed = head refl

compute_balance_progress_example :
    (action : ShardAction) × (Shards.compute_balance source ≡ action ∷ [])
compute_balance_progress_example =
    compute_balance_progress source full_group empty_group full_group_listed empty_group_listed
      full_group_overfull empty_group_underfull

abbrev mean : Mean
mean = record { total = 3; number = 2 }

rank_for_balance-descending_example :
    rank_for_balance shard_count mean (empty_group ∷ full_group ∷ [])
    ≡ map
        (with_status shard_count mean)
        (sort_by (descending shard_count) (empty_group ∷ full_group ∷ []))
rank_for_balance-descending_example =
    rank_for_balance-descending shard_count mean (empty_group ∷ full_group ∷ [])

abbrev transfer : TransferLeader
transfer = record {
  group = 1;
  src_node = 1;
  src_replica = 101;
  target_node = 2;
  target_replica = 102;
}

transfers : Leaders.compute_balance source ≡ ok (shed transfer)
unfolding source Leaders.compute_balance map_remove
transfers = refl

compute_balance-IsTransfer_example : IsTransfer source transfer
compute_balance-IsTransfer_example = compute_balance-IsTransfer source transfer transfers

set_groups-IsIndexed_example :
    IsIndexed (alloc_source 7 (set_groups listed groups))
    × IsExact groups (alloc_source 7 (set_groups listed groups))
    × IsComplete groups (alloc_source 7 (set_groups listed groups))
set_groups-IsIndexed_example = set_groups-IsIndexed 7 listed groups

source-IsIndexed : IsIndexed source
unfolding source
source-IsIndexed = set_groups-IsIndexed_example.0

have_capacity : All (λ n. is_some n.capacity ≡ true) (source.nodes schedulable)
unfolding source
have_capacity = (refl, (refl, tt))

compute_balance-HasResult_example : HasResult (Leaders.compute_balance source)
compute_balance-HasResult_example = compute_balance-HasResult source have_capacity source-IsIndexed

abbrev seen_once : Liveness
seen_once = record { liveness_threshold = 10; nodes = (1, record { expiration = 25 }) ∷ [] }

renew-get_example :
    (12 ≤ 20 + 10 → is_dead 12 (get 12 (renew 20 seen_once 1) 1) ≡ false)
    × ((n : NodeLiveness)
        → map_get 2 seen_once.nodes ≡ some n
        → n.expiration ≤ (get 12 (renew 20 seen_once 1) 2).expiration)
    × ((1 == 2) ≡ false → get 12 (renew 20 seen_once 1) 2 ≡ get 12 seen_once 2)
renew-get_example = renew-get 20 12 seen_once 1 2
