-- ===== src/Root/Allocator/Leaders.antt =====
-- src/server/src/root/allocator/policy_leader_cnt.rs. Every node has its capacity from when it joins;
-- `mean_leader_count`, which is computed first, panics on a node without.
pub mod Transfers
pub mod Panics
use sekas.Prelude.{
  ℕ, ◌+◌, Bool, true, false, not, ◌&&◌, Option, none, some, List, [], ◌∷◌, map, length, retain,
  ◌==◌, if◌then◌else◌, Map, map_get, map_insert,
}
use sekas.Api.{
  Result, ok, err, panicked, ◌>>=◌, expect, GroupDesc, ReplicaDesc, ReplicaRole, voter, learner,
  incoming_voter, demoting_voter,
}
use sekas.Root.Balance.{
  BalanceStatus, Mean, is_overfull, is_underfull, balance_state, rev, rank_for_balance,
}
use sekas.Root.Allocator.{
  NodeCapacity, NodeDesc, RaftRole, leader, NodeFilter, schedulable, AllocSource, TransferLeader,
  LeaderAction, noop, shed, root_group_id, ReplicaState,
}

unfoldable pub leader_count : NodeDesc → ℕ
leader_count n = elim n.capacity [ none ↦ 0 | some c ↦ c.leader_count ]

unfoldable pub total_leaders : List NodeDesc → Result ℕ
total_leaders [] = ok 0
total_leaders (n ∷ ns) = do
  capacity ← expect n.capacity
  total ← total_leaders ns
  ok (capacity.leader_count + total)

unfoldable pub mean_leader_count : AllocSource → NodeFilter → Result Mean
unfolding total_leaders
mean_leader_count s filter = do
  total ← total_leaders (s.nodes filter)
  ok record { total = total; number = length (s.nodes filter) }

unfoldable pub leader_balance_state : ℕ → Mean → BalanceStatus
unfolding balance_state
leader_balance_state replica_num mean = balance_state replica_num mean

unfoldable pub rank_nodes_for_leader : Mean → List NodeDesc → List (NodeDesc × BalanceStatus)
unfolding rank_for_balance leader_count
rank_nodes_for_leader mean ns = rank_for_balance leader_count mean ns

abbrev pub is_voter : ReplicaRole → Bool
is_voter voter = true
is_voter _ = false

abbrev pub is_leader : RaftRole → Bool
is_leader leader = true
is_leader _ = false

-- `exist_replica_in_nodes`: the other replicas of the group by node, a later one replaces an earlier.
unfoldable pub other_replicas : ℕ → List ReplicaDesc → Map ReplicaDesc → Map ReplicaDesc
unfolding map_insert
other_replicas replica_id [] m = m
other_replicas replica_id (r ∷ rs) m =
    other_replicas replica_id rs (if r.id == replica_id then m else map_insert r.node_id r m)

-- The loop over the target nodes.
unfoldable pub transfer_target :
    Mean → Map ReplicaDesc → List (NodeDesc × BalanceStatus) → Option ReplicaDesc
unfolding leader_balance_state leader_count map_get
transfer_target mean replicas [] = none
transfer_target mean replicas ((target_node, state) ∷ ranked) =
    let rest = transfer_target mean replicas ranked in
    if not (is_underfull state)
    then rest
    else if is_overfull (leader_balance_state (leader_count target_node + 1) mean)
    then rest
    else elim (map_get target_node.id replicas) [ none ↦ rest | some r ↦ some r ]

unfoldable pub leads : AllocSource → ReplicaDesc → Bool
leads s replica = elim (s.replica_state replica.id) [
  | none ↦ false
  | some state ↦ is_leader state.role
]

-- The loop over the replicas of the node.
unfoldable pub transfer_from :
    AllocSource
    → List (NodeDesc × BalanceStatus)
    → Mean
    → List (ReplicaDesc × ℕ)
    → Result (Option TransferLeader)
unfolding leads map_get other_replicas transfer_target rev
transfer_from s ranked mean [] = ok none
transfer_from s ranked mean ((replica, group_id) ∷ replicas) =
    let rest = transfer_from s ranked mean replicas in
    if not (not (group_id == root_group_id) && is_voter replica.role)
    then rest
    else if not (leads s replica)
    then rest
    else elim (map_get group_id s.groups) [
      | none ↦ panicked
      | some group ↦
          elim (transfer_target mean (other_replicas replica.id group.replicas []) (rev ranked)) [
            | none ↦ rest
            | some target ↦ ok (
                some record {
                  group = group_id;
                  src_node = replica.node_id;
                  src_replica = replica.id;
                  target_node = target.node_id;
                  target_replica = target.id;
                })
          ]
    ]

unfoldable pub try_descrease_node_leader_count :
    AllocSource → NodeDesc → List (NodeDesc × BalanceStatus) → Mean → Result (Option TransferLeader)
unfolding transfer_from
try_descrease_node_leader_count s n ranked mean = transfer_from s ranked mean (s.node_replicas n.id)

-- The loop over the overfull nodes.
unfoldable pub shed_from :
    AllocSource
    → List (NodeDesc × BalanceStatus)
    → Mean
    → List (NodeDesc × BalanceStatus)
    → Result LeaderAction
unfolding try_descrease_node_leader_count
shed_from s ranked mean [] = ok noop
shed_from s ranked mean ((n, state) ∷ others) =
    let rest = shed_from s ranked mean others in
    if not (is_overfull state)
    then rest
    else (try_descrease_node_leader_count s n ranked mean >>= λ found. elim found [
      | none ↦ rest
      | some transfer ↦ ok (shed transfer)
    ])

unfoldable pub compute_balance : AllocSource → Result LeaderAction
unfolding mean_leader_count rank_nodes_for_leader shed_from
compute_balance s = do
  mean ← mean_leader_count s schedulable
  let ranked = rank_nodes_for_leader mean (s.nodes schedulable)
  shed_from s ranked mean ranked
