-- ===== src/Root/Allocator/Source.antt =====
-- src/server/src/root/allocator/source.rs: what the root has listed, indexed by node.
pub mod Indexed
use sekas.Prelude.{
  ℕ, Bool, true, false, not, ◌&&◌, Option, none, some, List, [], ◌∷◌, ◌++◌, map, retain, unwrap_or,
  Map, map_get, map_insert,
}
use sekas.Api.{GroupDesc, ReplicaDesc}
use sekas.Root.Liveness.{Liveness, is_dead, get}
use sekas.Root.Allocator.{
  NodeStatus, active, cordoned, draining, drained, decommissioning, decommissioned, unrecognized,
  NodeDesc, ReplicaState, NodeFilter, all, alive, schedulable, not_decommissioned, AllocSource,
}

-- The fields of `SysAllocSource`, `GroupInfo` and `ReplicaInfo`; `liveness` is read at one time.
pub record SysAllocSource : Type 0 where
  pub liveness : Liveness
  pub nodes : List NodeDesc
  pub descs : Map GroupDesc
  pub node_replicas : Map (List (ReplicaDesc × ℕ))
  pub replicas : Map ReplicaState

abbrev is_active : NodeStatus → Bool
is_active active = true
is_active _ = false

abbrev is_decommissioned : NodeStatus → Bool
is_decommissioned decommissioned = true
is_decommissioned _ = false

unfoldable pub filter_nodes : ℕ → Liveness → NodeFilter → List NodeDesc → List NodeDesc
unfolding is_dead get
filter_nodes now l all ns = ns
filter_nodes now l alive ns = retain (λ n. not (is_dead now (get now l n.id))) ns
filter_nodes now l schedulable ns =
    retain (λ n. is_active n.status && not (is_dead now (get now l n.id))) ns
filter_nodes now l not_decommissioned ns = retain (λ n. not (is_decommissioned n.status)) ns

unfoldable pub push_replica :
    ℕ → ReplicaDesc → Map (List (ReplicaDesc × ℕ)) → Map (List (ReplicaDesc × ℕ))
unfolding map_get map_insert
push_replica group_id replica m =
    map_insert replica.node_id
      (unwrap_or (map_get replica.node_id m) [] ++ (replica, group_id) ∷ []) m

unfoldable pub index_replicas :
    ℕ → List ReplicaDesc → Map (List (ReplicaDesc × ℕ)) → Map (List (ReplicaDesc × ℕ))
unfolding push_replica
index_replicas group_id [] m = m
index_replicas group_id (r ∷ rs) m = index_replicas group_id rs (push_replica group_id r m)

unfoldable pub index_groups :
    List GroupDesc → Map (List (ReplicaDesc × ℕ)) → Map (List (ReplicaDesc × ℕ))
unfolding index_replicas
index_groups [] m = m
index_groups (g ∷ gs) m = index_groups gs (index_replicas g.id g.replicas m)

-- `collect` of pairs into a `HashMap`: a later pair replaces an earlier one.
unfoldable pub collect_groups : List GroupDesc → Map GroupDesc → Map GroupDesc
unfolding map_insert
collect_groups [] m = m
collect_groups (g ∷ gs) m = collect_groups gs (map_insert g.id g m)

unfoldable pub collect_states : List ReplicaState → Map ReplicaState → Map ReplicaState
unfolding map_insert
collect_states [] m = m
collect_states (r ∷ rs) m = collect_states rs (map_insert r.replica_id r m)

unfoldable pub set_nodes : SysAllocSource → List NodeDesc → SysAllocSource
set_nodes s ns = record {
  liveness = s.liveness;
  nodes = ns;
  descs = s.descs;
  node_replicas = s.node_replicas;
  replicas = s.replicas;
}

unfoldable pub set_groups : SysAllocSource → List GroupDesc → SysAllocSource
unfolding index_groups collect_groups
set_groups s gs = record {
  liveness = s.liveness;
  nodes = s.nodes;
  descs = collect_groups gs [];
  node_replicas = index_groups gs [];
  replicas = s.replicas;
}

unfoldable pub set_replica_states : SysAllocSource → List ReplicaState → SysAllocSource
unfolding collect_states
set_replica_states s rs = record {
  liveness = s.liveness;
  nodes = s.nodes;
  descs = s.descs;
  node_replicas = s.node_replicas;
  replicas = collect_states rs [];
}

-- `impl AllocSource for SysAllocSource`, at a time.
unfoldable pub alloc_source : ℕ → SysAllocSource → AllocSource
unfolding filter_nodes map_get
alloc_source now s = record {
  nodes = λ filter. filter_nodes now s.liveness filter s.nodes;
  groups = s.descs;
  node_replicas = λ node_id. unwrap_or (map_get node_id s.node_replicas) [];
  replica_state = λ replica_id. map_get replica_id s.replicas;
  replica_states = map (λ e. e.1) s.replicas;
}
