-- ===== src/Root/Allocator.antt =====
-- What the allocator decides on (src/server/src/root/allocator): the nodes, groups and replicas that
-- the root has listed, and the actions. A wait and the listing itself are not modelled.
pub mod Source
pub mod Shards
pub mod Leaders
use sekas.Prelude.{ℕ, Bool, Option, List, Map}
use sekas.Api.{GroupDesc, ReplicaDesc}

pub data NodeStatus : Type 0 where
  active cordoned draining drained decommissioning decommissioned : NodeStatus
  unrecognized : ℕ → NodeStatus

pub record NodeCapacity : Type 0 where
  pub replica_count : ℕ
  pub leader_count : ℕ

pub record NodeDesc : Type 0 where
  pub id : ℕ
  pub capacity : Option NodeCapacity
  pub status : NodeStatus

pub data RaftRole : Type 0 where
  follower candidate leader pre_candidate : RaftRole
  unrecognized : ℕ → RaftRole

pub record ReplicaState : Type 0 where
  pub replica_id : ℕ
  pub group_id : ℕ
  pub term : ℕ
  pub role : RaftRole
  pub node_id : ℕ

pub data NodeFilter : Type 0 where
  all alive schedulable not_decommissioned : NodeFilter

-- The trait `AllocSource`, after `refresh_all`.
pub record AllocSource : Type 0 where
  pub nodes : NodeFilter → List NodeDesc
  pub groups : Map GroupDesc
  pub node_replicas : ℕ → List (ReplicaDesc × ℕ)
  pub replica_state : ℕ → Option ReplicaState
  pub replica_states : List ReplicaState

pub record ReallocateShard : Type 0 where
  pub shard : ℕ
  pub source_group : ℕ
  pub target_group : ℕ

pub data ShardAction : Type 0 where
  migrate : ReallocateShard → ShardAction

pub record TransferLeader : Type 0 where
  pub group : ℕ
  pub src_node : ℕ
  pub src_replica : ℕ
  pub target_node : ℕ
  pub target_replica : ℕ

pub data LeaderAction : Type 0 where
  noop : LeaderAction
  shed : TransferLeader → LeaderAction

abbrev pub root_group_id : ℕ
root_group_id = 0
