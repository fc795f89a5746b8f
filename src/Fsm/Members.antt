-- ===== src/Fsm/Members.antt =====
-- The change of a group's members (src/server/src/replica/fsm/mod.rs, `ChangeReplicaKind`,
-- `apply_simple_change`, `apply_enter_joint`, `apply_leave_joint`). The digests for the log have
-- no effect on the descriptor and are left out.
pub mod Roles
pub mod Joint
use sekas.Prelude.{
  ℕ, Bool, true, false, not, Option, none, some, List, [], ◌∷◌, ◌++◌, ◌==◌, if◌then◌else◌, retain,
  find, any, map,
}
use sekas.Api.{ReplicaRole, ReplicaDesc, Result, ok, err, panicked, ◌>>=◌, ◌>>◌}

pub data ChangeReplicaType : Type 0 where
  add remove add_learner : ChangeReplicaType
  unrecognized : ℕ → ChangeReplicaType

pub record ChangeReplica : Type 0 where
  pub change_type : ChangeReplicaType
  pub replica_id : ℕ
  pub node_id : ℕ

pub data ChangeReplicaKind : Type 0 where
  leave_joint simple enter_joint : ChangeReplicaKind

-- `ChangeReplicaKind::new`, with the change of the simple kind.
unfoldable pub change_kind : List ChangeReplica → ChangeReplicaKind
change_kind [] = ChangeReplicaKind.leave_joint
change_kind (c ∷ []) = ChangeReplicaKind.simple
change_kind (c ∷ d ∷ cs) = ChangeReplicaKind.enter_joint

unfoldable pub find_replica : ℕ → List ReplicaDesc → Option ReplicaDesc
find_replica id replicas = find (λ r. r.id == id) replicas

-- A write through what `find_replica_mut` returns: the first replica of the id.
unfoldable pub set_role : ℕ → ReplicaRole → List ReplicaDesc → List ReplicaDesc
set_role id role [] = []
set_role id role (r ∷ rs) =
    if r.id == id then record r { role = role } ∷ rs else r ∷ set_role id role rs

-- The role of a replica that is found; an unknown number counts as no role.
unfoldable pub exist_role : Option ReplicaDesc → Option ReplicaRole
exist_role none = none
exist_role (some r) = elim r.role [ ReplicaRole.unrecognized n ↦ none | role ↦ some role ]

unfoldable pub check_not_in_joint_state : Option ReplicaDesc → Result (Unit {0})
unfolding exist_role
check_not_in_joint_state exist = elim (exist_role exist) [
  | some ReplicaRole.incoming_voter ↦ panicked
  | some ReplicaRole.demoting_voter ↦ panicked
  | _ ↦ ok tt
]

-- A role for a replica that is there, or a new replica at the end.
unfoldable pub put_replica :
    Option ReplicaDesc → ChangeReplica → ReplicaRole → List ReplicaDesc → List ReplicaDesc
unfolding set_role
put_replica (some r) change role replicas = set_role change.replica_id role replicas
put_replica none change role replicas =
    replicas ++ record { id = change.replica_id; node_id = change.node_id; role = role } ∷ []

unfoldable pub remove_replica : ℕ → List ReplicaDesc → List ReplicaDesc
remove_replica id replicas = retain (λ r. not (r.id == id)) replicas

unfoldable pub apply_simple_change : List ReplicaDesc → ChangeReplica → Result (List ReplicaDesc)
unfolding find_replica check_not_in_joint_state put_replica remove_replica
apply_simple_change replicas change = do
  let exist = find_replica change.replica_id replicas
  check_not_in_joint_state exist
  elim change.change_type [
    | ChangeReplicaType.add ↦ ok (put_replica exist change ReplicaRole.voter replicas)
    | ChangeReplicaType.add_learner ↦ ok (put_replica exist change ReplicaRole.learner replicas)
    | ChangeReplicaType.remove ↦ ok (remove_replica change.replica_id replicas)
    | ChangeReplicaType.unrecognized n ↦ panicked
  ]

-- The match on the role and the change in `apply_enter_joint`: the replicas and the learners that
-- leave.
unfoldable pub enter_joint_change :
    Option ReplicaRole
    → ChangeReplica
    → List ReplicaDesc × List ℕ
    → Result (List ReplicaDesc × List ℕ)
unfolding put_replica set_role
enter_joint_change role change (replicas, outgoing) = elim role [
  | some ReplicaRole.learner ↦ elim change.change_type [
    | ChangeReplicaType.add ↦
        ok (set_role change.replica_id ReplicaRole.incoming_voter replicas, outgoing)
    | ChangeReplicaType.remove ↦ ok (replicas, change.replica_id ∷ outgoing)
    | ChangeReplicaType.add_learner ↦ ok (replicas, outgoing)
    | ChangeReplicaType.unrecognized n ↦ panicked
  ]
  | some ReplicaRole.voter ↦ elim change.change_type [
    | ChangeReplicaType.add ↦ ok (replicas, outgoing)
    | ChangeReplicaType.remove ↦
        ok (set_role change.replica_id ReplicaRole.demoting_voter replicas, outgoing)
    | ChangeReplicaType.add_learner ↦
        ok (set_role change.replica_id ReplicaRole.demoting_voter replicas, outgoing)
    | ChangeReplicaType.unrecognized n ↦ panicked
  ]
  | none ↦ elim change.change_type [
    | ChangeReplicaType.add ↦
        ok (put_replica none change ReplicaRole.incoming_voter replicas, outgoing)
    | ChangeReplicaType.remove ↦ ok (replicas, outgoing)
    | ChangeReplicaType.add_learner ↦
        ok (put_replica none change ReplicaRole.learner replicas, outgoing)
    | ChangeReplicaType.unrecognized n ↦ panicked
  ]
  | some _ ↦ panicked
]

unfoldable pub enter_joint_changes :
    List ChangeReplica → List ReplicaDesc × List ℕ → Result (List ReplicaDesc × List ℕ)
unfolding enter_joint_change check_not_in_joint_state find_replica exist_role
enter_joint_changes [] state = ok state
enter_joint_changes (change ∷ changes) state = do
  let exist = find_replica change.replica_id state.0
  check_not_in_joint_state exist
  next ← enter_joint_change (exist_role exist) change state
  enter_joint_changes changes next

unfoldable pub apply_enter_joint : List ReplicaDesc → List ChangeReplica → Result (List ReplicaDesc)
unfolding enter_joint_changes
apply_enter_joint replicas changes = do
  (entered, outgoing) ← enter_joint_changes changes (replicas, [])
  ok (retain (λ r. not (any (λ id. id == r.id) outgoing)) entered)

unfoldable pub leave_joint_role : ReplicaRole → ReplicaRole
leave_joint_role ReplicaRole.incoming_voter = ReplicaRole.voter
leave_joint_role ReplicaRole.demoting_voter = ReplicaRole.learner
leave_joint_role ReplicaRole.voter = ReplicaRole.voter
leave_joint_role ReplicaRole.learner = ReplicaRole.learner
leave_joint_role (ReplicaRole.unrecognized n) = ReplicaRole.unrecognized n

unfoldable pub leave_replica : ReplicaDesc → ReplicaDesc
unfolding leave_joint_role
leave_replica r = record r { role = leave_joint_role r.role }

unfoldable pub apply_leave_joint : List ReplicaDesc → List ReplicaDesc
unfolding leave_replica
apply_leave_joint replicas = map leave_replica replicas

-- `apply_change_replicas` without the epoch.
unfoldable pub change_replicas : List ChangeReplica → List ReplicaDesc → Result (List ReplicaDesc)
unfolding apply_leave_joint apply_simple_change apply_enter_joint
change_replicas [] replicas = ok (apply_leave_joint replicas)
change_replicas (c ∷ []) replicas = apply_simple_change replicas c
change_replicas (c ∷ d ∷ cs) replicas = apply_enter_joint replicas (c ∷ d ∷ cs)
