-- ===== src/Fsm/Members/Roles.antt =====
-- The role that each replica has after a change of the members.
use sekas.Prelude.{
  ℕ, ◌≡◌, refl, Bool, true, not, Option, none, some, List, [], ◌∷◌, ◌++◌, ◌==◌, any, retain, arith,
  if◌then◌else◌, Bool-cases, inl, inr, ==_iff,
}
use sekas.Api.{ReplicaRole, ReplicaDesc, ok}
use sekas.Fsm.Members.{
  ChangeReplica, ChangeReplicaType, find_replica, set_role, put_replica, remove_replica,
  apply_simple_change, apply_leave_joint, leave_joint_role, leave_replica,
}

-- The role under which a replica is found.
unfoldable pub role_of : ℕ → List ReplicaDesc → Option ReplicaRole
role_of id [] = none
role_of id (r ∷ rs) = if r.id == id then some r.role else role_of id rs

pub role_of-set_role :
    (i id : ℕ) (role : ReplicaRole) (replicas : List ReplicaDesc)
    → role_of i (set_role id role replicas) ≡ (
        if i == id
        then elim (role_of i replicas) [ none ↦ none | some r ↦ some role ]
        else role_of i replicas)
unfolding role_of set_role
role_of-set_role i id role [] = ground arith
role_of-set_role i id role (r ∷ rs) = ground (arith, role_of-set_role i id role rs)

pub role_of-append :
    (i : ℕ) (replicas : List ReplicaDesc) (r : ReplicaDesc)
    → role_of i (replicas ++ r ∷ []) ≡ elim (role_of i replicas) [
      | none ↦ if r.id == i then some r.role else none
      | some role ↦ some role
    ]
unfolding role_of
role_of-append i [] r = ground arith
role_of-append i (s ∷ rs) r = ground (arith, role_of-append i rs r)

pub role_of-remove_replica :
    (i id : ℕ) (replicas : List ReplicaDesc)
    → role_of i (remove_replica id replicas) ≡ (if i == id then none else role_of i replicas)
unfolding role_of remove_replica
role_of-remove_replica i id [] = ground arith
role_of-remove_replica i id (r ∷ rs) = ground (arith, role_of-remove_replica i id rs)

pub find_replica-role :
    (id : ℕ) (replicas : List ReplicaDesc)
    → role_of id replicas ≡ elim (find_replica id replicas) [ none ↦ none | some r ↦ some r.role ]
unfolding role_of find_replica
find_replica-role id [] = refl
find_replica-role id (r ∷ rs) = ground (arith, find_replica-role id rs)

-- The role that a simple change gives its replica.
abbrev pub simple_role : ChangeReplicaType → Option ReplicaRole
simple_role ChangeReplicaType.add = some ReplicaRole.voter
simple_role ChangeReplicaType.add_learner = some ReplicaRole.learner
simple_role ChangeReplicaType.remove = none
simple_role (ChangeReplicaType.unrecognized n) = none

-- A simple change that does not panic gives its replica the role that it asks for, whether or not the
-- replica was there, and leaves the role of every other replica as it was.
pub apply_simple_change-role_of :
    (replicas replicas' : List ReplicaDesc) (change : ChangeReplica) (i : ℕ)
    → apply_simple_change replicas change ≡ ok replicas'
    → role_of i replicas'
      ≡ (if i == change.replica_id then simple_role change.change_type else role_of i replicas)
unfolding apply_simple_change put_replica
apply_simple_change-role_of replicas replicas' change i h = ground (
  arith,
  h,
  role_of-set_role i change.replica_id ReplicaRole.voter replicas,
  role_of-set_role i change.replica_id ReplicaRole.learner replicas,
  role_of-append i replicas
      (record { id = change.replica_id; node_id = change.node_id; role = ReplicaRole.voter }),
  role_of-append i replicas
      (record { id = change.replica_id; node_id = change.node_id; role = ReplicaRole.learner }),
  role_of-remove_replica i change.replica_id replicas,
  find_replica-role change.replica_id replicas,
)

pub role_of-leave_joint :
    (i : ℕ) (replicas : List ReplicaDesc)
    → role_of i (apply_leave_joint replicas)
      ≡ elim (role_of i replicas) [ none ↦ none | some r ↦ some (leave_joint_role r) ]
unfolding role_of apply_leave_joint leave_replica
role_of-leave_joint i [] = refl
role_of-leave_joint i (r ∷ rs) = ground (arith, role_of-leave_joint i rs)

abbrev pub is_outgoing : ℕ → List ℕ → Bool
is_outgoing i outgoing = any (λ id. id == i) outgoing

outgoing_same :
    (i j : ℕ) (outgoing : List ℕ)
    → (i == j) ≡ true
    → is_outgoing i outgoing ≡ is_outgoing j outgoing
outgoing_same i j [] e = refl
outgoing_same i j (o ∷ os) e = ground (arith, outgoing_same i j os e, ==_iff i j)

pub role_of-retain :
    (i : ℕ) (outgoing : List ℕ) (replicas : List ReplicaDesc)
    → role_of i (retain (λ r. not (any (λ id. id == r.id) outgoing)) replicas)
      ≡ (if is_outgoing i outgoing then none else role_of i replicas)
unfolding role_of
role_of-retain i outgoing [] = ground arith
role_of-retain i outgoing (r ∷ rs) = elim (Bool-cases (r.id == i)) [
  | inl same ↦
      ground (
        arith,
        role_of-retain i outgoing rs,
        ==_iff r.id i,
        same,
        outgoing_same r.id i outgoing same,
      )
  | inr other ↦ ground (arith, role_of-retain i outgoing rs, other)
]

-- The role of a replica while the joint state lasts, and the one that the leave gives it.
abbrev pub joint_role : ChangeReplicaType → Option ReplicaRole → Option ReplicaRole
joint_role ChangeReplicaType.add none = some ReplicaRole.incoming_voter
joint_role ChangeReplicaType.add_learner none = some ReplicaRole.learner
joint_role ChangeReplicaType.add (some ReplicaRole.learner) = some ReplicaRole.incoming_voter
joint_role ChangeReplicaType.remove (some ReplicaRole.learner) = none
joint_role ChangeReplicaType.remove (some ReplicaRole.voter) = some ReplicaRole.demoting_voter
joint_role ChangeReplicaType.add_learner (some ReplicaRole.voter) = some ReplicaRole.demoting_voter
joint_role _ role = role
