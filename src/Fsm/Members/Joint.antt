-- ===== src/Fsm/Members/Joint.antt =====
-- The roles after a group enters a joint state, and after it leaves it.
use sekas.Prelude.{
  ℕ, ◌≡◌, refl, sym, ap, ◌∙◌, false, not, Option, none, some, List, [], ◌∷◌, ◌==◌, any, All,
  All-mono, retain, arith, subst, if◌then◌else◌, Bool-cases, inl, inr, ==_iff,
}
use sekas.Api.{ReplicaRole, ReplicaDesc, Error, Result, ok, err, panicked, ◌>>=◌, ◌>>◌}
use sekas.Fsm.Members.{
  ChangeReplica, find_replica, exist_role, check_not_in_joint_state, put_replica,
  enter_joint_change, enter_joint_changes, apply_enter_joint, apply_leave_joint, leave_joint_role,
}
use sekas.Fsm.Members.Roles.{
  role_of, role_of-set_role, role_of-append, find_replica-role, role_of-leave_joint, role_of-retain,
  joint_role, is_outgoing,
}

-- The role of a replica that is not about to leave.
abbrev staying : ℕ → List ReplicaDesc × List ℕ → Option ReplicaRole
staying i (replicas, outgoing) = if is_outgoing i outgoing then none else role_of i replicas

new_replica : ChangeReplica → ReplicaRole → ReplicaDesc
new_replica change role = record { id = change.replica_id; node_id = change.node_id; role = role }

enter_joint_change-staying :
    (i : ℕ) (change : ChangeReplica) (replicas : List ReplicaDesc) (outgoing : List ℕ)
    (next : List ReplicaDesc × List ℕ)
    → is_outgoing change.replica_id outgoing ≡ false
    → enter_joint_change
        (exist_role (find_replica change.replica_id replicas))
        change
        (replicas, outgoing)
      ≡ ok next
    → staying i next ≡ (
        if change.replica_id == i
        then joint_role change.change_type (staying i (replicas, outgoing))
        else staying i (replicas, outgoing))
unfolding enter_joint_change exist_role put_replica new_replica
enter_joint_change-staying i change replicas outgoing next fresh h = ground (
  arith,
  role_of-set_role i change.replica_id ReplicaRole.incoming_voter replicas,
  role_of-set_role i change.replica_id ReplicaRole.demoting_voter replicas,
  role_of-append i replicas (new_replica change ReplicaRole.incoming_voter),
  role_of-append i replicas (new_replica change ReplicaRole.learner),
  find_replica-role change.replica_id replicas,
)

enter_joint_change-outgoing :
    (j : ℕ) (change : ChangeReplica) (role : Option ReplicaRole) (replicas : List ReplicaDesc)
    (outgoing : List ℕ) (next : List ReplicaDesc × List ℕ)
    → (change.replica_id == j) ≡ false
    → is_outgoing j outgoing ≡ false
    → enter_joint_change role change (replicas, outgoing) ≡ ok next
    → is_outgoing j next.1 ≡ false
unfolding enter_joint_change put_replica
enter_joint_change-outgoing j change role replicas outgoing next other fresh h = ground arith

-- No two changes are of the same replica.
abbrev pub AreDistinct : List ChangeReplica → Type 0
AreDistinct [] = Unit {0}
AreDistinct (c ∷ cs) = All (λ d. (c.replica_id == d.replica_id) ≡ false) cs × AreDistinct cs

-- The role of a replica after all the changes.
abbrev pub joint_roles : ℕ → List ChangeReplica → Option ReplicaRole → Option ReplicaRole
joint_roles i [] role = role
joint_roles i (c ∷ cs) role =
    let rest = joint_roles i cs role in
    if c.replica_id == i then joint_role c.change_type role else rest

joint_roles-absent :
    (i : ℕ) (cs : List ChangeReplica) (role : Option ReplicaRole)
    → All (λ d. (i == d.replica_id) ≡ false) cs
    → joint_roles i cs role ≡ role
joint_roles-absent i [] role a = refl
joint_roles-absent i (c ∷ cs) role a = ground (arith, a.0, joint_roles-absent i cs role a.1)

-- The first change, then the others.
joint_roles-step :
    (i : ℕ) (c : ChangeReplica) (cs : List ChangeReplica) (role next : Option ReplicaRole)
    → All (λ d. (c.replica_id == d.replica_id) ≡ false) cs
    → next ≡ (if c.replica_id == i then joint_role c.change_type role else role)
    → joint_roles i cs next ≡ joint_roles i (c ∷ cs) role
joint_roles-step i c cs role next a e = elim (Bool-cases (c.replica_id == i)) [
  | inl same ↦
      let here : c.replica_id ≡ i = (==_iff c.replica_id i).0 same in
      rw same (
        joint_roles-absent i cs next
          (All-mono cs (λ d b. subst (λ k. (k == d.replica_id) ≡ false) here b) a)
        ∙ (rw same at e))
  | inr other ↦ rw other (ap (joint_roles i cs) (rw other at e))
]

err_ne {ℓ} : {A : Type ℓ} (x : Error) (a : A) → err x ≡ ok a → ⊥
err_ne x a h = cc

panicked_ne {ℓ} : {A : Type ℓ} (a : A) → panicked ≡ ok a → ⊥
panicked_ne a h = cc

first_change :
    (c : ChangeReplica) (cs : List ChangeReplica) (replicas : List ReplicaDesc) (outgoing : List ℕ)
    (last : List ReplicaDesc × List ℕ)
    → enter_joint_changes (c ∷ cs) (replicas, outgoing) ≡ ok last
    → (next : List ReplicaDesc × List ℕ) × (enter_joint_change
          (exist_role (find_replica c.replica_id replicas))
          c
          (replicas, outgoing)
        ≡ ok next)
      × (enter_joint_changes cs next ≡ ok last)
unfolding enter_joint_changes
first_change c cs replicas outgoing last h =
    split (check_not_in_joint_state (find_replica c.replica_id replicas))
      (enter_joint_change (exist_role (find_replica c.replica_id replicas)) c (replicas, outgoing))
      refl h
  where
    split :
        (checked : Result (Unit {0})) (r : Result (List ReplicaDesc × List ℕ))
        → enter_joint_change
            (exist_role (find_replica c.replica_id replicas))
            c
            (replicas, outgoing)
          ≡ r
        → (checked >> (r >>= enter_joint_changes cs)) ≡ ok last
        → (next : List ReplicaDesc × List ℕ) × (enter_joint_change
              (exist_role (find_replica c.replica_id replicas))
              c
              (replicas, outgoing)
            ≡ ok next)
          × (enter_joint_changes cs next ≡ ok last)
    split (ok u) (ok next) e k = (next, e, k)
    split (ok u) (err x) e k = absurd (err_ne x last k)
    split (ok u) panicked e k = absurd (panicked_ne last k)
    split (err x) r e k = absurd (err_ne x last k)
    split panicked r e k = absurd (panicked_ne last k)

All-both :
    {P Q S : ChangeReplica → Type 0} (cs : List ChangeReplica)
    → ((c : ChangeReplica) → P c → Q c → S c)
    → All P cs
    → All Q cs
    → All S cs
All-both [] f p q = tt
All-both (c ∷ cs) f p q = (f c p.0 q.0, All-both cs f p.1 q.1)

enter_joint_changes-staying :
    (i : ℕ) (cs : List ChangeReplica) (replicas : List ReplicaDesc) (outgoing : List ℕ)
    (last : List ReplicaDesc × List ℕ)
    → AreDistinct cs
    → All (λ d. is_outgoing d.replica_id outgoing ≡ false) cs
    → enter_joint_changes cs (replicas, outgoing) ≡ ok last
    → staying i last ≡ joint_roles i cs (staying i (replicas, outgoing))
unfolding enter_joint_changes
enter_joint_changes-staying i [] replicas outgoing last d f h = cc
enter_joint_changes-staying i (c ∷ cs) replicas outgoing last d f h =
    let (next, first, rest) = first_change c cs replicas outgoing last h in
    enter_joint_changes-staying i cs next.0 next.1 last d.1
      (All-both cs
        (λ j a b. enter_joint_change-outgoing j.replica_id c _ replicas outgoing next a b first) d.0
        f.1)
      rest
    ∙ joint_roles-step i c cs (staying i (replicas, outgoing)) (staying i next) d.0
        (enter_joint_change-staying i c replicas outgoing next f.0 first)

-- The role that a replica has after the joint state.
abbrev pub leave_role : Option ReplicaRole → Option ReplicaRole
leave_role (some ReplicaRole.incoming_voter) = some ReplicaRole.voter
leave_role (some ReplicaRole.demoting_voter) = some ReplicaRole.learner
leave_role role = role

left_role :
    (role : Option ReplicaRole)
    → (elim role [ none ↦ none | some r ↦ some (leave_joint_role r) ]) ≡ leave_role role
unfolding leave_joint_role
left_role none = refl
left_role (some ReplicaRole.voter) = refl
left_role (some ReplicaRole.learner) = refl
left_role (some ReplicaRole.incoming_voter) = refl
left_role (some ReplicaRole.demoting_voter) = refl
left_role (some (ReplicaRole.unrecognized n)) = refl

ok_inj : (a b : List ReplicaDesc) → ok a ≡ ok b → a ≡ b
ok_inj a b h = cc

nothing_outgoing : (cs : List ChangeReplica) → All (λ d. is_outgoing d.replica_id [] ≡ false) cs
nothing_outgoing [] = tt
nothing_outgoing (c ∷ cs) = (refl, nothing_outgoing cs)

entered_state :
    (cs : List ChangeReplica) (replicas entered : List ReplicaDesc)
    → apply_enter_joint replicas cs ≡ ok entered
    → (last : List ReplicaDesc × List ℕ) × (enter_joint_changes cs (replicas, []) ≡ ok last)
      × (retain (λ r. not (any (λ id. id == r.id) last.1)) last.0 ≡ entered)
unfolding apply_enter_joint
entered_state cs replicas entered h = split (enter_joint_changes cs (replicas, [])) refl h
  where
    split :
        (r : Result (List ReplicaDesc × List ℕ))
        → enter_joint_changes cs (replicas, []) ≡ r
        → (r >>= λ p. ok (retain (λ d. not (any (λ id. id == d.id) p.1)) p.0)) ≡ ok entered
        → (last : List ReplicaDesc × List ℕ) × (enter_joint_changes cs (replicas, []) ≡ ok last)
          × (retain (λ d. not (any (λ id. id == d.id) last.1)) last.0 ≡ entered)
    split (ok p) e k = (p, e, ok_inj _ entered k)
    split (err x) e k = absurd (err_ne x entered k)
    split panicked e k = absurd (panicked_ne entered k)

-- The changes are of different replicas, and the entry to the joint state does not panic. In the
-- joint state each replica has the role that its change gives it, the others keep theirs, and
-- learners that are removed are gone; the leave makes voters of the incoming voters and learners of
-- the demoted ones.
pub apply_enter_joint-role_of :
    (cs : List ChangeReplica) (replicas entered : List ReplicaDesc) (i : ℕ)
    → AreDistinct cs
    → apply_enter_joint replicas cs ≡ ok entered
    → (role_of i entered ≡ joint_roles i cs (role_of i replicas))
      × (role_of i (apply_leave_joint entered) ≡ leave_role (joint_roles i cs (role_of i replicas)))
apply_enter_joint-role_of cs replicas entered i d h =
    let (last, ran, left) = entered_state cs replicas entered h in
    let joint : role_of i entered ≡ joint_roles i cs (role_of i replicas) =
      ap (role_of i) (sym left)
      ∙ role_of-retain i last.1 last.0
      ∙ enter_joint_changes-staying i cs replicas [] last d (nothing_outgoing cs) ran in
    (joint, role_of-leave_joint i entered ∙ left_role (role_of i entered) ∙ ap leave_role joint)
