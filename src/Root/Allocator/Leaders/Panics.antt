-- ===== src/Root/Allocator/Leaders/Panics.antt =====
-- The balancing of leaders does not panic on what the root lists.
use sekas.Prelude.{
  ℕ, ◌+◌, ◌≡◌, refl, inl, inr, Bool, true, false, Option-cases, Option, none, some, List, [], ◌∷◌,
  if◌then◌else◌, arith, All, All-mono, map_get, is_some,
}
use sekas.Api.{Result, ok, err, panicked, ◌>>=◌, ReplicaDesc}
use sekas.Root.Balance.{BalanceStatus, Mean}
use sekas.Root.Allocator.{NodeDesc, schedulable, AllocSource, noop}
use sekas.Root.Allocator.Source.Indexed.{IsIndexed}
use sekas.Root.Allocator.Leaders.{
  mean_leader_count, rank_nodes_for_leader, transfer_from, try_descrease_node_leader_count,
  shed_from, compute_balance, total_leaders,
}

abbrev pub HasResult {ℓ} : {A : Type ℓ} → Result A → Type ℓ
HasResult {A = A} r = (a : A) × (r ≡ ok a)

abbrev pub HaveCapacity : List NodeDesc → Type 0
HaveCapacity ns = All (λ n. is_some n.capacity ≡ true) ns

total_leaders-HasResult : (ns : List NodeDesc) → HaveCapacity ns → HasResult (total_leaders ns)
unfolding total_leaders
total_leaders-HasResult [] h = (0, refl)
total_leaders-HasResult (n ∷ ns) h =
    let (total, rest) = total_leaders-HasResult ns h.1 in
    elim (Option-cases n.capacity) [
      | inl missing ↦ absurd (ground (arith, missing, h.0))
      | inr (c, here) ↦ (c.leader_count + total, rw (here, rest) refl)
    ]

HasResult-if {κ} :
    {B : Type κ} (b : Bool) (x y : Result B)
    → HasResult x
    → HasResult y
    → HasResult (if b then x else y)
HasResult-if true x y hx hy = hx
HasResult-if false x y hx hy = hy

module _ {ℓ κ} {A : Type ℓ} {B : Type κ} where
  HasResult-found :
      (o : Option A) (f : A → Result B) (rest : Result B)
      → HasResult rest
      → ((a : A) → HasResult (f a))
      → HasResult (elim o [ none ↦ rest | some a ↦ f a ])
  HasResult-found none f rest h k = h
  HasResult-found (some a) f rest h k = k a

  HasResult-expected :
      (o : Option A) (f : A → Result B)
      → is_some o ≡ true
      → ((a : A) → HasResult (f a))
      → HasResult (elim o [ none ↦ panicked | some a ↦ f a ])
  HasResult-expected none f h k = absurd (ground (arith, h))
  HasResult-expected (some a) f h k = k a

  HasResult-bind :
      (r : Result A) (f : A → Result B)
      → HasResult r
      → ((a : A) → HasResult (f a))
      → HasResult (r >>= f)
  HasResult-bind (ok a) f h k = k a
  HasResult-bind (err e) f h k = absurd (ground (arith, h.1))
  HasResult-bind panicked f h k = absurd (ground (arith, h.1))

module _ (s : AllocSource) (ranked : List (NodeDesc × BalanceStatus)) (mean : Mean) where
  transfer_from-HasResult :
      (replicas : List (ReplicaDesc × ℕ))
      → All (λ e. is_some (map_get e.1 s.groups) ≡ true) replicas
      → HasResult (transfer_from s ranked mean replicas)
  unfolding transfer_from
  transfer_from-HasResult [] h = (none, refl)
  transfer_from-HasResult ((replica, group_id) ∷ replicas) h =
      let rest = transfer_from-HasResult replicas h.1 in
      HasResult-if _ _ _ rest (
        HasResult-if _ _ _ rest (
          HasResult-expected (map_get group_id s.groups) _ h.0
            (λ group. HasResult-found _ _ _ rest (λ target. (_, refl)))))

  shed_from-HasResult :
      (es : List (NodeDesc × BalanceStatus)) → IsIndexed s → HasResult (shed_from s ranked mean es)
  unfolding shed_from try_descrease_node_leader_count
  shed_from-HasResult [] h = (noop, refl)
  shed_from-HasResult ((n, state) ∷ es) h =
      let rest = shed_from-HasResult es h in
      HasResult-if _ _ _ rest (
        HasResult-bind (transfer_from s ranked mean (s.node_replicas n.id)) _
          (transfer_from-HasResult (s.node_replicas n.id)
            (All-mono (s.node_replicas n.id) (λ e. λ i. i.1) (h n.id)))
          (λ found. HasResult-found found _ _ rest (λ t. (_, refl))))

-- Where the nodes have their capacities and the index agrees with the groups, an action is computed.
pub compute_balance-HasResult :
    (s : AllocSource)
    → HaveCapacity (s.nodes schedulable)
    → IsIndexed s
    → HasResult (compute_balance s)
unfolding compute_balance mean_leader_count
compute_balance-HasResult s c h =
    (let total = total_leaders-HasResult (s.nodes schedulable) c in
      HasResult-bind (mean_leader_count s schedulable) _
        (HasResult-bind (total_leaders (s.nodes schedulable)) _ total (λ t. (_, refl)))
        (λ mean.
          let ranked = rank_nodes_for_leader mean (s.nodes schedulable) in
          shed_from-HasResult s ranked mean ranked h))
