-- ===== src/Root/Allocator/Leaders/Transfers.antt =====
-- What a transfer of a leader does, and that a consistent listing lets no balancing panic.
use mathlib.Core.List.{Memᴰ}
use mathlib.Core.List.Memᴰ.{head, tail}
use sekas.Prelude.{
  ℕ, ◌+◌, ◌≤◌, ◌≡◌, refl, sym, subst, ◌⊎◌, inl, inr, true, false, Bool-cases, Option-cases, not,
  ◌&&◌, some, List, [], ◌∷◌, ◌==◌, if◌then◌else◌, arith, All, Map, map_get, map_insert,
  map_get-insert,
}
use sekas.Api.{Result, ok, err, panicked, ◌>>=◌, GroupDesc, ReplicaDesc}
use sekas.Root.Balance.{
  BalanceStatus, overfull, balanced, underfull, Mean, balance_state, is_overfull, rev,
}
use sekas.Root.Balance.Ranked.{overfull-gap, IsRanked, rank_for_balance-All, rev-All, Memᴰ-All}
use sekas.Root.Allocator.{NodeDesc, schedulable, AllocSource, TransferLeader, shed, root_group_id}
use sekas.Root.Allocator.Leaders.{
  leader_count, mean_leader_count, leader_balance_state, rank_nodes_for_leader, is_voter,
  other_replicas, transfer_target, leads, transfer_from, try_descrease_node_leader_count, shed_from,
  compute_balance,
}

-- The other replica of the group that takes the lead, on a node with room.
abbrev pub IsTarget : AllocSource → GroupDesc → ReplicaDesc → NodeDesc → TransferLeader → Type 0
IsTarget s group replica node t =
    (target : ReplicaDesc) × Memᴰ target group.replicas
    × (¬ (target.id ≡ replica.id))
    × (target.node_id ≡ node.id)
    × (t.target_node ≡ node.id)
    × (t.target_replica ≡ target.id)

-- The voter that leads a group which is not the root's, listed on the node `n`.
abbrev pub IsSource : AllocSource → NodeDesc → ReplicaDesc → TransferLeader → Type 0
IsSource s n replica t =
    Memᴰ (replica, t.group) (s.node_replicas n.id)
    × (is_voter replica.role ≡ true)
    × (leads s replica ≡ true)
    × (¬ (t.group ≡ root_group_id))
    × (t.src_node ≡ replica.node_id)
    × (t.src_replica ≡ replica.id)

abbrev pub IsTransfer : AllocSource → TransferLeader → Type 0
IsTransfer s t =
    (n : NodeDesc) × (node : NodeDesc) × (replica : ReplicaDesc) × (group : GroupDesc) × Memᴰ n
      (s.nodes schedulable)
    × Memᴰ node (s.nodes schedulable)
    × IsSource s n replica t
    × (map_get t.group s.groups ≡ some group)
    × IsTarget s group replica node t
    × (leader_count node + 2 ≤ leader_count n)

-- What `other_replicas` finds under a node.
abbrev IsOther : ℕ → List ReplicaDesc → ℕ → ReplicaDesc → Type 0
IsOther replica_id rs node r = Memᴰ r rs × (¬ (r.id ≡ replica_id)) × (r.node_id ≡ node)

other_replicas-IsOther :
    (replica_id node : ℕ) (rs : List ReplicaDesc) (m : Map ReplicaDesc) (r : ReplicaDesc)
    → map_get node (other_replicas replica_id rs m) ≡ some r
    → IsOther replica_id rs node r ⊎ (map_get node m ≡ some r)
unfolding other_replicas
other_replicas-IsOther replica_id node [] m r e = inr e
other_replicas-IsOther replica_id node (q ∷ rs) m r e =
    elim (other_replicas-IsOther replica_id node rs
      (if q.id == replica_id then m else map_insert q.node_id q m) r e) [
        | inl (mem, ne, at) ↦ inl (tail mem, ne, at)
        | inr found ↦
            let insert = map_get-insert q.node_id node q m in
            elim (Bool-cases (q.id == replica_id)) [
              | inl same ↦ inr (ground (arith, same, found))
              | inr ne ↦ elim (Bool-cases (q.node_id == node)) [
                | inl at ↦
                    let here : r ≡ q = ground (arith, ne, at, found, insert) in
                    inl (head here, (λ i. ground (arith, here, i, ne)), ground (arith, here, at))
                | inr away ↦ inr (ground (arith, ne, away, found, insert))
              ]
            ]
      ]

module _ (s : AllocSource) (mean : Mean) where
  transfer_target-found :
      (P : NodeDesc → Type 0) (replicas : Map ReplicaDesc) (es : List (NodeDesc × BalanceStatus))
      (r : ReplicaDesc)
      → All (IsRanked leader_count P mean) es
      → transfer_target mean replicas es ≡ some r
      → (node : NodeDesc) × P node
        × (map_get node.id replicas ≡ some r)
        × (¬ (balance_state (leader_count node + 1) mean ≡ overfull))
  unfolding transfer_target leader_balance_state
  transfer_target-found P replicas [] r h e = absurd (ground (arith, e))
  transfer_target-found P replicas ((node, state) ∷ es) r h e =
      let step : ((map_get node.id replicas ≡ some r)
            × (is_overfull (balance_state (leader_count node + 1) mean) ≡ false))
          ⊎ (transfer_target mean replicas es ≡ some r) =
        ground (arith, e) in
      elim step [
        | inl (found, room) ↦ (node, h.0.0, found, λ over. ground (arith, over, room))
        | inr later ↦ transfer_target-found P replicas es r h.1 later
      ]

  abbrev transfer_of : ReplicaDesc → ℕ → ReplicaDesc → TransferLeader
  transfer_of replica group_id target = record {
    group = group_id;
    src_node = replica.node_id;
    src_replica = replica.id;
    target_node = target.node_id;
    target_replica = target.id;
  }

  -- A replica that is tried gives the transfer, or the next ones are tried.
  transfer_step :
      (ranked : List (NodeDesc × BalanceStatus)) (replica : ReplicaDesc) (group_id : ℕ)
      (replicas : List (ReplicaDesc × ℕ)) (t : TransferLeader) (group : GroupDesc)
      (target : ReplicaDesc)
      → map_get group_id s.groups ≡ some group
      → transfer_target mean (other_replicas replica.id group.replicas []) (rev ranked)
        ≡ some target
      → transfer_from s ranked mean ((replica, group_id) ∷ replicas) ≡ ok (some t)
      → ((¬ (group_id ≡ root_group_id))
          × (is_voter replica.role ≡ true)
          × (leads s replica ≡ true)
          × (t ≡ transfer_of replica group_id target))
        ⊎ (transfer_from s ranked mean replicas ≡ ok (some t))
  unfolding transfer_from
  transfer_step ranked replica group_id replicas t group target at found e =
      elim (Bool-cases
        (not (group_id == root_group_id) && is_voter replica.role && leads s replica)) [
          | inl tried ↦ inl (
            (λ root. ground (arith, tried, root)),
            ground (arith, tried),
            ground (arith, tried),
            ground (arith, tried, at, found, e),
          )
          | inr passed ↦ inr (ground (arith, passed, at, found, e))
        ]

  chosen-IsTransfer :
      (n : NodeDesc) (ranked : List (NodeDesc × BalanceStatus)) (replica : ReplicaDesc)
      (group_id : ℕ) (t : TransferLeader) (group : GroupDesc) (target : ReplicaDesc)
      → Memᴰ n (s.nodes schedulable)
      → balance_state (leader_count n) mean ≡ overfull
      → All (IsRanked leader_count (λ node. Memᴰ node (s.nodes schedulable)) mean) ranked
      → Memᴰ (replica, group_id) (s.node_replicas n.id)
      → map_get group_id s.groups ≡ some group
      → transfer_target mean (other_replicas replica.id group.replicas []) (rev ranked)
        ≡ some target
      → ¬ (group_id ≡ root_group_id)
      → is_voter replica.role ≡ true
      → leads s replica ≡ true
      → t ≡ transfer_of replica group_id target
      → IsTransfer s t
  unfolding map_get
  chosen-IsTransfer n ranked replica group_id t group target m o r h at found user votes leading
        it =
      let others = other_replicas replica.id group.replicas [] in
      let (node, mem, got, room) =
        transfer_target-found (λ node. Memᴰ node (s.nodes schedulable)) others (rev ranked) target
          (rev-All _ ranked r) found in
      let gap = overfull-gap mean (leader_count n) (leader_count node) o room in
      elim (other_replicas-IsOther replica.id node.id group.replicas [] target got) [
        | inl (listed, other, on) ↦ subst (IsTransfer s) (sym it) (
          n,
          node,
          replica,
          group,
          m,
          mem,
          (h, votes, leading, user, refl, refl),
          at,
          (target, listed, other, on, on, refl),
          gap,
        )
        | inr nothing ↦ absurd (ground (arith, nothing))
      ]

  -- The replicas that are left to try are listed on the node.
  transfer_from-IsTransfer :
      (n : NodeDesc) (ranked : List (NodeDesc × BalanceStatus)) (replicas : List (ReplicaDesc × ℕ))
      (t : TransferLeader)
      → Memᴰ n (s.nodes schedulable)
      → balance_state (leader_count n) mean ≡ overfull
      → All (IsRanked leader_count (λ node. Memᴰ node (s.nodes schedulable)) mean) ranked
      → All (λ e. Memᴰ e (s.node_replicas n.id)) replicas
      → transfer_from s ranked mean replicas ≡ ok (some t)
      → IsTransfer s t
  unfolding transfer_from
  transfer_from-IsTransfer n ranked [] t m o r h e = absurd (ground (arith, e))
  transfer_from-IsTransfer n ranked ((replica, group_id) ∷ replicas) t m o r h e =
      elim (Option-cases (map_get group_id s.groups)) [
        | inl missing ↦
            transfer_from-IsTransfer n ranked replicas t m o r h.1 (ground (arith, missing, e))
        | inr (group, at) ↦
            elim (Option-cases
              (transfer_target mean (other_replicas replica.id group.replicas []) (rev ranked))) [
                | inl nowhere ↦
                    transfer_from-IsTransfer n ranked replicas t m o r h.1
                      (ground (arith, at, nowhere, e))
                | inr (target, found) ↦
                    elim (transfer_step ranked replica group_id replicas t group target at found
                      e) [
                        | inl (user, votes, leading, it) ↦
                            chosen-IsTransfer n ranked replica group_id t group target m o r h.0 at
                              found user votes leading it
                        | inr later ↦ transfer_from-IsTransfer n ranked replicas t m o r h.1 later
                      ]
              ]
      ]

  shed_from-IsTransfer :
      (ranked es : List (NodeDesc × BalanceStatus)) (t : TransferLeader)
      → All (IsRanked leader_count (λ node. Memᴰ node (s.nodes schedulable)) mean) ranked
      → All (IsRanked leader_count (λ node. Memᴰ node (s.nodes schedulable)) mean) es
      → shed_from s ranked mean es ≡ ok (shed t)
      → IsTransfer s t
  unfolding shed_from try_descrease_node_leader_count
  shed_from-IsTransfer ranked [] t r h e = absurd (ground (arith, e))
  shed_from-IsTransfer ranked ((n, balanced) ∷ es) t r h e =
      shed_from-IsTransfer ranked es t r h.1 e
  shed_from-IsTransfer ranked ((n, underfull) ∷ es) t r h e =
      shed_from-IsTransfer ranked es t r h.1 e
  shed_from-IsTransfer ranked ((n, overfull) ∷ es) t r h e =
      let step : (transfer_from s ranked mean (s.node_replicas n.id) ≡ ok (some t))
          ⊎ (shed_from s ranked mean es ≡ ok (shed t)) =
        ground (arith, e) in
      elim step [
        | inl found ↦
            transfer_from-IsTransfer n ranked (s.node_replicas n.id) t h.0.0 h.0.1 r
              (Memᴰ-All (s.node_replicas n.id)) found
        | inr later ↦ shed_from-IsTransfer ranked es t r h.1 later
      ]

shed_of_mean :
    (s : AllocSource) (t : TransferLeader) (mean : Result Mean)
    → (mean >>= λ m.
        shed_from s
          (rank_nodes_for_leader m (s.nodes schedulable))
          m
          (rank_nodes_for_leader m (s.nodes schedulable)))
      ≡ ok (shed t)
    → IsTransfer s t
unfolding rank_nodes_for_leader
shed_of_mean s t (ok mean) e =
    let h : All (IsRanked leader_count (λ node. Memᴰ node (s.nodes schedulable)) mean)
        (rank_nodes_for_leader mean (s.nodes schedulable)) =
      rank_for_balance-All leader_count _ mean (s.nodes schedulable)
        (Memᴰ-All (s.nodes schedulable)) in
    shed_from-IsTransfer s mean (rank_nodes_for_leader mean (s.nodes schedulable))
      (rank_nodes_for_leader mean (s.nodes schedulable)) t h h e
shed_of_mean s t (err x) e = absurd (ground (arith, e))
shed_of_mean s t panicked e = absurd (ground (arith, e))

-- A leader is moved within its group, from a voter that leads to a node with at least two leaders less.
pub compute_balance-IsTransfer :
    (s : AllocSource) (t : TransferLeader) → compute_balance s ≡ ok (shed t) → IsTransfer s t
unfolding compute_balance
compute_balance-IsTransfer s t e = shed_of_mean s t (mean_leader_count s schedulable) e
