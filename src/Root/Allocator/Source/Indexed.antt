-- ===== src/Root/Allocator/Source/Indexed.antt =====
-- The index of the replicas by node agrees with the listed groups.
use mathlib.Core.List.{Memᴰ}
use mathlib.Core.List.Memᴰ.{head, tail, append_left, append_right}
use sekas.Prelude.{
  ℕ, ◌≡◌, refl, sym, ap, ◌∙◌, subst, inl, inr, Bool, true, false, Bool-cases, Option, some, List,
  [], ◌∷◌, ◌++◌, ◌==◌, if◌then◌else◌, arith, All, All-append, All-mono, Map, map_get, map_insert,
  map_get-insert, unwrap_or, is_some, ==_refl,
}
use sekas.Api.{GroupDesc, ReplicaDesc}
use sekas.Root.Allocator.{AllocSource}
use sekas.Root.Allocator.Source.{
  SysAllocSource, push_replica, index_replicas, index_groups, collect_groups, set_groups,
  alloc_source,
}

-- What is listed under a node is on it, and its group is listed.
abbrev pub IsIndexed : AllocSource → Type 0
IsIndexed s =
    (node : ℕ)
    → All (λ e. (e.0.node_id ≡ node) × (is_some (map_get e.1 s.groups) ≡ true))
        (s.node_replicas node)

-- Every replica of the groups is listed under its node.
abbrev pub IsComplete : List GroupDesc → AllocSource → Type 0
IsComplete gs s =
    (g : GroupDesc) (r : ReplicaDesc)
    → Memᴰ g gs
    → Memᴰ r g.replicas
    → Memᴰ (r, g.id) (s.node_replicas r.node_id)

-- A replica with the id of its group, which is one of the groups.
abbrev pub IsReplicaOf : List GroupDesc → ReplicaDesc × ℕ → Type 0
IsReplicaOf gs e = (g : GroupDesc) × Memᴰ g gs × (g.id ≡ e.1) × Memᴰ e.0 g.replicas

-- What is listed under a node is one of its replicas, of one of the groups.
abbrev pub IsExact : List GroupDesc → AllocSource → Type 0
IsExact gs s =
    (node : ℕ) → All (λ e. (e.0.node_id ≡ node) × IsReplicaOf gs e) (s.node_replicas node)

abbrev Index : Type 0
Index = Map (List (ReplicaDesc × ℕ))

abbrev listed : Index → ℕ → List (ReplicaDesc × ℕ)
listed m node = unwrap_or (map_get node m) []

unwrap_or-if :
    (b : Bool) (v d : List (ReplicaDesc × ℕ)) (o : Option (List (ReplicaDesc × ℕ)))
    → unwrap_or (if b then some v else o) d ≡ (if b then v else unwrap_or o d)
unwrap_or-if true v d o = refl
unwrap_or-if false v d o = refl

push-listed :
    (group_id : ℕ) (r : ReplicaDesc) (m : Index) (node : ℕ)
    → listed (push_replica group_id r m) node
      ≡ (if r.node_id == node then listed m r.node_id ++ (r, group_id) ∷ [] else listed m node)
unfolding push_replica
push-listed group_id r m node =
    let pushed = listed m r.node_id ++ (r, group_id) ∷ [] in
    ap (λ o. unwrap_or o []) (map_get-insert r.node_id node pushed m)
    ∙ unwrap_or-if (r.node_id == node) pushed [] (map_get node m)

module _ (P : ReplicaDesc × ℕ → Type 0) where
  abbrev IsOn : ℕ → ReplicaDesc × ℕ → Type 0
  IsOn node e = (e.0.node_id ≡ node) × P e

  push-All :
      (group_id : ℕ) (r : ReplicaDesc) (m : Index)
      → P (r, group_id)
      → ((node : ℕ) → All (IsOn node) (listed m node))
      → (node : ℕ) → All (IsOn node) (listed (push_replica group_id r m) node)
  push-All group_id r m p h node =
      subst (All (IsOn node)) (sym (push-listed group_id r m node))
        (elim (Bool-cases (r.node_id == node)) [
          | inl here ↦
              let at : r.node_id ≡ node = ground (arith, here) in
              rw here (
                All-append (IsOn node) (listed m r.node_id) ((r, group_id) ∷ [])
                  (subst (λ n. All (IsOn n) (listed m r.node_id)) at (h r.node_id)) ((at, p), tt))
          | inr away ↦ rw away (h node)
        ])

  index_replicas-All :
      (group_id : ℕ) (rs : List ReplicaDesc) (m : Index)
      → All (λ r. P (r, group_id)) rs
      → ((node : ℕ) → All (IsOn node) (listed m node))
      → (node : ℕ) → All (IsOn node) (listed (index_replicas group_id rs m) node)
  unfolding index_replicas
  index_replicas-All group_id [] m p h = h
  index_replicas-All group_id (r ∷ rs) m p h =
      index_replicas-All group_id rs (push_replica group_id r m) p.1 (push-All group_id r m p.0 h)

  index_groups-All :
      (gs : List GroupDesc) (m : Index)
      → All (λ g. All (λ r. P (r, g.id)) g.replicas) gs
      → ((node : ℕ) → All (IsOn node) (listed m node))
      → (node : ℕ) → All (IsOn node) (listed (index_groups gs m) node)
  unfolding index_groups
  index_groups-All [] m p h = h
  index_groups-All (g ∷ gs) m p h =
      index_groups-All gs (index_replicas g.id g.replicas m) p.1
        (index_replicas-All g.id g.replicas m p.0 h)

-- An entry stays listed, and one that is pushed is.
module _ (e : ReplicaDesc × ℕ) (node : ℕ) where
  push-Memᴰ :
      (group_id : ℕ) (r : ReplicaDesc) (m : Index)
      → Memᴰ e (listed m node)
      → Memᴰ e (listed (push_replica group_id r m) node)
  push-Memᴰ group_id r m h =
      subst (Memᴰ e) (sym (push-listed group_id r m node)) (elim (Bool-cases (r.node_id == node)) [
        | inl here ↦
            let at : node ≡ r.node_id = ground (arith, here) in
            rw here (append_left ((r, group_id) ∷ []) (subst (λ n. Memᴰ e (listed m n)) at h))
        | inr away ↦ rw away h
      ])

  index_replicas-Memᴰ :
      (group_id : ℕ) (rs : List ReplicaDesc) (m : Index)
      → Memᴰ e (listed m node)
      → Memᴰ e (listed (index_replicas group_id rs m) node)
  unfolding index_replicas
  index_replicas-Memᴰ group_id [] m h = h
  index_replicas-Memᴰ group_id (r ∷ rs) m h =
      index_replicas-Memᴰ group_id rs (push_replica group_id r m) (push-Memᴰ group_id r m h)

  index_groups-Memᴰ :
      (gs : List GroupDesc) (m : Index)
      → Memᴰ e (listed m node)
      → Memᴰ e (listed (index_groups gs m) node)
  unfolding index_groups
  index_groups-Memᴰ [] m h = h
  index_groups-Memᴰ (g ∷ gs) m h =
      index_groups-Memᴰ gs (index_replicas g.id g.replicas m)
        (index_replicas-Memᴰ g.id g.replicas m h)

push-pushed :
    (group_id : ℕ) (r : ReplicaDesc) (m : Index)
    → Memᴰ (r, group_id) (listed (push_replica group_id r m) r.node_id)
push-pushed group_id r m =
    subst (Memᴰ (r, group_id)) (sym (push-listed group_id r m r.node_id))
      (rw (==_refl r.node_id) (append_right (listed m r.node_id) (head refl)))

index_replicas-pushed :
    (group_id : ℕ) (rs : List ReplicaDesc) (m : Index) (r : ReplicaDesc)
    → Memᴰ r rs
    → Memᴰ (r, group_id) (listed (index_replicas group_id rs m) r.node_id)
unfolding index_replicas
index_replicas-pushed group_id [] m r h = elim h [ ]
index_replicas-pushed group_id (q ∷ rs) m r (head e) =
    subst
      (λ p.
        Memᴰ (r, group_id)
          (listed (index_replicas group_id rs (push_replica group_id p m)) r.node_id))
      e
      (index_replicas-Memᴰ (r, group_id) r.node_id group_id rs (push_replica group_id r m)
        (push-pushed group_id r m))
index_replicas-pushed group_id (q ∷ rs) m r (tail h) =
    index_replicas-pushed group_id rs (push_replica group_id q m) r h

index_groups-pushed :
    (gs : List GroupDesc) (m : Index) (g : GroupDesc) (r : ReplicaDesc)
    → Memᴰ g gs
    → Memᴰ r g.replicas
    → Memᴰ (r, g.id) (listed (index_groups gs m) r.node_id)
unfolding index_groups
index_groups-pushed [] m g r h k = elim h [ ]
index_groups-pushed (f ∷ gs) m g r (head e) k =
    subst
      (λ x. Memᴰ (r, g.id) (listed (index_groups gs (index_replicas x.id x.replicas m)) r.node_id))
      e
      (index_groups-Memᴰ (r, g.id) r.node_id gs (index_replicas g.id g.replicas m)
        (index_replicas-pushed g.id g.replicas m r k))
index_groups-pushed (f ∷ gs) m g r (tail h) k =
    index_groups-pushed gs (index_replicas f.id f.replicas m) g r h k

collect_groups-is_some :
    (gs : List GroupDesc) (m : Map GroupDesc) (k : ℕ)
    → is_some (map_get k m) ≡ true
    → is_some (map_get k (collect_groups gs m)) ≡ true
unfolding collect_groups
collect_groups-is_some [] m k h = h
collect_groups-is_some (g ∷ gs) m k h =
    let insert = map_get-insert g.id k g m in
    collect_groups-is_some gs (map_insert g.id g m) k (ground (arith, insert, h))

collect_groups-All :
    (gs : List GroupDesc) (m : Map GroupDesc)
    → All (λ g. is_some (map_get g.id (collect_groups gs m)) ≡ true) gs
unfolding collect_groups
collect_groups-All [] m = tt
collect_groups-All (g ∷ gs) m =
    let insert = map_get-insert g.id g.id g m in
    (
      collect_groups-is_some gs (map_insert g.id g m) g.id (ground (arith, insert)),
      collect_groups-All gs (map_insert g.id g m),
    )

All-Memᴰ {ℓ κ} :
    {A : Type ℓ} {P : A → Type κ} (xs : List A) → ((x : A) → Memᴰ x xs → P x) → All P xs
All-Memᴰ [] h = tt
All-Memᴰ (x ∷ xs) h = (h x (head refl), All-Memᴰ xs (λ y m. h y (tail m)))

-- Groups that are set are indexed by node: under a node exactly the replicas are listed that one of
-- the groups has there, each with its group, and the group is listed, too.
pub set_groups-IsIndexed :
    (now : ℕ) (s : SysAllocSource) (gs : List GroupDesc)
    → IsIndexed (alloc_source now (set_groups s gs))
      × IsExact gs (alloc_source now (set_groups s gs))
      × IsComplete gs (alloc_source now (set_groups s gs))
unfolding set_groups alloc_source
set_groups-IsIndexed now s gs = (
  index_groups-All (λ e. is_some (map_get e.1 (collect_groups gs [])) ≡ true) gs []
      (All-mono gs (λ g here. All-Memᴰ g.replicas (λ r m. here)) (collect_groups-All gs []))
      (λ node. tt),
  index_groups-All (IsReplicaOf gs) gs []
      (All-Memᴰ gs (λ g here. All-Memᴰ g.replicas (λ r m. (g, here, refl, m)))) (λ node. tt),
  index_groups-pushed gs [],
)
