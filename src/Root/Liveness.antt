-- ===== src/Root/Liveness.antt =====
-- Which nodes are alive (src/server/src/root/liveness.rs). The time of the clock is an argument.
use mathlib.Core.List.{[]}
use sekas.Prelude.{
  ℕ, ◌+◌, ◌≤◌, ◌≡◌, refl, ap, ◌∙◌, Bool, false, Option, none, some, unwrap_or, ltb, if◌then◌else◌,
  arith, Map, map_get, map_insert, map_or_insert, map_get-insert, ◌==◌,
}

pub record NodeLiveness : Type 0 where
  pub expiration : ℕ

unfoldable pub is_dead : ℕ → NodeLiveness → Bool
is_dead now n = ltb n.expiration now

unfoldable pub is_alive : ℕ → NodeLiveness → Bool
is_alive now n = ltb now n.expiration

pub record Liveness : Type 0 where
  pub liveness_threshold : ℕ
  pub nodes : Map NodeLiveness

unfoldable pub new_expiration : ℕ → Liveness → ℕ
new_expiration now l = now + l.liveness_threshold

unfoldable pub fresh : ℕ → Liveness → NodeLiveness
unfolding new_expiration
fresh now l = record { expiration = new_expiration now l }

-- `Liveness::get`: a node that was never seen is alive until the threshold.
unfoldable pub get : ℕ → Liveness → ℕ → NodeLiveness
unfolding fresh map_get
get now l node = unwrap_or (map_get node l.nodes) (fresh now l)

-- The entry of a renewed node, occupied or vacant.
unfoldable pub renewed : ℕ → Liveness → Option NodeLiveness → NodeLiveness
unfolding fresh new_expiration
renewed now l none = fresh now l
renewed now l (some n) =
    if ltb n.expiration (new_expiration now l)
    then record { expiration = new_expiration now l }
    else n

unfoldable pub renew : ℕ → Liveness → ℕ → Liveness
unfolding renewed map_get map_insert
renew now l node = record {
  liveness_threshold = l.liveness_threshold;
  nodes = map_insert node (renewed now l (map_get node l.nodes)) l.nodes;
}

unfoldable pub init_node_if_first_seen : ℕ → Liveness → ℕ → Liveness
unfolding fresh map_or_insert
init_node_if_first_seen now l node = record {
  liveness_threshold = l.liveness_threshold;
  nodes = map_or_insert node (fresh now l) l.nodes;
}

unfoldable pub reset : Liveness → Liveness
reset l = record { liveness_threshold = l.liveness_threshold; nodes = [] }

-- A renewed node is alive for the threshold from the renewal on, also if the clock went back; no
-- renewal shortens the life of a node that was seen, and it changes no other node.
pub renew-get :
    (now later : ℕ) (l : Liveness) (node other : ℕ)
    → (later ≤ now + l.liveness_threshold
        → is_dead later (get later (renew now l node) node) ≡ false)
      × ((n : NodeLiveness)
          → map_get other l.nodes ≡ some n
          → n.expiration ≤ (get later (renew now l node) other).expiration)
      × ((node == other) ≡ false → get later (renew now l node) other ≡ get later l other)
unfolding is_dead get renew renewed fresh new_expiration
renew-get now later l node other =
    let v = renewed now l (map_get node l.nodes) in
    let here = map_get-insert node node v l.nodes in
    let there = map_get-insert node other v l.nodes in
    (
      λ h. ground (arith, here, h),
      λ n. λ e. ground (arith, there, e),
      λ h. ap (λ o. unwrap_or o (fresh later l)) {y = map_get other l.nodes} (there ∙ rw h refl),
    )
