-- ===== src/Root/CreateGroup.antt =====
-- The job that creates one group (src/server/src/root/bg_job.rs, `handle_create_one_group` and what it
-- calls). The answers of the nodes, of the allocator and of the schema are parameters, and so are the
-- failures of the saves of the job. A save that fails stores nothing; one that does not stores the job
-- if the store finds it (Root/JobStore, `update_job`).
pub mod Outcome
pub mod Passes
use sekas.Prelude.{
  ℕ, zero, suc, ◌+◌, Bool, true, false, Option, none, some, List, [], ◌∷◌, ◌++◌, map, length, find,
  ltb, ◌==◌, if◌then◌else◌,
}
use sekas.Api.{Error, Result, ok, err, panicked, ◌>>=◌, GroupDesc, ReplicaDesc, voter}
use sekas.Root.Balance.{rev}
use sekas.Root.Allocator.{NodeDesc}

pub data CreateOneGroupStatus : Type 0 where
  init creating rollbacking finish abort : CreateOneGroupStatus

pub record CreateOneGroupJob : Type 0 where
  pub request_replica_cnt : ℕ
  pub group_desc : Option GroupDesc
  pub wait_create : List NodeDesc
  pub wait_cleanup : List ReplicaDesc
  pub status : CreateOneGroupStatus
  pub create_retry : ℕ
  pub invoked_nodes : List ℕ

-- The job in hand, the job as the root has stored it, whether `update_job` finds it in the store, and
-- the number of the saves so far.
pub record Progress : Type 0 where
  pub job : CreateOneGroupJob
  pub saved : CreateOneGroupJob
  pub listed : Bool
  pub saves : ℕ

-- What the root is told, after a number of saves: whether it leads the root and has a schema, the
-- number of known replicas of a group, the nodes for a new group, new ids, whether a replica is created
-- or removed, and how a save fails.
pub record Answers : Type 0 where
  pub schema : ℕ → Result (Unit {0})
  pub group_replica_states : ℕ → ℕ → Result ℕ
  pub allocate_group_replica : ℕ → ℕ → Result (List NodeDesc)
  pub next_group_id : ℕ → Result ℕ
  pub next_replica_id : ℕ → ℕ → Result ℕ
  pub try_create_replica : NodeDesc → ReplicaDesc → Bool
  pub try_remove_replica : ℕ → ReplicaDesc → Option Error
  pub update : ℕ → Option Error

abbrev pub initial_epoch : ℕ
initial_epoch = 1

-- What follows a call that returns, with the state that the call leaves.
unfoldable pub and_then {ℓ κ} :
    {A : Type ℓ} {B : Type κ}
    → Progress × Result A
    → (A → Progress → Progress × Result B)
    → Progress × Result B
and_then (p, ok a) f = f a p
and_then (p, err e) f = (p, err e)
and_then (p, panicked) f = (p, panicked)

unfoldable pub set_status : CreateOneGroupStatus → CreateOneGroupJob → CreateOneGroupJob
set_status status job = record job { status = status }

-- The job after a replica could not be created.
unfoldable pub create_failed : CreateOneGroupJob → CreateOneGroupJob
unfolding set_status
create_failed job =
    if ltb job.create_retry 20
    then record job { create_retry = job.create_retry + 1 }
    else set_status rollbacking job

unfoldable pub create_done :
    List NodeDesc → List ReplicaDesc → CreateOneGroupJob → CreateOneGroupJob
create_done wait_create undo job = record job { wait_create = wait_create; wait_cleanup = undo }

unfoldable pub is_ended : CreateOneGroupStatus → Bool
is_ended finish = true
is_ended abort = true
is_ended _ = false

-- The job that is saved; a store that does not find it keeps what it has, and that is no error.
unfoldable pub stored : CreateOneGroupJob → Progress → Progress
stored job p = record {
  job = job;
  saved = if p.listed then job else p.saved;
  listed = p.listed;
  saves = p.saves + 1;
}

unfoldable pub not_stored : CreateOneGroupJob → Progress → Progress
not_stored job p = record p { job = job; saves = p.saves + 1 }

module _ (ask : Answers) where
  unfoldable pub save_create_group : CreateOneGroupJob → Progress → Progress × Result (Unit {0})
  unfolding stored not_stored
  save_create_group job p = elim (ask.update p.saves) [
    | none ↦ (stored job p, ok tt)
    | some e ↦ (not_stored job p, err e)
  ]

  unfoldable pub check_group : Progress → Option GroupDesc → Progress × Result Bool
  unfolding save_create_group set_status and_then
  check_group p none = (p, ok false)
  check_group p (some desc) =
      and_then (p, ask.group_replica_states p.saves desc.id)
        (λ replicas q.
          if ltb replicas q.job.request_replica_cnt
          then (q, ok false)
          else and_then (save_create_group (set_status rollbacking q.job) q) (λ _ r. (r, ok true)))

  -- Whether the requirement is met; then the job is saved with its new status.
  unfoldable pub check_is_already_meet_requirement : Progress → Progress × Result Bool
  unfolding check_group
  check_is_already_meet_requirement p = check_group p p.job.group_desc

  unfoldable pub new_replicas : ℕ → ℕ → List NodeDesc → Result (List ReplicaDesc)
  new_replicas now i [] = ok []
  new_replicas now i (n ∷ ns) = do
    id ← ask.next_replica_id now i
    rest ← new_replicas now (i + 1) ns
    ok (record { id = id; node_id = n.id; role = voter } ∷ rest)

  -- The job with its descriptor and the nodes for its replicas.
  unfoldable pub allocated : Progress → Result CreateOneGroupJob
  unfolding new_replicas
  allocated p = do
    nodes ← ask.allocate_group_replica p.saves p.job.request_replica_cnt
    group_id ← ask.next_group_id p.saves
    replicas ← new_replicas p.saves 0 nodes
    ok (record p.job {
      group_desc =
          some record { id = group_id; epoch = initial_epoch; shards = []; replicas = replicas };
      wait_create = nodes;
      status = creating;
    })

  unfoldable pub handle_init_create_group_replicas : Progress → Progress × Result (Unit {0})
  unfolding check_is_already_meet_requirement allocated save_create_group and_then
  handle_init_create_group_replicas p =
      and_then (p, ask.schema p.saves)
        (λ _ q.
          and_then (check_is_already_meet_requirement q)
            (λ met r. if met then (r, ok tt) else and_then (r, allocated r) save_create_group))

  -- The loop pops the nodes from the end, so it goes over them in reverse.
  unfoldable pub create_replicas :
      GroupDesc → List NodeDesc → List ReplicaDesc → Progress → Progress × Result (Unit {0})
  unfolding create_failed create_done save_create_group rev and_then
  create_replicas desc [] undo p = (p, ok tt)
  create_replicas desc (n ∷ ns) undo p = elim (find (λ r. r.node_id == n.id) desc.replicas) [
    | none ↦ (p, panicked)
    | some replica ↦
        (let created = undo ++ replica ∷ [] in
          let next =
            and_then (save_create_group (create_done (rev ns) created p.job) p)
              (λ _ q. create_replicas desc ns created q) in
          let skip =
            and_then (save_create_group (create_failed p.job) p)
              (λ _ q. create_replicas desc ns undo q) in
          if ask.try_create_replica n replica then next else skip)
  ]

  unfoldable pub save_status :
      CreateOneGroupStatus → Unit {0} → Progress → Progress × Result (Unit {0})
  unfolding save_create_group set_status
  save_status status _ p = save_create_group (set_status status p.job) p

  -- The part of `handle_wait_create_group_replicas` behind its checks.
  unfoldable pub create_all : Progress → Option GroupDesc → Progress × Result (Unit {0})
  unfolding create_replicas save_status and_then rev
  create_all p none = (p, panicked)
  create_all p (some desc) =
      and_then (create_replicas desc (rev p.job.wait_create) [] p) (save_status finish)

  unfoldable pub handle_wait_create_group_replicas : Progress → Progress × Result (Unit {0})
  unfolding check_is_already_meet_requirement create_all and_then
  handle_wait_create_group_replicas p =
      and_then (p, ask.schema p.saves)
        (λ _ q.
          and_then (check_is_already_meet_requirement q)
            (λ met r. if met then (r, ok tt) else create_all r r.job.group_desc))

  -- The failure of a removal, if it fails.
  unfoldable pub try_remove : Option GroupDesc → ReplicaDesc → Result (Option Error)
  try_remove none r = panicked
  try_remove (some desc) r = ok (ask.try_remove_replica desc.id r)

  -- The loop over the replicas to remove, from the end.
  unfoldable pub remove_replicas : List ReplicaDesc → Progress → Progress × Result (Unit {0})
  unfolding save_create_group rev try_remove and_then
  remove_replicas [] p = (p, ok tt)
  remove_replicas (r ∷ rs) p =
      let next = remove_replicas rs p in
      elim (try_remove p.job.group_desc r) [
        | ok none ↦ next
        | ok (some e) ↦
            and_then (save_create_group (record p.job { wait_cleanup = rev rs }) p)
              (λ _ q. (q, err e))
        | err e ↦ (p, err e)
        | panicked ↦ (p, panicked)
      ]

  unfoldable pub handle_rollback_group_replicas : Progress → Progress × Result (Unit {0})
  unfolding remove_replicas save_status rev and_then
  handle_rollback_group_replicas p =
      and_then (remove_replicas (rev p.job.wait_cleanup) p) (save_status abort)

  -- A round of the job's loop; the job is handed on when it is finished or aborted.
  unfoldable pub handle_status : CreateOneGroupStatus → Progress → Progress × Result (Unit {0})
  unfolding handle_init_create_group_replicas handle_wait_create_group_replicas
      handle_rollback_group_replicas
  handle_status init p = handle_init_create_group_replicas p
  handle_status creating p = handle_wait_create_group_replicas p
  handle_status rollbacking p = handle_rollback_group_replicas p
  handle_status finish p = (p, ok tt)
  handle_status abort p = (p, ok tt)

  -- The loop on fuel; with none left there is no answer.
  unfoldable pub handle_create_one_group : ℕ → Progress → Option (Progress × Result (Unit {0}))
  unfolding handle_status is_ended
  handle_create_one_group zero p = none
  handle_create_one_group (suc fuel) p =
      if is_ended p.job.status
      then some (p, ok tt)
      else (let (q, r) = handle_status p.job.status p in
          elim r [
            | ok u ↦ handle_create_one_group fuel q
            | err e ↦ some (q, err e)
            | panicked ↦ some (q, panicked)
          ])
