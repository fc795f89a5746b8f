-- ===== src/Tests/Watchers.antt =====
-- Runs of the watchers, of the job that creates a group, and of the log of a replica.
use sekas.Prelude.{
  ℕ, ◌+◌, ◌≡◌, ◌⊎◌, refl, true, false, none, some, is_some, List, [], ◌∷◌, ◌++◌, find, map_get,
  if◌then◌else◌, arith, All, ◌==◌,
}
use sekas.Api.{Result, ok, err, GroupDesc, ReplicaDesc, voter, service_is_busy}
use sekas.Root.Balance.{rev}
use sekas.Root.Allocator.{NodeDesc, active}
use sekas.Root.Watch.{WatchHub}
use sekas.Root.Watch.Delivery.{
  Step, notified, polled, cleaned, run, delivered, IsServed, run-delivered,
}
use sekas.Root.CreateGroup.{
  CreateOneGroupStatus, init, creating, rollbacking, CreateOneGroupJob, Progress, Answers,
  handle_wait_create_group_replicas, handle_rollback_group_replicas, handle_create_one_group,
}
use sekas.Root.CreateGroup.Outcome.{handle_create_one_group_ends}
use sekas.Root.CreateGroup.Passes.{
  IsFinished, SaveFails, created_replicas, handle_wait_create_group_replicas_finishes,
  handle_rollback_group_replicas_forgets,
}

-- The watcher 1 holds the update 5.
abbrev hub : WatchHub ℕ ℕ
hub = record {
  next_watcher_id = 2;
  watchers = 2 ∷ 1 ∷ [];
  inners =
      (1, record { waker = false; updates = 5 ∷ []; deletes = []; failure = none; dropped = false })
      ∷ (2, record { waker = true; updates = []; deletes = []; failure = none; dropped = false })
      ∷ [];
}

abbrev steps : List (Step ℕ ℕ)
steps = notified (6 ∷ []) (9 ∷ []) ∷ polled 1 ∷ notified (7 ∷ []) [] ∷ cleaned ∷ []

served : IsServed 1 hub (5 ∷ [], [])
unfolding map_get
served = (
  record { waker = false; updates = 5 ∷ []; deletes = []; failure = none; dropped = false },
  refl,
  refl,
  refl,
  refl,
  refl,
  refl,
  omega arith,
)

run-delivered_example :
    (after : List ℕ × List ℕ) × IsServed 1 (run steps hub) after
    × ((delivered 1 steps hub).0 ++ after.0 ≡ 5 ∷ 6 ∷ 7 ∷ [])
    × ((delivered 1 steps hub).1 ++ after.1 ≡ 9 ∷ [])
run-delivered_example = run-delivered 1 steps hub (5 ∷ [], []) (tt, (tt, (tt, (tt, tt)))) served

abbrev new_node : ℕ → NodeDesc
new_node id = record { id = id; capacity = none; status = active }

abbrev new_replica : ℕ → ReplicaDesc
new_replica node_id = record { id = 100 + node_id; node_id = node_id; role = voter }

abbrev desc : GroupDesc
desc = record { id = 8; epoch = 1; shards = []; replicas = new_replica 1 ∷ new_replica 2 ∷ [] }

-- The node 2 creates no replica, and no replica on it is removed.
abbrev answers : Answers
answers = record {
  schema = λ now. ok tt;
  group_replica_states = λ now g. ok 0;
  allocate_group_replica = λ now n. ok (new_node 1 ∷ new_node 2 ∷ []);
  next_group_id = λ now. ok 8;
  next_replica_id = λ now i. ok (101 + i);
  try_create_replica = λ n r. n.id == 1;
  try_remove_replica = λ g r. if r.node_id == 2 then some service_is_busy else none;
  update = λ now. if now == 5 then some service_is_busy else none;
}

abbrev job : CreateOneGroupStatus → List ReplicaDesc → CreateOneGroupJob
job status wait_cleanup = record {
  request_replica_cnt = 2;
  group_desc = some desc;
  wait_create = new_node 1 ∷ new_node 2 ∷ [];
  wait_cleanup = wait_cleanup;
  status = status;
  create_retry = 0;
  invoked_nodes = [];
}

abbrev progress_at : CreateOneGroupStatus → List ReplicaDesc → Progress
progress_at status wait_cleanup = record {
  job = job status wait_cleanup;
  saved = job status wait_cleanup;
  listed = true;
  saves = 0;
}

handle_create_one_group_ends_example :
    (t : Progress × Result (Unit {0})) × (handle_create_one_group answers 4 (progress_at init [])
      ≡ some t)
handle_create_one_group_ends_example = handle_create_one_group_ends answers (progress_at init [])

have_replicas :
    All
      (λ n. is_some (find (λ r. r.node_id == n.id) desc.replicas) ≡ true)
      (rev (job creating []).wait_create)
unfolding rev
have_replicas = (refl, (refl, tt))

handle_wait_create_group_replicas_finishes_example :
    IsFinished answers
      (created_replicas answers desc (rev (job creating []).wait_create))
      (progress_at creating [])
      (handle_wait_create_group_replicas answers (progress_at creating []))
    ⊎ SaveFails answers (handle_wait_create_group_replicas answers (progress_at creating []))
handle_wait_create_group_replicas_finishes_example =
    handle_wait_create_group_replicas_finishes answers (progress_at creating []) desc 0 refl refl
      refl (omega arith) refl have_replicas

one_created : created_replicas answers desc (new_node 2 ∷ new_node 1 ∷ []) ≡ new_replica 1 ∷ []
unfolding created_replicas
one_created = refl

cleanup_order : rev (new_replica 1 ∷ new_replica 2 ∷ []) ≡ new_replica 2 ∷ new_replica 1 ∷ []
unfolding rev
cleanup_order = refl

handle_rollback_group_replicas_forgets_example :
    (q : Progress) × (handle_rollback_group_replicas answers
        (progress_at rollbacking (new_replica 1 ∷ new_replica 2 ∷ []))
      ≡ (q, err service_is_busy))
    × (q.saved ≡ record (job rollbacking []) { wait_cleanup = rev (new_replica 1 ∷ []) })
handle_rollback_group_replicas_forgets_example =
    handle_rollback_group_replicas_forgets answers
      (progress_at rollbacking (new_replica 1 ∷ new_replica 2 ∷ [])) desc service_is_busy
      (new_replica 2) [] (new_replica 1 ∷ []) refl cleanup_order tt refl
