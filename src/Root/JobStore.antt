-- ===== src/Root/JobStore.antt =====
-- The root's background jobs (src/server/proto/v1/schedule.proto) and the part of the schema that
-- stores them (src/server/src/root/schema.rs). The creation times and the description of a collection
-- are left out, and so is the order in which the store lists its jobs; an id stays below 2 ^ 64.
use sekas.Prelude.{
  ℕ, ◌+◌, Bool, true, false, Option, none, some, is_some, List, [], ◌∷◌, map, if◌then◌else◌, Bytes,
  bytes_eq, le_bytes, be_bytes,
}
use sekas.Api.{ShardDesc}
use sekas.Root.CreateGroup.{CreateOneGroupJob}

pub data CreateCollectionJobStatus : Type 0 where
  creating rollbacking write_desc finish abort : CreateCollectionJobStatus

pub record CreateCollectionJob : Type 0 where
  pub database : ℕ
  pub collection_name : Bytes
  pub wait_create : List ShardDesc
  pub wait_cleanup : List ShardDesc
  pub status : CreateCollectionJobStatus
  pub remark : Bytes

pub record PurgeCollectionJob : Type 0 where
  pub database_id : ℕ
  pub collection_id : ℕ
  pub database_name : Bytes
  pub collection_name : Bytes

pub record PurgeDatabaseJob : Type 0 where
  pub database_id : ℕ
  pub database_name : Bytes

pub data Job : Type 0 where
  create_collection : CreateCollectionJob → Job
  create_one_group : CreateOneGroupJob → Job
  purge_collection : PurgeCollectionJob → Job
  purge_database : PurgeDatabaseJob → Job

pub record BackgroundJob : Type 0 where
  pub id : ℕ
  pub job : Option Job

-- The root's collections of jobs, under the bytes of their ids, and the next id.
pub record JobStore : Type 0 where
  pub jobs : List (Bytes × BackgroundJob)
  pub history : List (Bytes × BackgroundJob)
  pub next_job_id : ℕ

unfoldable pub lookup : Bytes → List (Bytes × BackgroundJob) → Option (BackgroundJob)
unfolding bytes_eq
lookup k [] = none
lookup k ((j, v) ∷ rest) = if bytes_eq j k then some v else lookup k rest

unfoldable pub erase : Bytes → List (Bytes × BackgroundJob) → List (Bytes × BackgroundJob)
unfolding bytes_eq
erase k [] = []
erase k ((j, v) ∷ kvs) = let rest = erase k kvs in if bytes_eq j k then rest else (j, v) ∷ rest

unfoldable pub put_job : BackgroundJob → JobStore → JobStore
unfolding erase le_bytes
put_job desc s = record s { jobs = (le_bytes 8 desc.id, desc) ∷ erase (le_bytes 8 desc.id) s.jobs }

unfoldable pub put_job_history : BackgroundJob → JobStore → JobStore
unfolding erase le_bytes
put_job_history desc s = record s {
  history = (le_bytes 8 desc.id, desc) ∷ erase (le_bytes 8 desc.id) s.history;
}

unfoldable pub append_job : BackgroundJob → JobStore → BackgroundJob × JobStore
unfolding put_job
append_job desc s =
    let numbered : BackgroundJob = record { id = s.next_job_id; job = desc.job } in
    (numbered, put_job numbered record s { next_job_id = s.next_job_id + 1 })

unfoldable pub remove_job : BackgroundJob → JobStore → JobStore
unfolding put_job_history erase le_bytes
remove_job job s =
    let kept = put_job_history job s in record kept { jobs = erase (le_bytes 8 job.id) kept.jobs }

-- The job is looked up under the big-endian bytes of its id.
unfoldable pub update_job : BackgroundJob → JobStore → Bool × JobStore
unfolding lookup put_job be_bytes
update_job desc s =
    if is_some (lookup (be_bytes 8 desc.id) s.jobs) then (true, put_job desc s) else (false, s)

unfoldable pub get_job_history : ℕ → JobStore → Option (BackgroundJob)
unfolding lookup le_bytes
get_job_history id s = lookup (le_bytes 8 id) s.history

unfoldable pub list_job : JobStore → List (BackgroundJob)
list_job s = map (λ kv. kv.1) s.jobs
