-- ===== src/Root/Jobs.antt =====
-- The table of the root's background jobs (src/server/src/root/bg_job.rs, `JobCore`). A failure of the
-- store is a parameter, with what it leaves of the store; wakers are left out.
pub mod Updates
pub mod Locks
mod Recovery
use sekas.Prelude.{
  ℕ, ◌+◌, Bool, true, false, not, Option, none, some, is_some, List, [], ◌∷◌, ◌++◌, map, any,
  retain, ◌==◌, if◌then◌else◌, Bytes, bytes_eq, le_bytes, be_bytes,
}
use sekas.Api.{
  Error, not_root_leader, already_exists, Result, ok, err, panicked, ◌>>=◌, expect, ShardDesc,
}
use sekas.Root.CreateGroup.{CreateOneGroupJob}
use sekas.Root.JobStore.{
  CreateCollectionJobStatus, CreateCollectionJob, PurgeCollectionJob, PurgeDatabaseJob, Job,
  BackgroundJob, JobStore, lookup, erase, put_job, put_job_history, append_job, remove_job,
  update_job, get_job_history, list_job, create_collection, create_one_group, purge_collection,
  purge_database,
}

-- `schema` is absent where the node does not lead the root.
pub record JobCore : Type 0 where
  pub schema : Option JobStore
  pub mem_jobs : List BackgroundJob
  pub res_locks : List Bytes
  pub enable : Bool

-- The failure of a call of the store, and the store as it is then.
abbrev pub Fault : Type 0
Fault = Option (Error × JobStore)

unfoldable pub res_key_of : Job → Option Bytes
unfolding le_bytes
res_key_of (create_collection j) = some (le_bytes 8 j.database ++ j.collection_name)
res_key_of (purge_collection j) = some (le_bytes 8 j.database_id ++ j.collection_name)
res_key_of (create_one_group j) = none
res_key_of (purge_database j) = none

unfoldable pub res_key : BackgroundJob → Result (Option Bytes)
unfolding res_key_of
res_key job = do j ← expect job.job; ok (res_key_of j)

-- The first job with the id of the new one is replaced.
unfoldable pub replace_first : BackgroundJob → List (BackgroundJob) → List (BackgroundJob)
replace_first job [] = []
replace_first job (j ∷ js) =
    let rest = replace_first job js in if j.id == job.id then job ∷ js else j ∷ rest

-- The answer of a call of the store, and the store as the call leaves it.
unfoldable pub attempt {ℓ} : {A : Type ℓ} → Fault → A × JobStore → Result A × JobStore
attempt none (a, s) = (ok a, s)
attempt (some (e, s')) (a, s) = (err e, s')

unfoldable pub with_schema : JobStore → JobCore → JobCore
with_schema s c = record c { schema = some s }

unfoldable pub with_mem_jobs : List BackgroundJob → JobCore → JobCore
with_mem_jobs jobs c = record c { mem_jobs = jobs }

unfoldable pub with_res_locks : List Bytes → JobCore → JobCore
with_res_locks locks c = record c { res_locks = locks }

unfoldable pub is_locked : Bytes → JobCore → Bool
unfolding bytes_eq
is_locked key c = any (bytes_eq key) c.res_locks

unfoldable pub try_lock_res : Bytes → JobCore → Bool × JobCore
unfolding is_locked with_res_locks
try_lock_res key c =
    if is_locked key c then (false, c) else (true, with_res_locks (key ∷ c.res_locks) c)

unfoldable pub unlock_res : Bytes → JobCore → JobCore
unfolding with_res_locks bytes_eq
unlock_res key c = with_res_locks (retain (λ k. not (bytes_eq key k)) c.res_locks) c

-- What follows the call of `update_job`.
unfoldable pub updated :
    BackgroundJob → JobCore → Result Bool × JobStore → Result (Unit {0}) × JobCore
unfolding replace_first with_schema with_mem_jobs
updated job c (ok true, t) = (ok tt, with_mem_jobs (replace_first job c.mem_jobs) (with_schema t c))
updated job c (ok false, t) = (ok tt, with_schema t c)
updated job c (err e, t) = (err e, with_schema t c)
updated job c (panicked, t) = (panicked, with_schema t c)

unfoldable pub update : Fault → BackgroundJob → JobCore → Result (Unit {0}) × JobCore
unfolding update_job attempt updated
update fault job c = elim c.schema [
  | none ↦ (err not_root_leader, c)
  | some s ↦ updated job c (attempt fault (update_job job s))
]

-- What follows the call of `append_job`.
unfoldable pub appended : JobCore → Result BackgroundJob × JobStore → Result BackgroundJob × JobCore
unfolding with_schema with_mem_jobs
appended c (ok job, t) = (ok job, with_mem_jobs (c.mem_jobs ++ job ∷ []) (with_schema t c))
appended c (err e, t) = (err e, with_schema t c)
appended c (panicked, t) = (panicked, with_schema t c)

unfoldable pub append_at :
    Fault → BackgroundJob → JobStore → JobCore → Result BackgroundJob × JobCore
unfolding append_job attempt appended
append_at fault job s c = appended c (attempt fault (append_job job s))

-- The job is stored, and listed, once its resource is locked.
unfoldable pub append_keyed :
    Fault
    → BackgroundJob
    → JobStore
    → JobCore
    → Result (Option Bytes)
    → Result BackgroundJob × JobCore
unfolding try_lock_res append_at
append_keyed fault job s c (ok (some key)) =
    let (free, d) = try_lock_res key c in
    let next = append_at fault job s d in if free then next else (err already_exists, d)
append_keyed fault job s c (ok none) = append_at fault job s c
append_keyed fault job s c (err e) = (err e, c)
append_keyed fault job s c panicked = (panicked, c)

unfoldable pub append : Fault → BackgroundJob → JobCore → Result BackgroundJob × JobCore
unfolding res_key append_keyed
append fault job c = elim c.schema [
  | none ↦ (err not_root_leader, c)
  | some s ↦ append_keyed fault job s c (res_key job)
]

unfoldable pub unlock_keyed : JobCore → Result (Option Bytes) → Result (Unit {0}) × JobCore
unfolding unlock_res
unlock_keyed c (ok (some key)) = (ok tt, unlock_res key c)
unlock_keyed c (ok none) = (ok tt, c)
unlock_keyed c (err e) = (err e, c)
unlock_keyed c panicked = (panicked, c)

unfoldable pub unlock_job : BackgroundJob → JobCore → Result (Unit {0}) × JobCore
unfolding res_key unlock_keyed
unlock_job job c = unlock_keyed c (res_key job)

-- What follows the call of `remove_job`.
unfoldable pub removed :
    BackgroundJob → JobCore → Result (Unit {0}) × JobStore → Result (Unit {0}) × JobCore
unfolding with_schema with_mem_jobs unlock_job
removed job c (ok u, t) =
    unlock_job job (with_mem_jobs (retain (λ j. not (j.id == job.id)) c.mem_jobs) (with_schema t c))
removed job c (err e, t) = (err e, with_schema t c)
removed job c (panicked, t) = (panicked, with_schema t c)

unfoldable pub finish_job : Fault → BackgroundJob → JobCore → Result (Unit {0}) × JobCore
unfolding remove_job attempt removed
finish_job fault job c = elim c.schema [
  | none ↦ (err not_root_leader, c)
  | some s ↦ removed job c (attempt fault (tt {0}, remove_job job s))
]

-- `HashSet::insert` of the keys of the jobs, in order.
unfoldable pub lock_jobs : List BackgroundJob → JobCore → Result (Unit {0}) × JobCore
unfolding res_key try_lock_res
lock_jobs [] c = (ok tt, c)
lock_jobs (j ∷ js) c = elim (res_key j) [
  | ok (some key) ↦ lock_jobs js (try_lock_res key c).1
  | ok none ↦ lock_jobs js c
  | err e ↦ (err e, c)
  | panicked ↦ (panicked, c)
]

unfoldable pub recovery : Fault → JobCore → Result (Unit {0}) × JobCore
unfolding list_job attempt with_schema with_mem_jobs with_res_locks lock_jobs
recovery fault c = elim c.schema [
  | none ↦ (err not_root_leader, c)
  | some s ↦
      (let (listed, t) = attempt fault (list_job s, s) in
        let stored = with_schema t c in
        elim listed [
          | ok jobs ↦ lock_jobs jobs (with_res_locks [] (with_mem_jobs jobs stored))
          | err e ↦ (err e, stored)
          | panicked ↦ (panicked, stored)
        ])
]

-- `on_drop_leader` of the jobs and of their core.
unfoldable pub on_drop_leader : JobCore → JobCore
on_drop_leader c = record c { res_locks = []; enable = false }

unfoldable pub check_root_leader : JobCore → Result (Unit {0})
check_root_leader c = if c.enable then ok tt else err not_root_leader

-- What `append` returns is dropped by a submission that does not wait for the job.
unfoldable pub submitted : Result BackgroundJob × JobCore → Result (Unit {0}) × JobCore
submitted (ok job, c) = (ok tt, c)
submitted (err e, c) = (err e, c)
submitted (panicked, c) = (panicked, c)

-- `submit` without a wait for the result.
unfoldable pub submit : Fault → BackgroundJob → JobCore → Result (Unit {0}) × JobCore
unfolding check_root_leader append submitted
submit fault job c =
    let next = submitted (append fault job c) in
    elim (check_root_leader c) [ ok u ↦ next | err e ↦ (err e, c) | panicked ↦ (panicked, c) ]

unfoldable pub enabled : Result (Unit {0}) × JobCore → Result (Unit {0}) × JobCore
enabled (ok u, c) = (ok tt, record c { enable = true })
enabled (err e, c) = (err e, c)
enabled (panicked, c) = (panicked, c)

unfoldable pub on_step_leader : Fault → JobCore → Result (Unit {0}) × JobCore
unfolding recovery enabled
on_step_leader fault c = enabled (recovery fault c)
