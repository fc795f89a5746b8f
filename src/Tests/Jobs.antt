-- ===== src/Tests/Jobs.antt =====
-- Runs of the table of background jobs.
use sekas.Prelude.{ℕ, ◌≡◌, refl, true, none, some, [], ◌∷◌, arith, le_bytes}
use sekas.Api.{service_is_busy, already_exists, ok, err}
use sekas.Root.JobStore.{Job, purge_collection, BackgroundJob, JobStore}
use sekas.Root.Jobs.{JobCore, append, finish_job, update}
use sekas.Root.Jobs.Updates.{update_unsaved}
use sekas.Root.Jobs.Locks.Keys.{key_of}
use sekas.Root.Jobs.Locks.{
  IsExclusive, IsListed, JobSteps, stay, go, appends, finishes, JobSteps-IsExclusive,
}

-- The collection 99 of the database 1.
abbrev purge : Job
purge =
    purge_collection
      record { database_id = 1; collection_id = 7; database_name = []; collection_name = 99 ∷ [] }

abbrev store : JobStore
store = record { jobs = []; history = []; next_job_id = 3 }

abbrev core : JobCore
core = record { schema = some store; mem_jobs = []; res_locks = []; enable = true }

abbrev numbered : ℕ → BackgroundJob
numbered id = record { id = id; job = some purge }

abbrev one_job : JobCore
one_job = record {
  schema = some record {
    jobs = (3 ∷ 0 ∷ 0 ∷ 0 ∷ 0 ∷ 0 ∷ 0 ∷ 0 ∷ [], numbered 3) ∷ [];
    history = [];
    next_job_id = 4;
  };
  mem_jobs = numbered 3 ∷ [];
  res_locks = (1 ∷ 0 ∷ 0 ∷ 0 ∷ 0 ∷ 0 ∷ 0 ∷ 0 ∷ 99 ∷ []) ∷ [];
  enable = true;
}

append_one : append none (numbered 0) core ≡ (ok (numbered 3), one_job)
unfolding append
append_one = refl

append_twice : append none (numbered 0) one_job ≡ (err already_exists, one_job)
unfolding append
append_twice = refl

-- A second purge of the collection is refused, the failed append of another job leaves its lock, and
-- the first job is finished.
abbrev other : BackgroundJob
other = record {
  id = 0;
  job = some (
      purge_collection record {
        database_id = 1;
        collection_id = 8;
        database_name = [];
        collection_name = 98 ∷ [];
      });
}

abbrev refused : JobCore
refused = (append none (numbered 0) one_job).1

abbrev failed : JobCore
failed = (append (some (service_is_busy, store)) other refused).1

abbrev finished : JobCore
finished = (finish_job none (numbered 3) failed).1

listed : IsListed (numbered 3) failed
unfolding append
listed = (numbered 3, refl, refl)

steps : JobSteps one_job finished
steps = go one_job refused finished (appends none (numbered 0) one_job) (
    go refused failed finished (appends (some (service_is_busy, store)) other refused)
      (go failed finished finished (finishes none (numbered 3) failed listed) (stay finished)))

one_job-IsExclusive : IsExclusive one_job
unfolding append key_of
one_job-IsExclusive = ((tt, tt), (refl, tt))

lock_left : finished.res_locks ≡ (1 ∷ 0 ∷ 0 ∷ 0 ∷ 0 ∷ 0 ∷ 0 ∷ 0 ∷ 98 ∷ []) ∷ []
unfolding append finish_job
lock_left = refl

JobSteps-IsExclusive_example : IsExclusive finished
JobSteps-IsExclusive_example = JobSteps-IsExclusive one_job finished steps one_job-IsExclusive

update_unsaved_example : update none (numbered 3) one_job ≡ (ok tt, one_job)
unfolding le_bytes
update_unsaved_example =
    update_unsaved (numbered 3) one_job
      record { jobs = (le_bytes 8 3, numbered 3) ∷ []; history = []; next_job_id = 4 } refl
      ((refl, omega arith), tt) (omega arith) (omega arith)
