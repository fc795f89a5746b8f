-- ===== src/Root/Jobs/Locks.antt =====
-- The resources that the jobs in memory have locked.
pub mod Keys
use sekas.Prelude.{
  ℕ, ◌≡◌, refl, sym, ap, ◌∙◌, subst, inl, inr, Bool, true, false, Bool-cases, Option-cases, not,
  Option, none, some, List, [], ◌∷◌, ◌++◌, any, find, retain, ◌==◌, if◌then◌else◌, arith, All,
  All-append, All-mono, append-nil, Bytes, bytes_eq, bytes_eq→eq, bytes_eq_refl,
}
use sekas.Api.{Error, not_root_leader, already_exists, Result, ok, err, panicked, expect, ◌>>=◌}
use sekas.Root.JobStore.{Job, BackgroundJob, JobStore, update_job, append_job, remove_job}
use sekas.Root.Jobs.{
  JobCore, Fault, res_key_of, res_key, replace_first, attempt, with_schema, with_mem_jobs,
  with_res_locks, is_locked, try_lock_res, unlock_res, unlock_keyed, unlock_job, append_keyed,
  updated, update, appended, append_at, append, removed, finish_job,
}
use sekas.Root.Jobs.Locks.Keys.{
  key_of, with_key, keys_of, IsDistinct, All-keys_of-retain, keys_of-append, IsDistinct-append,
  IsDistinct-retain, locked_differs, any-unlock, keys_of-removed, keys_of-replace_first,
}

-- No two jobs in memory lock the same resource, and what they lock is locked.
abbrev pub IsExclusive : JobCore → Type 0
IsExclusive c =
    IsDistinct (keys_of c.mem_jobs) × All (λ k. is_locked k c ≡ true) (keys_of c.mem_jobs)

-- The first job in memory with the job's id locks the job's resource.
abbrev pub IsListed : BackgroundJob → JobCore → Type 0
IsListed job c =
    (j : BackgroundJob) × (find (λ x. x.id == job.id) c.mem_jobs ≡ some j) × (key_of j ≡ key_of job)

updated-IsExclusive :
    (job : BackgroundJob) (c : JobCore) (r : Result Bool × JobStore)
    → IsListed job c
    → IsExclusive c
    → IsExclusive (updated job c r).1
unfolding updated with_schema with_mem_jobs is_locked
updated-IsExclusive job c (ok true, t) (j, f, e) (d, h) =
    let same = keys_of-replace_first job j c.mem_jobs f e in
    (subst IsDistinct (sym same) d, subst (All (λ k. is_locked k c ≡ true)) (sym same) h)
updated-IsExclusive job c (ok false, t) l x = x
updated-IsExclusive job c (err e, t) l x = x
updated-IsExclusive job c (panicked, t) l x = x

-- What a job that joins the others locks is locked for none of them.
abbrev IsFit : Option Bytes → JobCore → Type 0
IsFit none c = Unit
IsFit (some key) c =
    All (λ k. bytes_eq k key ≡ false) (keys_of c.mem_jobs) × (is_locked key c ≡ true)

joined-IsDistinct :
    (o : Option Bytes) (c : JobCore)
    → IsFit o c
    → IsExclusive c
    → IsDistinct (keys_of c.mem_jobs ++ with_key o [])
      × All (λ k. is_locked k c ≡ true) (keys_of c.mem_jobs ++ with_key o [])
joined-IsDistinct none c fit (d, h) = (
  subst IsDistinct (sym (append-nil (keys_of c.mem_jobs))) d,
  All-append (λ k. is_locked k c ≡ true) (keys_of c.mem_jobs) [] h tt,
)
joined-IsDistinct (some key) c (apart, held) (d, h) = (
  IsDistinct-append key (keys_of c.mem_jobs) d apart,
  All-append (λ k. is_locked k c ≡ true) (keys_of c.mem_jobs) (key ∷ []) h (held, tt),
)

append_at-IsExclusive :
    (fault : Fault) (job : BackgroundJob) (s : JobStore) (c : JobCore)
    → IsFit (key_of job) c
    → IsExclusive c
    → IsExclusive (append_at fault job s c).1
unfolding append_at appended attempt append_job with_schema with_mem_jobs is_locked key_of
append_at-IsExclusive (some (e, t)) job s c fit x = x
append_at-IsExclusive none job s c fit x =
    let numbered : BackgroundJob = record { id = s.next_job_id; job = job.job } in
    let all = sym (keys_of-append c.mem_jobs (numbered ∷ [])) in
    let (d, h) = joined-IsDistinct (key_of job) c fit x in
    (subst IsDistinct all d, subst (All (λ k. is_locked k c ≡ true)) all h)

append_keyed-IsExclusive :
    (fault : Fault) (job : BackgroundJob) (s : JobStore) (c : JobCore) (r : Result (Option Bytes))
    → ((o : Option Bytes) → r ≡ ok o → key_of job ≡ o)
    → IsExclusive c
    → IsExclusive (append_keyed fault job s c r).1
unfolding append_keyed try_lock_res with_res_locks is_locked
append_keyed-IsExclusive fault job s c (err e) k x = x
append_keyed-IsExclusive fault job s c panicked k x = x
append_keyed-IsExclusive fault job s c (ok none) k x =
    append_at-IsExclusive fault job s c (subst (λ o. IsFit o c) (sym (k none refl)) tt) x
append_keyed-IsExclusive fault job s c (ok (some key)) k (d, h) =
    elim (Bool-cases (any (bytes_eq key) c.res_locks)) [
      | inl held ↦ rw held (d, h)
      | inr free ↦
          let locked : JobCore = with_res_locks (key ∷ c.res_locks) c in
          let fit : IsFit (some key) locked = (
            All-mono (keys_of c.mem_jobs) (λ x hx. locked_differs x key c.res_locks hx free) h,
            ground (arith, bytes_eq_refl key),
          ) in
          let more : All (λ x. is_locked x locked ≡ true) (keys_of c.mem_jobs) =
            All-mono (keys_of c.mem_jobs) (λ x hx. ground (arith, hx)) h in
          rw free (
            append_at-IsExclusive fault job s locked
              (subst (λ o. IsFit o locked) (sym (k (some key) refl)) fit) (d, more))
    ]

res_key-key_of : (job : BackgroundJob) (o : Option Bytes) → res_key job ≡ ok o → key_of job ≡ o
unfolding res_key key_of
res_key-key_of job o h = of_job job.job h
  where
    of_job :
        (m : Option Job)
        → (do j ← expect m; ok (res_key_of j)) ≡ ok o
        → (elim m [ none ↦ none | some x ↦ res_key_of x ]) ≡ o
    of_job none h = cc
    of_job (some x) h = cc

append-IsExclusive :
    (fault : Fault) (job : BackgroundJob) (c : JobCore)
    → IsExclusive c
    → IsExclusive (append fault job c).1
unfolding append
append-IsExclusive fault job c x = elim (Option-cases c.schema) [
  | inl missing ↦ rw (append, missing) x
  | inr (s, here) ↦
      rw (append, here)
        (append_keyed-IsExclusive fault job s c (res_key job) (res_key-key_of job) x)
]

update-IsExclusive :
    (fault : Fault) (job : BackgroundJob) (c : JobCore)
    → IsListed job c
    → IsExclusive c
    → IsExclusive (update fault job c).1
unfolding update
update-IsExclusive fault job c l x = elim (Option-cases c.schema) [
  | inl missing ↦ rw (update, missing) x
  | inr (s, here) ↦
      rw (update, here) (updated-IsExclusive job c (attempt fault (update_job job s)) l x)
]

unlock_keyed-IsExclusive :
    (job : BackgroundJob) (c : JobCore) (r : Result (Option Bytes))
    → ((o : Option Bytes) → r ≡ ok o → key_of job ≡ o)
    → ((key : Bytes)
        → key_of job ≡ some key
        → All (λ k. bytes_eq key k ≡ false) (keys_of c.mem_jobs))
    → IsExclusive c
    → IsExclusive (unlock_keyed c r).1
unfolding unlock_keyed unlock_res with_res_locks is_locked
unlock_keyed-IsExclusive job c (err e) k apart x = x
unlock_keyed-IsExclusive job c panicked k apart x = x
unlock_keyed-IsExclusive job c (ok none) k apart x = x
unlock_keyed-IsExclusive job c (ok (some key)) k apart (d, h) =
    (d, All-both key c.res_locks (keys_of c.mem_jobs) (apart key (k (some key) refl)) h)
  where
    All-both :
        (key : Bytes) (locks ks : List Bytes)
        → All (λ x. bytes_eq key x ≡ false) ks
        → All (λ x. any (bytes_eq x) locks ≡ true) ks
        → All (λ x. any (bytes_eq x) (retain (λ y. not (bytes_eq key y)) locks) ≡ true) ks
    All-both key locks [] apart h = tt
    All-both key locks (x ∷ xs) apart h =
        (any-unlock x key locks apart.0 h.0, All-both key locks xs apart.1 h.1)

removed-IsExclusive :
    (job : BackgroundJob) (c : JobCore) (r : Result (Unit {0}) × JobStore)
    → IsListed job c
    → IsExclusive c
    → IsExclusive (removed job c r).1
unfolding removed with_schema with_mem_jobs unlock_job is_locked
removed-IsExclusive job c (err e, t) l x = x
removed-IsExclusive job c (panicked, t) l x = x
removed-IsExclusive job c (ok u, t) (j, f, e) (d, h) =
    let others : BackgroundJob → Bool = λ x. not (x.id == job.id) in
    unlock_keyed-IsExclusive job (with_mem_jobs (retain others c.mem_jobs) (with_schema t c))
      (res_key job) (res_key-key_of job)
      (λ key held. keys_of-removed job.id key j c.mem_jobs f (e ∙ held) d)
      (
        IsDistinct-retain others c.mem_jobs d,
        All-keys_of-retain (λ k. is_locked k c ≡ true) others c.mem_jobs h,
      )

finish_job-IsExclusive :
    (fault : Fault) (job : BackgroundJob) (c : JobCore)
    → IsListed job c
    → IsExclusive c
    → IsExclusive (finish_job fault job c).1
unfolding finish_job
finish_job-IsExclusive fault job c l x = elim (Option-cases c.schema) [
  | inl missing ↦ rw (finish_job, missing) x
  | inr (s, here) ↦
      rw (finish_job, here)
        (removed-IsExclusive job c (attempt fault (tt {0}, remove_job job s)) l x)
]

-- A call of the table, with the failure of the store in it. A job that is saved or finished is in
-- memory, under its id and with its resource.
pub data JobStep : JobCore → JobCore → Type 0 where
  appends : (fault : Fault) (job : BackgroundJob) (c : JobCore) → JobStep c (append fault job c).1
  updates :
      (fault : Fault) (job : BackgroundJob) (c : JobCore)
      → IsListed job c
      → JobStep c (update fault job c).1
  finishes :
      (fault : Fault) (job : BackgroundJob) (c : JobCore)
      → IsListed job c
      → JobStep c (finish_job fault job c).1

pub data JobSteps : JobCore → JobCore → Type 0 where
  stay : (c : JobCore) → JobSteps c c
  go : (a b c : JobCore) → JobStep a b → JobSteps b c → JobSteps a c

JobStep-IsExclusive : (a b : JobCore) → JobStep a b → IsExclusive a → IsExclusive b
JobStep-IsExclusive a b (appends fault job c) x = append-IsExclusive fault job c x
JobStep-IsExclusive a b (updates fault job c l) x = update-IsExclusive fault job c l x
JobStep-IsExclusive a b (finishes fault job c l) x = finish_job-IsExclusive fault job c l x

-- After any appends of jobs, and updates and removals of jobs that are in memory with their resource,
-- also ones that fail, no two jobs in memory lock the same resource, and what they lock is locked, if
-- it was so before.
pub JobSteps-IsExclusive : (a b : JobCore) → JobSteps a b → IsExclusive a → IsExclusive b
JobSteps-IsExclusive a b (stay c) x = x
JobSteps-IsExclusive a b (go c d e step steps) x =
    JobSteps-IsExclusive d e steps (JobStep-IsExclusive c d step x)
