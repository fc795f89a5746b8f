-- ===== src/Root/Jobs/Recovery.antt =====
-- What the table of jobs is after a recovery.
use sekas.Prelude.{
  ◌≡◌, refl, sym, ◌∙◌, subst, inl, inr, true, Bool-cases, Option, Option-cases, none, some, is_some,
  List, [], ◌∷◌, any, arith, All, Bytes, bytes_eq, bytes_eq_refl,
}
use sekas.Api.{ok}
use sekas.Root.JobStore.{BackgroundJob, JobStore, list_job}
use sekas.Root.Jobs.{
  JobCore, res_key_of, res_key, try_lock_res, is_locked, with_res_locks, with_mem_jobs, with_schema,
  lock_jobs, recovery, attempt,
}
use sekas.Root.Jobs.Locks.{IsExclusive}
use sekas.Root.Jobs.Locks.Keys.{key_of, keys_of, IsDistinct}

-- A lock that is tried is held then, and no other one is lost.
try_lock_res-holds :
    (key : Bytes) (c : JobCore)
    → (is_locked key (try_lock_res key c).1 ≡ true)
      × ((k : Bytes) → is_locked k c ≡ true → is_locked k (try_lock_res key c).1 ≡ true)
      × ((try_lock_res key c).1.mem_jobs ≡ c.mem_jobs)
unfolding try_lock_res with_res_locks is_locked
try_lock_res-holds key c = elim (Bool-cases (any (bytes_eq key) c.res_locks)) [
  | inl held ↦ rw held (held, λ k h. h, refl)
  | inr free ↦ rw free (ground (arith, bytes_eq_refl key), λ k h. ground (arith, h), refl)
]

res_key-found :
    (j : BackgroundJob)
    → is_some j.job ≡ true
    → (o : Option Bytes) × (res_key j ≡ ok o) × (key_of j ≡ o)
unfolding res_key key_of
res_key-found j h = elim (Option-cases j.job) [
  | inl missing ↦ absurd (ground (arith, h, missing))
  | inr (x, here) ↦ (res_key_of x, rw here refl, rw here refl)
]

-- What locking the jobs does: they are locked, and what was locked stays so.
abbrev Locks : List BackgroundJob → JobCore → JobCore → Type 0
Locks js c d =
    ((k : Bytes) → is_locked k c ≡ true → is_locked k d ≡ true)
    × All (λ k. is_locked k d ≡ true) (keys_of js)
    × (d.mem_jobs ≡ c.mem_jobs)

lock_jobs-Locks :
    (js : List BackgroundJob) (c : JobCore)
    → All (λ j. is_some j.job ≡ true) js
    → (d : JobCore) × (lock_jobs js c ≡ (ok tt, d)) × Locks js c d
unfolding lock_jobs
lock_jobs-Locks [] c h = (c, refl, (λ k e. e, tt, refl))
lock_jobs-Locks (j ∷ js) c (here, h) =
    let (o, found, keyed) = res_key-found j here in
    locked o found keyed (λ d. lock_jobs-Locks js d h)
  where
    locked :
        (o : Option Bytes)
        → res_key j ≡ ok o
        → key_of j ≡ o
        → ((b : JobCore) → (d : JobCore) × (lock_jobs js b ≡ (ok tt, d)) × Locks js b d)
        → (d : JobCore) × (lock_jobs (j ∷ js) c ≡ (ok tt, d)) × Locks (j ∷ js) c d
    locked none r k later =
        let (d, ran, (held, all, same)) = later c in
        (d, rw (lock_jobs, r) ran, (held, rw k all, same))
    locked (some key) r k later =
        let (now, kept, mem) = try_lock_res-holds key c in
        let (d, ran, (held, all, same)) = later (try_lock_res key c).1 in
        (d, rw (lock_jobs, r) ran, (λ x e. held x (kept x e), rw k (held key now, all), same ∙ mem))

-- A recovery that finds no broken job, and no two that lock the same resource, lists the stored jobs,
-- with their resources locked.
recovery-IsExclusive :
    (c : JobCore) (s : JobStore)
    → c.schema ≡ some s
    → All (λ j. is_some j.job ≡ true) (list_job s)
    → IsDistinct (keys_of (list_job s))
    → (d : JobCore) × (recovery none c ≡ (ok tt, d)) × (d.mem_jobs ≡ list_job s) × IsExclusive d
unfolding recovery attempt with_schema with_mem_jobs with_res_locks
recovery-IsExclusive c s here whole apart =
    let (d, ran, (held, all, same)) =
      lock_jobs-Locks (list_job s)
        (with_res_locks [] (with_mem_jobs (list_job s) (with_schema s c))) whole in
    let listed : d.mem_jobs ≡ list_job s = same in
    (
      d,
      rw (recovery, here) ran,
      listed,
      (
        subst (λ js. IsDistinct (keys_of js)) (sym listed) apart,
        subst (λ js. All (λ k. is_locked k d ≡ true) (keys_of js)) (sym listed) all,
      ),
    )
