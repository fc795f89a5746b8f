-- ===== src/Root/Jobs/Updates.antt =====
-- What an update of a job stores.
use sekas.Prelude.{
  ℕ, ◌<◌, ◌≡◌, refl, sym, ap, ◌∙◌, inl, inr, false, Bool-cases, none, some, List, [], ◌∷◌, arith,
  All, Bytes, bytes_eq, le_bytes, be_bytes,
}
use sekas.Api.{not_root_leader, ok, err}
use sekas.Root.JobStore.{BackgroundJob, JobStore, lookup, erase, update_job}
use sekas.Root.Jobs.{JobCore, updated, update, attempt, with_schema}

-- An id of less than four bytes, but for 0, reads differently from the other end.
le_be_differ :
    (i j : ℕ)
    → 0 < i
    → i < 4294967296
    → j < 4294967296
    → bytes_eq (le_bytes 8 j) (be_bytes 8 i) ≡ false
unfolding bytes_eq le_bytes be_bytes
le_be_differ i j h hi hj = ground (arith, h, hi, hj)

-- The stored jobs are under the little-endian bytes of their ids, which take less than four bytes.
abbrev pub IsKeyed : List (Bytes × BackgroundJob) → Type 0
IsKeyed kvs = All (λ kv. (kv.0 ≡ le_bytes 8 kv.1.id) × (kv.1.id < 4294967296)) kvs

lookup-be_bytes :
    (i : ℕ) (kvs : List (Bytes × BackgroundJob))
    → 0 < i
    → i < 4294967296
    → IsKeyed kvs
    → lookup (be_bytes 8 i) kvs ≡ none
unfolding lookup
lookup-be_bytes i [] h hi k = refl
lookup-be_bytes i ((b, v) ∷ kvs) h hi ((e, small), k) =
    rw (e, le_be_differ i v.id h hi small) (lookup-be_bytes i kvs h hi k)

erase-IsKeyed :
    (b : Bytes) (kvs : List (Bytes × BackgroundJob)) → IsKeyed kvs → IsKeyed (erase b kvs)
unfolding erase
erase-IsKeyed b [] k = tt
erase-IsKeyed b ((c, v) ∷ kvs) (h, k) = elim (Bool-cases (bytes_eq c b)) [
  | inl same ↦ rw same (erase-IsKeyed b kvs k)
  | inr other ↦ rw other (h, erase-IsKeyed b kvs k)
]

-- Where the root leads, the store does not fail, and the ids of the stored jobs are below 2 ^ 32: an
-- update of a job whose id is below 2 ^ 32, and not 0, does not find the job. It succeeds, and changes
-- neither the store nor the jobs in memory.
pub update_unsaved :
    (job : BackgroundJob) (c : JobCore) (s : JobStore)
    → c.schema ≡ some s
    → IsKeyed s.jobs
    → 0 < job.id
    → job.id < 4294967296
    → update none job c ≡ (ok tt, c)
unfolding update update_job attempt updated with_schema
update_unsaved job c s here k h hi =
    let missed : update_job job s ≡ (false, s) = rw (lookup-be_bytes job.id s.jobs h hi k) refl in
    ap
      (λ o. elim o [
        | none ↦ (err not_root_leader, c)
        | some t ↦ updated job c (attempt none (update_job job t))
      ])
      here
    ∙ ap (λ r. updated job c (attempt none r)) missed
    ∙ ap (λ o. (ok tt, record c { schema = o })) (sym here)
