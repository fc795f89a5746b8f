-- ===== src/Eval/Write/ReadBack.antt =====
-- A batch with one put, once written, is read back.
use sekas.Prelude.{
  ℕ, ◌≤◌, ◌<◌, ◌≡◌, refl, sym, ap, ◌∙◌, Option, none, some, List, [], ◌∷◌, Bytes, arith, u64_max,
  All, subst,
}
use sekas.Api.{Value, ShardDesc, PutRequest, with_value, Result, ok, err, panicked, ◌>>=◌}
use sekas.Engine.RawDb.{RawDb, WriteBatch}
use sekas.Engine.Group.{GroupEngine}
use sekas.Engine.Data.{shard_desc, get, put}
use sekas.Engine.Data.Versions.{IsWellFormed}
use sekas.Engine.Data.Latest.{IsLatest, get-IsLatest}
use sekas.Engine.Data.Written.{VersionsUpTo, get-put}
use sekas.Eval.Cas.{eval_conditions}
use sekas.Eval.Cas.Outcome.{Holds, Means, eval_conditions-Means}
use sekas.Eval.Forward.{ExecCtx, check_forward, moving_to}
use sekas.Eval.Write.{
  ShardWriteResponse, batch_write, write_puts, version_after, write_deletes, check_write,
}

-- The version of a write passes all versions that the newest value covers.
version_after-VersionsUpTo :
    (R : RawDb) (db : R.Db) (c : ℕ) (key : Bytes) (prev : Option Value) (now : ℕ)
    → IsLatest R db c key prev
    → ((o : Value) → prev ≡ some o → o.version < u64_max)
    → VersionsUpTo R db c key (version_after prev now)
unfolding version_after
version_after-VersionsUpTo R db c key none now l small w val h b = absurd (l w val h b)
version_after-VersionsUpTo R db c key (some o) now l small w val h b =
    omega (arith, l.1 w val h b, small o refl)

-- A version is behind the former one, and not 0 where there is none.
abbrev pub IsBehind : Option Value → ℕ → Type 0
IsBehind none v = 0 < v
IsBehind (some o) v = o.version < v

version_after-IsBehind :
    (prev : Option Value) (now : ℕ)
    → ((o : Value) → prev ≡ some o → o.version < u64_max)
    → IsBehind prev (version_after prev now)
unfolding version_after
version_after-IsBehind none now small = omega arith
version_after-IsBehind (some o) now small = omega (arith, small o refl)

version_after-clock : (prev : Option Value) (now : ℕ) → now ≤ version_after prev now
unfolding version_after
version_after-clock none now = omega arith
version_after-clock (some o) now = omega arith

version_after-le :
    (prev : Option Value) (now : ℕ) → now ≤ u64_max → version_after prev now ≤ u64_max
unfolding version_after
version_after-le none now h = omega arith
version_after-le (some o) now h = omega arith

put_written :
    {R : RawDb} (clock : ℕ → ℕ) (e : GroupEngine R) (shard_id : ℕ) (p : PutRequest)
    (prev : Option Value) {ops : WriteBatch} {responses : List (Option Value)}
    → get e shard_id p.key ≡ ok prev
    → write_puts clock e shard_id 0 [] (p ∷ []) ≡ ok (ops, responses)
    → (eval_conditions prev p.conditions ≡ ok none)
      × (put e [] shard_id p.key p.value (version_after prev (clock 0)) ≡ ok ops)
unfolding write_puts check_write
put_written clock e shard_id p prev read h = ground (arith, read)

answer : WriteBatch × List (Option Value) → Result (Option WriteBatch × ShardWriteResponse)
answer w = ok (some w.0, record { deletes = []; puts = w.1 })

write_puts_of :
    {R : RawDb} (clock : ℕ → ℕ) (ctx : ExecCtx) (e : GroupEngine R) (shard_id : ℕ) (p : PutRequest)
    {ops : WriteBatch} {resp : ShardWriteResponse}
    → ctx.move_shard_desc ≡ none
    → batch_write clock ctx e (record { shard_id = shard_id; deletes = []; puts = p ∷ [] })
      ≡ ok (some ops, resp)
    → (responses : List (Option Value)) × (write_puts clock e shard_id 0 [] (p ∷ [])
        ≡ ok (ops, responses))
unfolding batch_write check_forward moving_to write_deletes answer
write_puts_of clock ctx e shard_id p {ops} {resp} still h =
    (resp.puts, written (write_puts clock e shard_id 0 [] (p ∷ [])) refl (rw still at h))
  where
    written :
        (r : Result (WriteBatch × List (Option Value)))
        → write_puts clock e shard_id 0 [] (p ∷ []) ≡ r
        → (r >>= answer) ≡ ok (some ops, resp)
        → write_puts clock e shard_id 0 [] (p ∷ []) ≡ ok (ops, resp.puts)
    written (ok w) g k = cc
    written (err x) g k = cc
    written panicked g k = cc

-- A batch of one put whose evaluation succeeds, in a shard that is not moving: the former value is as
-- each condition asks, and once the batch is written, `get` returns the new value, at a version that is
-- above the former one and not below the clock. The collection is well formed, the former version is
-- not at the end of its range, and the clock is within it.
pub batch_write-get :
    {R : RawDb} (clock : ℕ → ℕ) (ctx : ExecCtx) (e : GroupEngine R) (shard_id x : ℕ) (xs : Bytes)
    (p : PutRequest) {desc : ShardDesc} {ops : WriteBatch} {resp : ShardWriteResponse}
    → ctx.move_shard_desc ≡ none
    → shard_desc e shard_id ≡ ok desc
    → IsWellFormed R e.db desc.collection_id
    → p.key ≡ x ∷ xs
    → clock 0 ≤ u64_max
    → ((o : Value) → get e shard_id (x ∷ xs) ≡ ok (some o) → o.version < u64_max)
    → batch_write clock ctx e (record { shard_id = shard_id; deletes = []; puts = p ∷ [] })
      ≡ ok (some ops, resp)
    → (prev : Option Value) × (v : ℕ) × (get e shard_id (x ∷ xs) ≡ ok prev)
      × All (Holds prev) p.conditions
      × IsBehind prev v
      × (clock 0 ≤ v)
      × (get (record e { db = R.write e.db ops }) shard_id (x ∷ xs)
          ≡ ok (some (with_value p.value v)))
unfolding batch_write check_forward moving_to write_deletes
batch_write-get {R} clock ctx e shard_id x xs p still known wf key now small h =
    let (prev, read, latest) = get-IsLatest e shard_id x xs known wf in
    let done = write_puts_of clock ctx e shard_id p still h in
    let (holds, written) =
      put_written clock e shard_id p prev (ap (get e shard_id) key ∙ read) done.1 in
    (
      prev,
      version_after prev (clock 0),
      read,
      subst (Means prev p.conditions) holds (eval_conditions-Means prev p.conditions),
      version_after-IsBehind prev (clock 0) (λ o same. small o (read ∙ ap ok same)),
      version_after-clock prev (clock 0),
      get-put e shard_id x (version_after prev (clock 0)) xs p.value known wf
          (version_after-le prev (clock 0) now)
          (version_after-VersionsUpTo R e.db _ (x ∷ xs) prev (clock 0) latest
            (λ o same. small o (read ∙ ap ok same)))
          (ap (λ k. put e [] shard_id k p.value (version_after prev (clock 0))) (sym key)
            ∙ written),
    )
