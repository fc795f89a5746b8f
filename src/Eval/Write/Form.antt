-- ===== src/Eval/Write/Form.antt =====
-- What a batch of writes leaves of the form of a collection.
use sekas.Prelude.{
  ℕ, ◌+◌, ◌≤◌, ◌≡◌, ap, subst, inl, inr, Bool-cases, ◌&&◌, Option, none, some, List, [], ◌∷◌, ◌++◌,
  Bytes, length, is_empty, map, arith, u64_max, All, All-append,
}
use sekas.Api.{Value, ShardDesc, PutRequest, DeleteRequest, ok, bind_ok}
use sekas.Engine.Keys.{mvcc_key}
use sekas.Engine.RawDb.{RawDb, WriteOp, WriteBatch}
use sekas.Engine.Snapshot.{data_value, tombstone_bytes}
use sekas.Engine.Group.{GroupEngine}
use sekas.Engine.Data.{shard_desc, get, put, tombstone}
use sekas.Engine.Data.Versions.{IsWellFormed}
use sekas.Engine.Data.Latest.{KeepsForm, write-IsWellFormed}
use sekas.Eval.Cas.{eval_conditions}
use sekas.Eval.Forward.{ExecCtx, check_forward}
use sekas.Eval.Write.{
  ShardWriteRequest, ShardWriteResponse, batch_write, write_puts, version_after, write_deletes,
  check_write, is_plain, delete_key, put_key,
}

abbrev pub IsKey : Bytes → Type 0
IsKey key = (x : ℕ) × (xs : Bytes) × (key ≡ x ∷ xs)

version_after_bound :
    (prev : Option Value) (now : ℕ) → now ≤ u64_max → version_after prev now ≤ u64_max
unfolding version_after
version_after_bound none now h = omega arith
version_after_bound (some o) now h = omega arith

module _ {R : RawDb} (clock : ℕ → ℕ) (e : GroupEngine R) (shard_id : ℕ) {desc : ShardDesc}
    (known : shard_desc e shard_id ≡ ok desc) (ticks : (i : ℕ) → clock i ≤ u64_max) where
  abbrev Keeps : WriteBatch → Type 0
  Keeps ops = All (KeepsForm desc.collection_id) ops

  op-Keeps :
      (wb : WriteBatch) (key stored : Bytes) (v : ℕ)
      → IsKey key
      → v ≤ u64_max
      → Keeps wb
      → Keeps (wb ++ WriteOp.put (mvcc_key desc.collection_id key v) stored ∷ [])
  op-Keeps wb key stored v (x, xs, same) bound h =
      All-append (KeepsForm desc.collection_id) wb
        (WriteOp.put (mvcc_key desc.collection_id key v) stored ∷ []) h
        ((λ _. (x, xs, v, ap (λ k. mvcc_key desc.collection_id k v) same, bound)), tt)

  put-Keeps :
      (wb ops : WriteBatch) (key value : Bytes) (v : ℕ)
      → IsKey key
      → v ≤ u64_max
      → Keeps wb
      → put e wb shard_id key value v ≡ ok ops
      → Keeps ops
  unfolding put
  put-Keeps wb ops key value v (x, xs, same) bound h done =
      let same_ops : wb ++ WriteOp.put (mvcc_key desc.collection_id key v) (data_value value) ∷ []
          ≡ ops =
        cc (done, known) in
      subst Keeps same_ops (op-Keeps wb key (data_value value) v (x, xs, same) bound h)

  tombstone-Keeps :
      (wb ops : WriteBatch) (key : Bytes) (v : ℕ)
      → IsKey key
      → v ≤ u64_max
      → Keeps wb
      → tombstone e wb shard_id key v ≡ ok ops
      → Keeps ops
  unfolding tombstone
  tombstone-Keeps wb ops key v (x, xs, same) bound h done =
      let same_ops : wb ++ WriteOp.put (mvcc_key desc.collection_id key v) tombstone_bytes ∷ []
          ≡ ops =
        cc (done, known) in
      subst Keeps same_ops (op-Keeps wb key tombstone_bytes v (x, xs, same) bound h)

  write_deletes-Keeps :
      (idx : ℕ) (wb ops : WriteBatch) (dels : List DeleteRequest) (responses : List (Option Value))
      → All (λ d. IsKey d.key) dels
      → Keeps wb
      → write_deletes clock e shard_id idx wb dels ≡ ok (ops, responses)
      → Keeps ops
  unfolding write_deletes
  write_deletes-Keeps idx wb ops [] responses keys h done = subst Keeps (ground (arith, done)) h
  write_deletes-Keeps idx wb ops (del ∷ dels) responses keys h done =
      let (prev, p, h1) = bind_ok (get e shard_id del.key) _ (ops, responses) done in
      let (failed, q, h2) = bind_ok (eval_conditions prev del.conditions) _ (ops, responses) h1 in
      let (u, c, h3) = bind_ok (check_write idx prev failed) _ (ops, responses) h2 in
      let (wb', w, h4) =
        bind_ok (tombstone e wb shard_id del.key (version_after prev (clock idx))) _
          (ops, responses) h3 in
      let (last, r, h5) =
        bind_ok (write_deletes clock e shard_id (idx + 1) wb' dels) _ (ops, responses) h4 in
      let kept =
        tombstone-Keeps wb wb' del.key (version_after prev (clock idx)) keys.0
          (version_after_bound prev (clock idx) (ticks idx)) h w in
      subst Keeps (ground (arith, h5))
        (write_deletes-Keeps (idx + 1) wb' last.0 dels last.1 keys.1 kept r)

  write_puts-Keeps :
      (idx : ℕ) (wb ops : WriteBatch) (puts : List PutRequest) (responses : List (Option Value))
      → All (λ p. IsKey p.key) puts
      → Keeps wb
      → write_puts clock e shard_id idx wb puts ≡ ok (ops, responses)
      → Keeps ops
  unfolding write_puts
  write_puts-Keeps idx wb ops [] responses keys h done = subst Keeps (ground (arith, done)) h
  write_puts-Keeps idx wb ops (pt ∷ puts) responses keys h done =
      elim (Bool-cases (is_plain pt.put_type)) [
        | inr other ↦ absurd (ground (arith, other, done))
        | inl plain ↦
            let (prev, p, h1) =
              bind_ok (get e shard_id pt.key) _ (ops, responses) (rw (write_puts, plain) at done) in
            let (failed, q, h2) =
              bind_ok (eval_conditions prev pt.conditions) _ (ops, responses) h1 in
            let (u, c, h3) = bind_ok (check_write idx prev failed) _ (ops, responses) h2 in
            let (wb', w, h4) =
              bind_ok (put e wb shard_id pt.key pt.value (version_after prev (clock idx))) _
                (ops, responses) h3 in
            let (last, r, h5) =
              bind_ok (write_puts clock e shard_id (idx + 1) wb' puts) _ (ops, responses) h4 in
            let kept =
              put-Keeps wb wb' pt.key pt.value (version_after prev (clock idx)) keys.0
                (version_after_bound prev (clock idx) (ticks idx)) h w in
            subst Keeps (ground (arith, h5))
              (write_puts-Keeps (idx + 1) wb' last.0 puts last.1 keys.1 kept r)
      ]

-- A batch that is evaluated in a known shard, whatever its deletes and puts, keeps the shard's
-- collection well formed once it is written. The keys of the requests are not empty, and the clock is
-- in the range of a u64.
pub batch_write-IsWellFormed :
    {R : RawDb} (clock : ℕ → ℕ) (ctx : ExecCtx) (e : GroupEngine R) (req : ShardWriteRequest)
    {desc : ShardDesc} {ops : WriteBatch} {resp : ShardWriteResponse}
    → shard_desc e req.shard_id ≡ ok desc
    → ((i : ℕ) → clock i ≤ u64_max)
    → All (λ d. IsKey d.key) req.deletes
    → All (λ p. IsKey p.key) req.puts
    → IsWellFormed R e.db desc.collection_id
    → batch_write clock ctx e req ≡ ok (some ops, resp)
    → IsWellFormed R (R.write e.db ops) desc.collection_id
unfolding batch_write
batch_write-IsWellFormed {R} clock ctx e req {desc} {ops} {resp} known ticks dels puts wf done =
    elim (Bool-cases (is_empty req.deletes && is_empty req.puts)) [
      | inl nothing ↦ absurd (ground (arith, nothing, done))
      | inr some_write ↦
          let (u, c, h1) =
            bind_ok
              (check_forward ctx e req.shard_id
                (map delete_key req.deletes ++ map put_key req.puts))
              _ (some ops, resp) (rw (batch_write, some_write) at done) in
          let (deleted, r, h2) =
            bind_ok (write_deletes clock e req.shard_id 0 [] req.deletes) _ (some ops, resp) h1 in
          let (last, q, h3) =
            bind_ok (write_puts clock e req.shard_id (length req.deletes) deleted.0 req.puts) _
              (some ops, resp) h2 in
          let same : last.0 ≡ ops = ground (arith, h3) in
          subst (λ o. IsWellFormed R (R.write e.db o) desc.collection_id) same
            (write-IsWellFormed R e.db desc.collection_id last.0 wf (
              write_puts-Keeps clock e req.shard_id known ticks (length req.deletes) deleted.0
                last.0 req.puts last.1 puts
                (write_deletes-Keeps clock e req.shard_id known ticks 0 [] deleted.0 req.deletes
                  deleted.1 dels tt r)
                q))
    ]
