-- ===== src/Eval/Forward.antt =====
-- The context in which a replica evaluates a request (src/server/src/replica/mod.rs, `ExecCtx`), and
-- the test with which every evaluation starts: a shard that is moving has its requests forwarded
-- with the stored versions of their keys.
use sekas.Prelude.{ℕ, Option, none, some, List, [], ◌∷◌, ◌==◌, if◌then◌else◌, Bytes}
use sekas.Api.{MoveShardDesc, ValueSet, forward, Result, ok, err, ◌>>=◌, expect}
use sekas.Engine.RawDb.{RawDb}
use sekas.Engine.Group.{GroupEngine}
use sekas.Engine.Data.{get_all_versions}

pub record ExecCtx : Type 0 where
  pub group_id : ℕ
  pub replica_id : ℕ
  pub epoch : ℕ
  pub forward_shard_id : Option ℕ
  pub move_shard_desc : Option MoveShardDesc

-- The destination group, if `shard_id` is the shard that is moving.
unfoldable pub moving_to : Option MoveShardDesc → ℕ → Result (Option ℕ)
moving_to none shard_id = ok none
moving_to (some desc) shard_id = do
  shard ← expect desc.shard_desc
  ok (if shard.id == shard_id then some desc.dest_group_id else none)

module _ {R : RawDb} where
  unfoldable pub payloads_of : GroupEngine R → ℕ → List Bytes → Result (List ValueSet)
  payloads_of e shard_id [] = ok []
  payloads_of e shard_id (k ∷ ks) = do
    payload ← get_all_versions e shard_id k
    rest ← payloads_of e shard_id ks
    ok (payload ∷ rest)

  -- Returns only if the request is to be evaluated here.
  unfoldable pub check_forward : ExecCtx → GroupEngine R → ℕ → List Bytes → Result (Unit {0})
  unfolding moving_to payloads_of
  check_forward ctx e shard_id keys = do
    destination ← moving_to ctx.move_shard_desc shard_id
    elim destination [
      | none ↦ ok tt
      | some dest ↦ do
        payloads ← payloads_of e shard_id keys
        err (forward (record { shard_id = shard_id; dest_group_id = dest; payloads = payloads }))
    ]
