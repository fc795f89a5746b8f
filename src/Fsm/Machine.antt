-- ===== src/Fsm/Machine.antt =====
-- The steps of the state machine (src/server/src/replica/fsm/mod.rs, `GroupStateMachine`). What the
-- observer is told is a list of events; logging and debug assertions are left out.
use sekas.Prelude.{
  ℕ, ◌+◌, ◌%◌, max, Bool, true, false, not, Option, none, some, is_some, is_none, is_empty, List,
  [], ◌∷◌, ◌++◌, Bytes, ◌==◌, ltb, ◌&&◌, if◌then◌else◌, retain, any, u64_mod,
}
use sekas.Api.{
  GroupDesc, ShardDesc, MoveShardDesc, MoveShardState, MoveShardStep, EntryId, Result, ok, panicked,
  ◌>>=◌, expect, get_move_shard_desc,
}
use sekas.Engine.RawDb.{RawDb, WriteBatch}
use sekas.Engine.Prost.{Prost}
use sekas.Engine.Group.{WriteStates, GroupEngine, group_commit}
use sekas.Fsm.Members.{ChangeReplica, change_replicas}

abbrev pub shard_update_delta : ℕ
shard_update_delta = 4294967296

abbrev pub config_change_delta : ℕ
config_change_delta = 1

pub data MoveShardEvent : Type 0 where
  setup ingested committed aborted applied : MoveShardEvent
  unrecognized : ℕ → MoveShardEvent

pub record MoveShard : Type 0 where
  pub event : MoveShardEvent
  pub desc : Option MoveShardDesc
  pub last_ingested_key : Bytes

-- `add_shard` is the shard of the message `AddShard`, if both are there.
pub record SyncOp : Type 0 where
  pub add_shard : Option ShardDesc
  pub move_shard : Option MoveShard

-- The batch is the one that the data of `WriteBatchRep` stands for.
pub record EvalResult : Type 0 where
  pub batch : Option WriteBatch
  pub op : Option SyncOp

pub data ApplyEntry : Type 0 where
  empty : ApplyEntry
  config_change : List ChangeReplica → ApplyEntry
  proposal : EvalResult → ApplyEntry

pub data Observed : Type 0 where
  descriptor_updated : GroupDesc → Observed
  term_updated : ℕ → Observed
  move_shard_state_updated : Option MoveShardState → Observed

abbrev pub default_states : WriteStates
default_states = record { apply_state = none; descriptor = none; move_shard_state = none }

pub record GroupStateMachine (R : RawDb) : Type 0 where
  pub group_engine : GroupEngine R
  pub plugged_write_batches : List WriteBatch
  pub plugged_write_states : WriteStates
  pub desc_updated : Bool
  pub move_shard_state_changed : Bool
  pub last_applied_term : ℕ
  pub observed : List Observed

-- `apply_moving_shard`: the epoch passes those of both groups.
unfoldable pub apply_moving_shard : GroupDesc → MoveShardDesc → Result GroupDesc
apply_moving_shard group desc = do
  shard ← expect desc.shard_desc
  let inherited = max group.epoch (max desc.src_group_epoch desc.dest_group_epoch)
  ok (record group {
    epoch = (inherited + shard_update_delta) % u64_mod;
    shards =
        if desc.src_group_id == group.id
        then retain (λ r. not (r.id == shard.id)) group.shards
        else group.shards ++ shard ∷ [];
  })

-- The part of `apply_proposal` that adds a shard; one that is there already is a `todo!`.
unfoldable pub add_shard : Option ShardDesc → GroupDesc → Result GroupDesc
add_shard none group = ok group
add_shard (some shard) group =
    if any (λ s. s.id == shard.id) group.shards
    then panicked
    else ok (record group {
      epoch = (group.epoch + shard_update_delta) % u64_mod;
      shards = group.shards ++ shard ∷ [];
    })

abbrev is_prepare : MoveShardStep → Bool
is_prepare MoveShardStep.prepare = true
is_prepare _ = false

module _ {R : RawDb} where
  unfoldable pub current_descriptor : GroupStateMachine R → GroupDesc
  current_descriptor m = elim m.plugged_write_states.descriptor [
    | some d ↦ d
    | none ↦ m.group_engine.core.group_desc
  ]

  unfoldable pub must_move_shard_state : GroupStateMachine R → Result MoveShardState
  must_move_shard_state m = elim m.plugged_write_states.move_shard_state [
    | some s ↦ ok s
    | none ↦ expect m.group_engine.core.move_shard_state
  ]

  -- The state machine after a move has got a new state; `notify` sets the flag.
  unfoldable pub with_move_state : Bool → MoveShardState → GroupStateMachine R → GroupStateMachine R
  with_move_state notify state m = record m {
    plugged_write_states = record m.plugged_write_states { move_shard_state = some state };
    move_shard_state_changed = if notify then true else m.move_shard_state_changed;
  }

  unfoldable pub apply_move_shard_event :
      MoveShard → GroupDesc → GroupStateMachine R → Result (GroupStateMachine R × GroupDesc)
  unfolding must_move_shard_state with_move_state apply_moving_shard get_move_shard_desc
  apply_move_shard_event move desc m = elim move.event [
    | MoveShardEvent.setup ↦ elim move.desc [
      | none ↦ ok (m, desc)
      | some d ↦ ok (
        with_move_state true
            (record { move_shard = some d; last_moved_key = none; step = MoveShardStep.prepare }) m,
        desc,
      )
    ]
    | MoveShardEvent.ingested ↦ do
      state ← must_move_shard_state m
      ok (
        with_move_state (is_prepare state.step)
            (record state {
              step = if is_prepare state.step then MoveShardStep.moving else state.step;
              last_moved_key = some move.last_ingested_key;
            })
            m,
        desc,
      )
    | MoveShardEvent.committed ↦ do
      state ← must_move_shard_state m
      ok (with_move_state true (record state { step = MoveShardStep.moved }) m, desc)
    | MoveShardEvent.applied ↦ do
      state ← must_move_shard_state m
      move_desc ← get_move_shard_desc state
      next ← apply_moving_shard desc move_desc
      ok (
        record (with_move_state true (record state { step = MoveShardStep.finished }) m) {
          desc_updated = true;
        },
        next,
      )
    | MoveShardEvent.aborted ↦ do
      state ← must_move_shard_state m
      ok (with_move_state true (record state { step = MoveShardStep.aborted }) m, desc)
    | MoveShardEvent.unrecognized n ↦ panicked
  ]

  unfoldable pub plug_batch : Option WriteBatch → GroupStateMachine R → GroupStateMachine R
  plug_batch none m = m
  plug_batch (some wb) m = record m { plugged_write_batches = m.plugged_write_batches ++ wb ∷ [] }

  unfoldable pub plug_descriptor : GroupDesc → GroupStateMachine R → GroupStateMachine R
  plug_descriptor desc m = record m {
    plugged_write_states = record m.plugged_write_states { descriptor = some desc };
  }

  unfoldable pub apply_sync_op : SyncOp → GroupStateMachine R → Result (GroupStateMachine R)
  unfolding current_descriptor add_shard apply_move_shard_event plug_descriptor
  apply_sync_op op m = do
    desc ← add_shard op.add_shard (current_descriptor m)
    let added = record m { desc_updated = if is_some op.add_shard then true else m.desc_updated }
    (moved, next) ← elim op.move_shard [
      | none ↦ ok (added, desc)
      | some move ↦ apply_move_shard_event move desc added
    ]
    ok (plug_descriptor next moved)

  unfoldable pub apply_proposal : EvalResult → GroupStateMachine R → Result (GroupStateMachine R)
  unfolding apply_sync_op plug_batch
  apply_proposal eval_result m = elim eval_result.op [
    | none ↦ ok (plug_batch eval_result.batch m)
    | some op ↦ apply_sync_op op (plug_batch eval_result.batch m)
  ]

  unfoldable pub apply_change_replicas :
      List ChangeReplica → GroupStateMachine R → Result (GroupStateMachine R)
  unfolding current_descriptor change_replicas plug_descriptor
  apply_change_replicas changes m = do
    let desc = current_descriptor m
    replicas ← change_replicas changes desc.replicas
    ok (
        plug_descriptor
          (record desc {
            replicas = replicas;
            epoch = (desc.epoch + config_change_delta) % u64_mod;
          })
          (record m { desc_updated = true }))

  unfoldable pub start_plug : GroupStateMachine R → Result (GroupStateMachine R)
  start_plug m =
      if is_empty m.plugged_write_batches && is_none m.plugged_write_states.apply_state
      then ok m
      else panicked

  unfoldable pub apply : EntryId → ApplyEntry → GroupStateMachine R → Result (GroupStateMachine R)
  unfolding apply_change_replicas apply_proposal
  apply id entry m = do
    next ← elim entry [
      | ApplyEntry.empty ↦ ok m
      | ApplyEntry.config_change changes ↦ apply_change_replicas changes m
      | ApplyEntry.proposal eval_result ↦ apply_proposal eval_result m
    ]
    ok (record next {
      plugged_write_states = record next.plugged_write_states { apply_state = some id };
    })

  unfoldable pub flush_updated_events : ℕ → GroupStateMachine R → GroupStateMachine R
  flush_updated_events term m = record m {
    desc_updated = false;
    move_shard_state_changed = false;
    last_applied_term = if ltb m.last_applied_term term then term else m.last_applied_term;
    observed =
        m.observed
        ++ ((if m.desc_updated
              then Observed.descriptor_updated m.group_engine.core.group_desc ∷ []
              else [])
            ++ ((if ltb m.last_applied_term term then Observed.term_updated term ∷ [] else [])
                ++ (if m.move_shard_state_changed
                    then Observed.move_shard_state_updated m.group_engine.core.move_shard_state ∷ []
                    else [])));
  }

  unfoldable pub finish_plug : Prost → GroupStateMachine R → Result (GroupStateMachine R)
  unfolding flush_updated_events group_commit
  finish_plug P m = do
    id ← expect m.plugged_write_states.apply_state
    engine ← group_commit R P m.plugged_write_batches m.plugged_write_states m.group_engine
    ok (
        flush_updated_events id.term (record m {
          group_engine = engine;
          plugged_write_batches = [];
          plugged_write_states = default_states;
        }))
