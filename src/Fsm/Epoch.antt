-- ===== src/Fsm/Epoch.antt =====
-- The epoch of the descriptor never falls.
use sekas.Prelude.{ℕ, ◌+◌, ◌≤◌, ◌<◌, ◌≡◌, arith, ◌^◌, max, Option, none, some}
use sekas.Api.{
  GroupDesc, ShardDesc, MoveShardDesc, MoveShardState, EntryId, ok, get_move_shard_desc,
}
use sekas.Engine.RawDb.{RawDb}
use sekas.Fsm.Machine.{
  GroupStateMachine, MoveShard, ApplyEntry, current_descriptor, apply, add_shard,
  apply_moving_shard, apply_move_shard_event, apply_sync_op, apply_proposal, apply_change_replicas,
  plug_batch, plug_descriptor, with_move_state, must_move_shard_state,
}

add_shard-epoch :
    (shard : Option ShardDesc) (d d' : GroupDesc)
    → d.epoch < 2 ^ 62
    → add_shard shard d ≡ ok d'
    → (d.epoch ≤ d'.epoch) × (d'.epoch ≤ d.epoch + 2 ^ 32)
unfolding add_shard
add_shard-epoch shard d d' b h = ground arith

apply_moving_shard-epoch :
    (d d' : GroupDesc) (m : MoveShardDesc)
    → d.epoch < 2 ^ 63
    → m.src_group_epoch < 2 ^ 63
    → m.dest_group_epoch < 2 ^ 63
    → apply_moving_shard d m ≡ ok d'
    → (d.epoch < d'.epoch) × (m.src_group_epoch < d'.epoch) × (m.dest_group_epoch < d'.epoch)
unfolding apply_moving_shard
apply_moving_shard-epoch d d' m b s t h = ground arith

-- The later epoch that a move carries.
abbrev pub move_epoch : Option MoveShardState → ℕ
move_epoch none = 0
move_epoch (some s) = elim s.move_shard [
  | none ↦ 0
  | some d ↦ max d.src_group_epoch d.dest_group_epoch
]

apply_move_shard_event-epoch :
    {R : RawDb} (move : MoveShard) (d d' : GroupDesc) (m m' : GroupStateMachine R)
    → d.epoch < 2 ^ 63
    → move_epoch m.plugged_write_states.move_shard_state < 2 ^ 63
    → move_epoch m.group_engine.core.move_shard_state < 2 ^ 63
    → apply_move_shard_event move d m ≡ ok (m', d')
    → d.epoch ≤ d'.epoch
unfolding apply_move_shard_event must_move_shard_state with_move_state apply_moving_shard
    get_move_shard_desc
apply_move_shard_event-epoch move d d' m m' b plugged stored h = ground arith

-- Below the end of their ranges, no entry lowers the epoch of the descriptor that the state machine
-- is about to write, and the position of the entry becomes the state to flush.
pub apply-epoch :
    {R : RawDb} (id : EntryId) (entry : ApplyEntry) (m m' : GroupStateMachine R)
    → (current_descriptor m).epoch < 2 ^ 62
    → move_epoch m.plugged_write_states.move_shard_state < 2 ^ 63
    → move_epoch m.group_engine.core.move_shard_state < 2 ^ 63
    → apply id entry m ≡ ok m'
    → ((current_descriptor m).epoch ≤ (current_descriptor m').epoch)
      × (m'.plugged_write_states.apply_state ≡ some id)
unfolding apply apply_change_replicas apply_proposal apply_sync_op plug_batch plug_descriptor
    current_descriptor apply_move_shard_event must_move_shard_state with_move_state
    apply_moving_shard get_move_shard_desc add_shard
apply-epoch id entry m m' b plugged stored h = ground arith
