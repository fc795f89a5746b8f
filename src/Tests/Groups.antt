-- ===== src/Tests/Groups.antt =====
-- Runs of the state machine and of the latches.
use sekas.Prelude.{
  ℕ, ◌≡◌, ◌≢◌, ◌≤◌, refl, Bool, true, false, none, some, List, [], ◌∷◌, ◌==◌, any, arith,
}
use sekas.Api.{ReplicaDesc, ReplicaRole, EntryId, ok}
use sekas.Fsm.Members.{
  ChangeReplica, ChangeReplicaType, apply_simple_change, apply_enter_joint, apply_leave_joint,
}
use sekas.Fsm.Members.Roles.{role_of, apply_simple_change-role_of}
use sekas.Fsm.Members.Joint.{joint_roles, leave_role, apply_enter_joint-role_of}
use sekas.Fsm.Machine.{GroupStateMachine, ApplyEntry, default_states, current_descriptor, apply}
use sekas.Fsm.Epoch.{apply-epoch}
use sekas.Eval.Latch.{get_latch}
use sekas.Eval.Latch.Holder.{
  LatchOp, LatchState, IsExclusive, latch_step, latch_steps, latch_steps-one_guard,
  latch_step-intent_waiters, no_latch,
}
use sekas.Tests.MemDb.{mem_db}
use sekas.Tests.Fixtures.{engine, group}

abbrev add_voter : ChangeReplica
add_voter = record { change_type = ChangeReplicaType.add; replica_id = 11; node_id = 2 }

abbrev demote : ChangeReplica
demote = record { change_type = ChangeReplicaType.remove; replica_id = 10; node_id = 1 }

abbrev promoted : List ReplicaDesc
promoted =
    record { id = 10; node_id = 1; role = ReplicaRole.voter }
    ∷ record { id = 11; node_id = 2; role = ReplicaRole.voter }
    ∷ []

abbrev entered : List ReplicaDesc
entered =
    record { id = 10; node_id = 1; role = ReplicaRole.demoting_voter }
    ∷ record { id = 11; node_id = 2; role = ReplicaRole.incoming_voter }
    ∷ []

add_voter_run : apply_simple_change group.replicas add_voter ≡ ok promoted
unfolding apply_simple_change
add_voter_run = refl

apply_simple_change-role_of_example : role_of 11 promoted ≡ some ReplicaRole.voter
unfolding role_of
apply_simple_change-role_of_example =
    apply_simple_change-role_of group.replicas promoted add_voter 11 add_voter_run

enter_joint_run : apply_enter_joint group.replicas (add_voter ∷ demote ∷ []) ≡ ok entered
unfolding apply_enter_joint
enter_joint_run = refl

apply_enter_joint-role_of_example :
    (role_of 10 entered ≡ joint_roles 10 (add_voter ∷ demote ∷ []) (role_of 10 group.replicas))
    × (role_of 10 (apply_leave_joint entered)
        ≡ leave_role (joint_roles 10 (add_voter ∷ demote ∷ []) (role_of 10 group.replicas)))
apply_enter_joint-role_of_example =
    apply_enter_joint-role_of (add_voter ∷ demote ∷ []) group.replicas entered 10
      ((refl, tt), (tt, tt)) enter_joint_run

abbrev machine : GroupStateMachine mem_db
machine = record {
  group_engine = engine;
  plugged_write_batches = [];
  plugged_write_states = default_states;
  desc_updated = false;
  move_shard_state_changed = false;
  last_applied_term = 2;
  observed = [];
}

abbrev entry_id : EntryId
entry_id = record { index = 8; term = 2 }

abbrev machine_after : GroupStateMachine mem_db
machine_after = record {
  group_engine = engine;
  plugged_write_batches = [];
  plugged_write_states = record {
    apply_state = some entry_id;
    descriptor = some (record { id = 1; epoch = 5; shards = group.shards; replicas = promoted });
    move_shard_state = none;
  };
  desc_updated = true;
  move_shard_state_changed = false;
  last_applied_term = 2;
  observed = [];
}

config_change_run :
    apply entry_id (ApplyEntry.config_change (add_voter ∷ [])) machine ≡ ok machine_after
unfolding apply
config_change_run = refl

apply-epoch_example :
    ((current_descriptor machine).epoch ≤ (current_descriptor machine_after).epoch)
    × (machine_after.plugged_write_states.apply_state ≡ some entry_id)
unfolding current_descriptor
apply-epoch_example =
    apply-epoch entry_id (ApplyEntry.config_change (add_voter ∷ [])) machine machine_after
      (omega arith) (omega arith) (omega arith) config_change_run

abbrev nobody_gone : ℕ → Bool
nobody_gone w = false

-- Two requests for the latch, and the first holder waits for an intent.
abbrev latch_ops : List LatchOp
latch_ops = LatchOp.acquires 1 ∷ LatchOp.acquires 2 ∷ LatchOp.waits nobody_gone 3 ∷ []

abbrev waiting : LatchState
waiting = record {
  entry = some (record { hold = true; latch_waiters = []; intent_waiters = 3 ∷ [] });
  guards = 1;
}

abbrev released : LatchState
released = record {
  entry = some (record { hold = false; latch_waiters = []; intent_waiters = 3 ∷ [] });
  guards = 0;
}

latch_run : latch_steps latch_ops no_latch ≡ some waiting
unfolding latch_steps
latch_run = refl

latch_steps-one_guard_example : (waiting.guards ≤ 1) × IsExclusive waiting
latch_steps-one_guard_example = latch_steps-one_guard latch_ops waiting latch_run

release_run : latch_step (LatchOp.releases nobody_gone) waiting ≡ some released
unfolding latch_step
release_run = refl

not_signals : (gone : ℕ → Bool) → LatchOp.releases gone ≢ LatchOp.signals
not_signals gone h = cc

latch_step-intent_waiters_example :
    any (λ v. v == 3) (get_latch released.entry).intent_waiters ≡ true
unfolding get_latch
latch_step-intent_waiters_example =
    latch_step-intent_waiters (LatchOp.releases nobody_gone) waiting released
      (not_signals nobody_gone) release_run 3 refl
