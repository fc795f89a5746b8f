-- ===== src/Tests/Logs.antt =====
-- A run of the applier.
use sekas.Prelude.{
  ◌≡◌, ◌<◌, ◌+◌, refl, Option, none, List, [], ◌∷◌, Bytes, arith, All, false, length, bytes_eq,
}
use sekas.Api.{ok}
use sekas.Engine.Prost.{Codec, Prost}
use sekas.Fsm.Machine.{GroupStateMachine, default_states, apply, start_plug, finish_plug}
use sekas.Raft.Applier.{Applier, Answer, Entry, EntryData, apply_entries}
use sekas.Raft.Applier.Reads.{IsServed}
use sekas.Raft.Applier.Progress.{AreConsecutive, apply_entries-reach}
use sekas.Engine.RawDb.{put}
use sekas.Engine.Group.{apply_state_key}
use sekas.Tests.MemDb.{mem_db, empty_db}
use sekas.Tests.Fixtures.{fresh_engine, intent_codec}

abbrev no_codec : {A : Type 0} → Codec A
no_codec = record { encode_to_vec = λ a. []; decode = λ b. none }

abbrev prost : Prost
prost = record {
  txn_intent = intent_codec;
  apply_state = no_codec;
  group_desc = no_codec;
  move_shard_state = no_codec;
}

abbrev idle : GroupStateMachine mem_db
idle = record {
  group_engine = fresh_engine;
  plugged_write_batches = [];
  plugged_write_states = default_states;
  desc_updated = false;
  move_shard_state_changed = false;
  last_applied_term = 2;
  observed = [];
}

-- A proposal waits for entry 8, one read for it and one for entry 9.
abbrev before : Applier mem_db
before = record {
  group_id = 1;
  proposal_queue = record { index = 8; term = 2; sender = 1 } ∷ [];
  next_read_state_index = 2;
  read_requests = (0 ∷ [], 2 ∷ []) ∷ (1 ∷ [], 3 ∷ []) ∷ [];
  read_states =
      record { index = 8; request_ctx = 0 ∷ [] } ∷ record { index = 9; request_ctx = 1 ∷ [] } ∷ [];
  last_applied_index = 7;
  state_machine = idle;
}

abbrev no_decode : {A : Type 0} → Bytes → Option A
no_decode bytes = none

abbrev entries : List Entry
entries = record { id = record { index = 8; term = 2 }; payload = EntryData.normal [] } ∷ []

abbrev ends : Applier mem_db
ends = record before {
  proposal_queue = [];
  read_requests = (1 ∷ [], 3 ∷ []) ∷ [];
  read_states = record { index = 9; request_ctx = 1 ∷ [] } ∷ [];
  last_applied_index = 8;
  state_machine = record idle {
    group_engine = record fresh_engine { db = mem_db.write empty_db (put apply_state_key [] ∷ []) };
  };
}

abbrev answers : List Answer
answers = record { to = 1; outcome = ok tt } ∷ record { to = 2; outcome = ok tt } ∷ []

apply_run : apply_entries prost no_decode no_decode entries before ≡ ok (ends, answers)
unfolding apply_entries start_plug apply finish_plug bytes_eq
apply_run = refl

apply_entries-reach_example :
    AreConsecutive 7 entries
    × (ends.last_applied_index ≡ 7 + length entries)
    × All (λ rs. ends.last_applied_index < rs.index) ends.read_states
    × All
        (IsServed ends.last_applied_index before.read_requests (ends.read_requests, answers))
        before.read_states
apply_entries-reach_example =
    apply_entries-reach prost no_decode no_decode entries before ends answers (omega arith)
      (omega arith) apply_run
