-- ===== src/Engine/Group.antt =====
-- The group engine: the metadata of a group beside its data (src/server/src/engine/group.rs,
-- `GroupEngine`, `WriteStates`, `mod internal`). Debug assertions are not executed.
use sekas.Prelude.{
  Bool, true, false, ◌||◌, Option, none, some, List, [], ◌∷◌, ◌++◌, Bytes, Map, map_insert,
  map_or_insert, is_some, if◌then◌else◌, le_bytes,
}
use sekas.Api.{
  GroupDesc, ShardDesc, MoveShardState, MoveShardStep, EntryId, invalid_data, Result, ok, ◌>>=◌,
  ok_or, expect, get_shard_desc,
}
use sekas.Engine.RawDb.{RawDb, WriteBatch, put, delete}
use sekas.Engine.Prost.{Prost}

pub record WriteStates : Type 0 where
  pub apply_state : Option EntryId
  pub descriptor : Option GroupDesc
  pub move_shard_state : Option MoveShardState

pub record GroupEngineCore : Type 0 where
  pub group_desc : GroupDesc
  pub shard_descs : Map ShardDesc
  pub move_shard_state : Option MoveShardState

pub record GroupEngine (R : RawDb) : Type 0 where
  pub db : R.Db
  pub core : GroupEngineCore

-- "APPLY_STATE", "DESCRIPTOR" and "MIGRATE_STATE" under the local collection, 0.
abbrev pub apply_state_key : Bytes
unfolding le_bytes
apply_state_key =
    le_bytes 8 0 ++ b'A' ∷ b'P' ∷ b'P' ∷ b'L' ∷ b'Y' ∷ b'_' ∷ b'S' ∷ b'T' ∷ b'A' ∷ b'T' ∷ b'E' ∷ []

abbrev pub descriptor_key : Bytes
unfolding le_bytes
descriptor_key =
    le_bytes 8 0 ++ b'D' ∷ b'E' ∷ b'S' ∷ b'C' ∷ b'R' ∷ b'I' ∷ b'P' ∷ b'T' ∷ b'O' ∷ b'R' ∷ []

abbrev pub move_shard_state_key : Bytes
unfolding le_bytes
move_shard_state_key =
    le_bytes 8 0
    ++ b'M' ∷ b'I' ∷ b'G' ∷ b'R' ∷ b'A' ∷ b'T' ∷ b'E' ∷ b'_' ∷ b'S' ∷ b'T' ∷ b'A' ∷ b'T' ∷ b'E' ∷ []

-- A finished or aborted move leaves no state behind.
unfoldable pub is_over : MoveShardState → Bool
is_over s = elim s.step [ MoveShardStep.finished ↦ true | MoveShardStep.aborted ↦ true | _ ↦ false ]

-- `internal::shard_descs`: a later shard replaces an earlier one of its id.
insert_shards : List ShardDesc → Map ShardDesc → Map ShardDesc
insert_shards [] m = m
insert_shards (s ∷ shards) m = insert_shards shards (map_insert s.id s m)

unfoldable pub shard_descs : GroupDesc → Map ShardDesc
unfolding insert_shards
shard_descs desc = insert_shards desc.shards []

-- The shard that moves in is served too; a state without its descriptor panics.
unfoldable pub with_moving_shard : Option MoveShardState → Map ShardDesc → Result (Map ShardDesc)
with_moving_shard none m = ok m
with_moving_shard (some s) m = do desc ← get_shard_desc s; ok (map_or_insert desc.id desc m)

next_desc : Option GroupDesc → GroupDesc → GroupDesc
next_desc none old = old
next_desc (some d) old = d

next_moving : Option MoveShardState → Option MoveShardState → Option MoveShardState
next_moving none old = old
next_moving (some s) old = if is_over s then none else some s

unfoldable pub apply_core_states :
    Option GroupDesc → Option MoveShardState → GroupEngineCore → Result GroupEngineCore
unfolding is_over shard_descs with_moving_shard next_desc next_moving
apply_core_states descriptor state core = do
  let desc = next_desc descriptor core.group_desc
  let moving = next_moving state core.move_shard_state
  descs ← with_moving_shard moving (shard_descs desc)
  ok (record { group_desc = desc; shard_descs = descs; move_shard_state = moving })

module _ (P : Prost) where
  write_apply_state : Option EntryId → WriteBatch
  write_apply_state none = []
  write_apply_state (some a) = put apply_state_key (P.apply_state.encode_to_vec a) ∷ []

  write_descriptor : Option GroupDesc → WriteBatch
  write_descriptor none = []
  write_descriptor (some d) = put descriptor_key (P.group_desc.encode_to_vec d) ∷ []

  write_move_shard_state : Option MoveShardState → WriteBatch
  write_move_shard_state none = []
  write_move_shard_state (some s) =
      if is_over s
      then delete move_shard_state_key ∷ []
      else put move_shard_state_key (P.move_shard_state.encode_to_vec s) ∷ []

  -- `WriteStates::write`.
  unfoldable pub write_states : WriteStates → WriteBatch
  unfolding write_apply_state write_descriptor write_move_shard_state
  write_states s =
      write_apply_state s.apply_state
      ++ (write_descriptor s.descriptor ++ write_move_shard_state s.move_shard_state)

flatten_batches : List WriteBatch → WriteBatch
flatten_batches [] = []
flatten_batches (b ∷ bs) = b ++ flatten_batches bs

module _ (R : RawDb) (P : Prost) where
  unfoldable pub group_commit :
      List WriteBatch → WriteStates → GroupEngine R → Result (GroupEngine R)
  unfolding write_states apply_core_states flatten_batches
  group_commit wbs states e = do
    let db' = R.write e.db (flatten_batches wbs ++ write_states P states)
    core ←
        if is_some states.descriptor || is_some states.move_shard_state
        then apply_core_states states.descriptor states.move_shard_state e.core
        else ok e.core
    ok (record { db = db'; core = core })

  unfoldable pub commit : WriteBatch → WriteStates → GroupEngine R → Result (GroupEngine R)
  unfolding group_commit
  commit wb states e = group_commit (wb ∷ []) states e

  -- `internal::descriptor`, `internal::move_shard_state` and `internal::flushed_apply_state`.
  unfoldable pub read_descriptor : R.Db → Result GroupDesc
  read_descriptor db = do
    value ← expect (R.get db descriptor_key)
    ok_or (P.group_desc.decode value) invalid_data

  unfoldable pub read_move_shard_state : R.Db → Result (Option MoveShardState)
  read_move_shard_state db = elim (R.get db move_shard_state_key) [
    | none ↦ ok none
    | some v ↦ do s ← ok_or (P.move_shard_state.decode v) invalid_data; ok (some s)
  ]

  -- It reads the tier that is persisted: `db` is the state of the database that a restart finds.
  unfoldable pub flushed_apply_state : R.Db → Result EntryId
  flushed_apply_state db = do
    value ← expect (R.get db apply_state_key)
    ok_or (P.apply_state.decode value) invalid_data

  -- `GroupEngine::open` on a column family that exists.
  unfoldable pub open_engine : R.Db → Result (GroupEngine R)
  unfolding read_descriptor read_move_shard_state with_moving_shard shard_descs
  open_engine db = do
    desc ← read_descriptor db
    state ← read_move_shard_state db
    descs ← with_moving_shard state (shard_descs desc)
    ok (record {
      db = db;
      core = record { group_desc = desc; shard_descs = descs; move_shard_state = state };
    })

  -- `GroupEngine::ingest`, with the data that the ingested files hold.
  unfoldable pub ingest : R.Db → GroupEngine R → Result (GroupEngine R)
  unfolding read_descriptor read_move_shard_state apply_core_states
  ingest files e = do
    desc ← read_descriptor files
    state ← read_move_shard_state files
    core ← apply_core_states (some desc) state e.core
    ok (record { db = files; core = core })
