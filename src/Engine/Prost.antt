-- ===== src/Engine/Prost.antt =====
-- The encoding of messages by the `prost` library, which is not part of the repository. What relies
-- on the round trip of a message has it as a hypothesis.
use sekas.Prelude.{◌≡◌, Option, some, Bytes}
use sekas.Api.{TxnIntent, EntryId, GroupDesc, MoveShardState}

pub record Codec (A : Type 0) : Type 0 where
  pub encode_to_vec : A → Bytes
  pub decode : Bytes → Option A

-- A message decodes to itself.
abbrev pub RoundTrips : {A : Type 0} → Codec A → Type 0
RoundTrips {A} C = (a : A) → C.decode (C.encode_to_vec a) ≡ some a

pub record Prost : Type 0 where
  pub txn_intent : Codec TxnIntent
  pub apply_state : Codec EntryId
  pub group_desc : Codec GroupDesc
  pub move_shard_state : Codec MoveShardState
