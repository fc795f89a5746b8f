-- ===== src/Schema.antt =====
-- The key ranges of shards (src/schema/src/shard.rs) and the keys of the transaction table
-- (src/schema/src/system/keys.rs, src/schema/src/system/txn.rs).
use sekas.Prelude.{
  ℕ, Bool, false, not, ◌&&◌, ◌||◌, none, some, [], ◌∷◌, ◌++◌, Bytes, is_empty, bytes_lt, be_bytes,
  u64_max,
}
use sekas.Api.{ShardDesc}

-- `start <= key && (key < end || end.is_empty())`.
unfoldable pub in_range : Bytes → Bytes → Bytes → Bool
in_range start stop key = not (bytes_lt key start) && (bytes_lt key stop || is_empty stop)

unfoldable pub belong_to : ShardDesc → Bytes → Bool
unfolding in_range
belong_to shard key = elim shard.range [ none ↦ false | some r ↦ in_range r.start r.stop key ]

unfoldable pub start_key : ShardDesc → Bytes
start_key shard = elim shard.range [ none ↦ [] | some r ↦ r.start ]

unfoldable pub end_key : ShardDesc → Bytes
end_key shard = elim shard.range [ none ↦ [] | some r ↦ r.stop ]

-- The version of a write intent, and the largest version of a transaction.
abbrev pub txn_intent_version : ℕ
txn_intent_version = u64_max

abbrev pub txn_max_version : ℕ
txn_max_version = 18446744073709551614

-- The bytes of "txn_", "state", "hb" and "commit".
abbrev txn_prefix_bytes : Bytes
txn_prefix_bytes = b't' ∷ b'x' ∷ b'n' ∷ b'_' ∷ []

abbrev suffix_state : Bytes
suffix_state = b's' ∷ b't' ∷ b'a' ∷ b't' ∷ b'e' ∷ []

abbrev suffix_heartbeat : Bytes
suffix_heartbeat = b'h' ∷ b'b' ∷ []

abbrev suffix_commit : Bytes
suffix_commit = b'c' ∷ b'o' ∷ b'm' ∷ b'm' ∷ b'i' ∷ b't' ∷ []

unfoldable pub txn_lower_key : ℕ → Bytes
txn_lower_key hash_tag = txn_prefix_bytes ++ hash_tag ∷ []

unfoldable pub txn_prefix : ℕ → ℕ → Bytes
unfolding txn_lower_key
txn_prefix hash_tag txn_id = txn_lower_key hash_tag ++ be_bytes 8 txn_id

unfoldable pub txn_state_key : ℕ → ℕ → Bytes
unfolding txn_prefix
txn_state_key hash_tag txn_id = txn_prefix hash_tag txn_id ++ suffix_state

unfoldable pub txn_heartbeat_key : ℕ → ℕ → Bytes
unfolding txn_prefix
txn_heartbeat_key hash_tag txn_id = txn_prefix hash_tag txn_id ++ suffix_heartbeat

unfoldable pub txn_commit_key : ℕ → ℕ → Bytes
unfolding txn_prefix
txn_commit_key hash_tag txn_id = txn_prefix hash_tag txn_id ++ suffix_commit
