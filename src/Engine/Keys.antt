-- ===== src/Engine/Keys.antt =====
-- The keys of the engine (src/server/src/engine/group.rs, `mod keys`): an MVCC key is the
-- collection id, the user key in groups of eight bytes with a tag behind each, and the
-- complemented version.
pub mod Order
pub mod Decode
use sekas.Prelude.{
  ℕ, zero, suc, ◌+◌, ◌-◌, ◌%◌, ◌/◌, Bool, true, false, not, ◌&&◌, List, [], ◌∷◌, ◌++◌, Bytes,
  length, is_empty, take, drop, replicate, get_or, be_bytes, le_bytes, from_be_bytes, not_u64,
  u64_max, if◌then◌else◌, ◌==◌, ltb, min,
}

-- `[0u8; n]` filled from the front by `cursor.read`.
unfoldable pub zero_padded : ℕ → Bytes → Bytes
zero_padded n bs = bs ++ replicate (n - length bs) 0

-- The tag of one group: its size, or nine if it is full and the cursor is not empty.
unfoldable pub group_tag : ℕ → Bytes → ℕ
group_tag size rest = b'0' + (if size == 8 && not (is_empty rest) then size + 1 else size)

-- `while !cursor.is_empty()` of `mvcc_key`, on fuel: each round reads at least one byte.
unfoldable pub encode_groups : ℕ → Bytes → Bytes
unfolding zero_padded group_tag
encode_groups zero cursor = []
encode_groups (suc fuel) [] = []
encode_groups (suc fuel) (b ∷ bs) =
    let group = take 8 (b ∷ bs) in
    let rest = drop 8 (b ∷ bs) in
    zero_padded 8 group ++ (group_tag (length group) rest ∷ encode_groups fuel rest)

-- The key is not empty: for an empty one the source's `key.len() - 1` underflows, which its debug
-- assertion excludes; here the key has no group then.
unfoldable pub mvcc_key : ℕ → Bytes → ℕ → Bytes
mvcc_key collection_id key version =
    le_bytes 8 collection_id ++ (encode_groups (length key) key ++ be_bytes 8 (not_u64 version))

unfoldable pub raw : ℕ → Bytes → Bytes
raw collection_id key =
    if is_empty key then le_bytes 8 collection_id else mvcc_key collection_id key u64_max

-- `(group[8] - b'0') as usize`; the subtraction on `u8` wraps in a release build.
unfoldable pub num_element : Bytes → ℕ
num_element group = min ((get_or group 8 0 + 256 - b'0') % 256) 8

-- `while !cursor.is_empty()` of `revert_mvcc_key`, on fuel: a round reads nine bytes or the rest.
unfoldable pub decode_groups : ℕ → Bytes → Bytes
unfolding zero_padded num_element
decode_groups zero cursor = []
decode_groups (suc fuel) [] = []
decode_groups (suc fuel) (b ∷ bs) =
    let group = zero_padded 9 (take 9 (b ∷ bs)) in
    take (num_element group) group ++ decode_groups fuel (drop 9 (b ∷ bs))

-- `&key[L..(len - L)]`.
unfoldable pub encoded_user_key : Bytes → Bytes
encoded_user_key key = take (length key - 8 - 8) (drop 8 key)

unfoldable pub revert_mvcc_key : Bytes → Bytes
unfolding encoded_user_key
revert_mvcc_key key = decode_groups (length key) (encoded_user_key key)

-- `MvccEntry::version`.
unfoldable pub version_of : Bytes → ℕ
version_of key = not_u64 (from_be_bytes (drop (length key - 8) key))

-- `&key[..size_of::<u64>()]` of `SnapshotCore::next_entry`, where the stored keys have eight bytes at
-- least: the slice of a shorter one panics.
unfoldable pub collection_prefix : Bytes → Bytes
collection_prefix key = take 8 key
