-- ===== src/Engine/Keys/Decode.antt =====
-- An MVCC key gives its three parts back (`revert_mvcc_key`, `MvccEntry::version` and the prefix
-- test of `next_entry`, on a key that `mvcc_key` built).
use sekas.Prelude.{
  ℕ, zero, suc, ◌+◌, ◌-◌, ◌≤◌, ◌<◌, ◌≡◌, refl, sym, [], ◌∷◌, ◌++◌, append_assoc, append-nil, Bytes,
  length, take, drop, replicate, be_bytes, le_bytes, not_u64, u64_max, arith, length-append,
  length-take-le, take_of_length, drop_of_length, get_or_of_length, take-append-drop,
  length-replicate, length-drop, length-be_bytes, length-le_bytes, from_be_bytes-be_bytes,
}
use sekas.Engine.Keys.{
  zero_padded, group_tag, encode_groups, mvcc_key, num_element, decode_groups, encoded_user_key,
  revert_mvcc_key, version_of, collection_prefix,
}
use sekas.Engine.Keys.Order.{encode_groups-nil}

length-zero_padded : (n : ℕ) (bs : Bytes) → length bs ≤ n → length (zero_padded n bs) ≡ n
unfolding zero_padded
length-zero_padded n bs h =
    omega
      (arith, length-append bs (replicate (n - length bs) 0), length-replicate (n - length bs) zero)

-- The nine bytes that one round of the encoder writes.
block : Bytes → Bytes
block key = zero_padded 8 (take 8 key) ++ group_tag (length (take 8 key)) (drop 8 key) ∷ []

length-block : (key : Bytes) → length (block key) ≡ 9
unfolding block
length-block key = omega (
  arith,
  length-append (zero_padded 8 (take 8 key)) (group_tag (length (take 8 key)) (drop 8 key) ∷ []),
  length-zero_padded 8 (take 8 key) (length-take-le 8 key),
)

encode-block :
    (fuel x : ℕ) (xs : Bytes)
    → encode_groups (suc fuel) (x ∷ xs) ≡ block (x ∷ xs) ++ encode_groups fuel (drop 8 (x ∷ xs))
unfolding encode_groups zero_padded block
encode-block fuel x xs = sym (
    append_assoc (zero_padded 8 (take 8 (x ∷ xs)))
      (group_tag (length (take 8 (x ∷ xs))) (drop 8 (x ∷ xs)) ∷ []) _)

-- The tag is read back as the size of the group.
num_element-block : (key : Bytes) → num_element (block key) ≡ length (take 8 key)
unfolding num_element block group_tag
num_element-block key =
    rw
      (get_or_of_length 8 (zero_padded 8 (take 8 key))
        (group_tag (length (take 8 key)) (drop 8 key)) 0 []
        (length-zero_padded 8 (take 8 key) (length-take-le 8 key)))
      (ground (arith, length-take-le 8 key))

take-block : (key : Bytes) → take (length (take 8 key)) (block key) ≡ take 8 key
unfolding block zero_padded
take-block key = rw append_assoc (take_of_length (length (take 8 key)) (take 8 key) _ refl)

zero_padded-block : (key : Bytes) → zero_padded 9 (block key) ≡ block key
unfolding zero_padded
zero_padded-block key = rw (length-block key) (append-nil (block key))

decode_step :
    (gas : ℕ) (bs : Bytes)
    → 0 < length bs
    → decode_groups (suc gas) bs
      ≡ take (num_element (zero_padded 9 (take 9 bs))) (zero_padded 9 (take 9 bs))
        ++ decode_groups gas (drop 9 bs)
unfolding decode_groups
decode_step gas [] h = absurd (omega arith)
decode_step gas (b ∷ bs) h = refl

-- One round of the decoder on one round of the encoder.
decode-block :
    (gas : ℕ) (key rest : Bytes)
    → decode_groups (suc gas) (block key ++ rest) ≡ take 8 key ++ decode_groups gas rest
decode-block gas key rest =
    rw
      (decode_step gas (block key ++ rest)
        (omega (arith, length-append (block key) rest, length-block key)))
      (rw (
        take_of_length 9 (block key) rest (length-block key),
        drop_of_length 9 (block key) rest (length-block key),
        zero_padded-block key,
        num_element-block key,
        take-block key,
      ))

decode_groups-nil : (gas : ℕ) → decode_groups gas [] ≡ []
unfolding decode_groups
decode_groups-nil zero = refl
decode_groups-nil (suc gas) = refl

-- Decoding the groups of a key gives the key.
decode-encode :
    (fuel gas : ℕ) (key : Bytes)
    → length key ≤ fuel
    → length key ≤ gas
    → decode_groups gas (encode_groups fuel key) ≡ key
decode-encode zero gas [] h g = rw (encode_groups-nil zero) (decode_groups-nil gas)
decode-encode zero gas (x ∷ xs) h g = absurd (omega arith)
decode-encode (suc fuel) gas [] h g = rw (encode_groups-nil (suc fuel)) (decode_groups-nil gas)
decode-encode (suc fuel) zero (x ∷ xs) h g = absurd (omega arith)
decode-encode (suc fuel) (suc gas) (x ∷ xs) h g =
    rw
      (
        encode-block fuel x xs,
        decode-block gas (x ∷ xs) (encode_groups fuel (drop 8 (x ∷ xs))),
        decode-encode fuel gas (drop 8 (x ∷ xs)) (omega (arith, length-drop 7 xs))
            (omega (arith, length-drop 7 xs)),
      )
      (take-append-drop 8 (x ∷ xs))

length-encode :
    (fuel : ℕ) (key : Bytes) → length key ≤ fuel → length key ≤ length (encode_groups fuel key)
length-encode fuel [] h = omega arith
length-encode zero (x ∷ xs) h = absurd (omega arith)
length-encode (suc fuel) (x ∷ xs) h = rw (encode-block fuel x xs) (
    omega (
      arith,
      length-append (block (x ∷ xs)) (encode_groups fuel (drop 8 (x ∷ xs))),
      length-block (x ∷ xs),
      length-drop 7 xs,
      length-encode fuel (drop 7 xs) (omega (arith, length-drop 7 xs)),
    ))

length-mvcc_key :
    (c : ℕ) (key : Bytes) (v : ℕ)
    → length (mvcc_key c key v) ≡ 16 + length (encode_groups (length key) key)
unfolding mvcc_key
length-mvcc_key c key v = omega (
  arith,
  length-append (le_bytes 8 c) (encode_groups (length key) key ++ be_bytes 8 (not_u64 v)),
  length-append (encode_groups (length key) key) (be_bytes 8 (not_u64 v)),
  length-le_bytes 8 c,
  length-be_bytes 8 (not_u64 v),
)

encoded_user_key-mvcc_key :
    (c : ℕ) (key : Bytes) (v : ℕ)
    → encoded_user_key (mvcc_key c key v) ≡ encode_groups (length key) key
unfolding encoded_user_key mvcc_key
encoded_user_key-mvcc_key c key v = rw (drop_of_length 8 (le_bytes 8 c) _ (length-le_bytes 8 c)) (
    take_of_length _ (encode_groups (length key) key) (be_bytes 8 (not_u64 v))
      (omega (arith, length-mvcc_key c key v)))

-- The user key comes back.
pub revert_mvcc_key-mvcc_key :
    (c : ℕ) (key : Bytes) (v : ℕ) → revert_mvcc_key (mvcc_key c key v) ≡ key
unfolding revert_mvcc_key
revert_mvcc_key-mvcc_key c key v = rw (encoded_user_key-mvcc_key c key v) (
    decode-encode (length key) (length (mvcc_key c key v)) key (omega arith)
      (omega (arith, length-mvcc_key c key v, length-encode (length key) key (omega arith))))

last_eight :
    (xs : Bytes) (n : ℕ)
    → drop (length (xs ++ be_bytes 8 n) - 8) (xs ++ be_bytes 8 n) ≡ be_bytes 8 n
last_eight xs n =
    drop_of_length (length (xs ++ be_bytes 8 n) - 8) xs (be_bytes 8 n)
      (omega (arith, length-append xs (be_bytes 8 n), length-be_bytes 8 n))

-- The version comes back.
pub version_of-mvcc_key :
    (c : ℕ) (key : Bytes) (v : ℕ) → v ≤ u64_max → version_of (mvcc_key c key v) ≡ v
unfolding version_of mvcc_key not_u64
version_of-mvcc_key c key v h =
    rw (← append_assoc (le_bytes 8 c) (encode_groups (length key) key) (be_bytes 8 (u64_max - v))) (
      rw
        (
          last_eight (le_bytes 8 c ++ encode_groups (length key) key) (u64_max - v),
          from_be_bytes-be_bytes 8 (u64_max - v) (omega arith),
        )
        (omega arith))

-- The collection comes back.
pub collection_prefix-mvcc_key :
    (c : ℕ) (key : Bytes) (v : ℕ) → collection_prefix (mvcc_key c key v) ≡ le_bytes 8 c
unfolding collection_prefix mvcc_key
collection_prefix-mvcc_key c key v = take_of_length 8 (le_bytes 8 c) _ (length-le_bytes 8 c)
