-- ===== src/Engine/Keys/Order.antt =====
-- The encoding of user keys keeps their order, whatever follows it (`mvcc_key`).
use sekas.Prelude.{
  ℕ, zero, suc, ◌+◌, ◌-◌, ◌≤◌, ◌<◌, ◌≡◌, refl, ap, sym, ◌∙◌, true, false, [], ◌∷◌, ◌++◌,
  append_assoc, Bytes, length, is_empty, take, drop, replicate, be_bytes, le_bytes, not_u64,
  u64_max, if◌then◌else◌, arith, bytes_lt, bytes_lt-append_left, bytes_lt-be_bytes, length-take-le,
}
use sekas.Engine.Keys.{group_tag, encode_groups, mvcc_key}

-- The encoding byte by byte: `room` is what is left of the current group of eight.
pub bytewise : ℕ → Bytes → Bytes
bytewise zero [] = b'8' ∷ []
bytewise zero (x ∷ xs) = b'9' ∷ x ∷ bytewise 7 xs
bytewise (suc room) [] = replicate (suc room) 0 ++ (b'8' - suc room) ∷ []
bytewise (suc room) (x ∷ xs) = x ∷ bytewise room xs

-- What `encode_groups` does from the middle of a group.
from_group : ℕ → ℕ → Bytes → Bytes
from_group fuel room key =
    take room key
    ++ (replicate (room - length (take room key)) 0
        ++ (b'0' + (if is_empty (drop room key) then 8 - (room - length (take room key)) else 9))
          ∷ encode_groups fuel (drop room key))

pub encode_groups-nil : (fuel : ℕ) → encode_groups fuel [] ≡ []
unfolding encode_groups
encode_groups-nil zero = refl
encode_groups-nil (suc fuel) = refl

-- A group is full if bytes are left behind it.
pub length-take_full : (n : ℕ) (xs : Bytes) → is_empty (drop n xs) ≡ false → length (take n xs) ≡ n
length-take_full zero xs h = refl
length-take_full (suc n) [] h = cc
length-take_full (suc n) (x ∷ xs) h = ap suc (length-take_full n xs h)

-- The tag that one round writes.
tag_lem :
    (key : Bytes)
    → group_tag (length (take 8 key)) (drop 8 key)
      ≡ b'0' + (if is_empty (drop 8 key) then 8 - (8 - length (take 8 key)) else 9)
unfolding group_tag
tag_lem key = ground (arith, length-take_full 8 key, length-take-le 8 key)

encode_groups-from_group :
    (fuel x : ℕ) (xs : Bytes) → encode_groups (suc fuel) (x ∷ xs) ≡ from_group fuel 8 (x ∷ xs)
unfolding encode_groups from_group
encode_groups-from_group fuel x xs =
    rw (tag_lem (x ∷ xs))
      (append_assoc (take 8 (x ∷ xs)) (replicate (8 - length (take 8 (x ∷ xs))) 0) _)

bytewise-from_group :
    (fuel room : ℕ) (key : Bytes)
    → room ≤ 8
    → length key ≤ fuel + room
    → bytewise room key ≡ from_group fuel room key
unfolding bytewise from_group
bytewise-from_group fuel zero [] h l = rw encode_groups-nil
bytewise-from_group zero zero (x ∷ xs) h l = absurd (omega arith)
bytewise-from_group (suc fuel) zero (x ∷ xs) h l =
    rw (encode_groups-from_group fuel x xs)
      (ground (arith, bytewise-from_group fuel 7 xs (omega arith) (omega arith)))
bytewise-from_group fuel (suc room) [] h l = rw encode_groups-nil (ground arith)
bytewise-from_group fuel (suc room) (x ∷ xs) h l =
    ground (arith, bytewise-from_group fuel room xs (omega arith) (omega arith))

pub encode_groups-bytewise :
    (x : ℕ) (xs : Bytes) → encode_groups (length (x ∷ xs)) (x ∷ xs) ≡ bytewise 8 (x ∷ xs)
unfolding bytewise
encode_groups-bytewise x xs =
    encode_groups-from_group (length xs) x xs
    ∙ sym (bytewise-from_group (length xs) 8 (x ∷ xs) (omega arith) (omega arith))

padding_tags :
    (n c d : ℕ) (s t : Bytes)
    → c < d
    → bytes_lt (replicate n 0 ++ c ∷ s) (replicate n 0 ++ d ∷ t) ≡ true
unfolding bytes_lt
padding_tags zero c d s t h = ground arith
padding_tags (suc n) c d s t h = ground (arith, padding_tags n c d s t h)

-- A key that ends in the current group is below one that goes on.
padding_below :
    (room c : ℕ) (xs s t : Bytes)
    → c + room < b'8'
    → bytes_lt (replicate room 0 ++ c ∷ s) (bytewise room xs ++ t) ≡ true
unfolding bytewise bytes_lt
padding_below zero c [] s t h = ground arith
padding_below zero c (x ∷ xs) s t h = ground arith
padding_below (suc room) c [] s t h =
    rw (append_assoc (replicate room 0) ((b'8' - suc room) ∷ []) t)
      (ground (arith, padding_tags room c (b'8' - suc room) s t (omega arith)))
padding_below (suc room) c (x ∷ xs) s t h = ground (arith, padding_below room c xs s t)

bytewise-lt :
    (room : ℕ) (xs ys s t : Bytes)
    → room ≤ 8
    → bytes_lt xs ys ≡ true
    → bytes_lt (bytewise room xs ++ s) (bytewise room ys ++ t) ≡ true
unfolding bytewise bytes_lt
bytewise-lt room [] [] s t r h = cc
bytewise-lt room (x ∷ xs) [] s t r h = cc
bytewise-lt zero [] (y ∷ ys) s t r h = refl
bytewise-lt (suc room) [] (y ∷ ys) s t r h =
    rw (append_assoc (replicate room 0) ((b'8' - suc room) ∷ []) s)
      (ground (arith, padding_below room (b'8' - suc room) ys s t (omega arith)))
bytewise-lt zero (x ∷ xs) (y ∷ ys) s t r h = ground (arith, bytewise-lt 7 xs ys s t)
bytewise-lt (suc room) (x ∷ xs) (y ∷ ys) s t r h = ground (arith, bytewise-lt room xs ys s t)

-- Keys of one collection are ordered as the user keys, whatever the versions are.
pub mvcc_key-lt_key :
    (c x y : ℕ) (xs ys : Bytes) (v w : ℕ)
    → bytes_lt (x ∷ xs) (y ∷ ys) ≡ true
    → bytes_lt (mvcc_key c (x ∷ xs) v) (mvcc_key c (y ∷ ys) w) ≡ true
unfolding mvcc_key
mvcc_key-lt_key c x y xs ys v w h = rw (bytes_lt-append_left (le_bytes 8 c)) (
    rw (encode_groups-bytewise x xs, encode_groups-bytewise y ys)
      (bytewise-lt 8 (x ∷ xs) (y ∷ ys) (be_bytes 8 (not_u64 v)) (be_bytes 8 (not_u64 w))
        (omega arith) h))

-- The versions of one key are ordered from the newest to the oldest.
pub mvcc_key-lt_version :
    (c : ℕ) (key : Bytes) (v w : ℕ)
    → v < w
    → w ≤ u64_max
    → bytes_lt (mvcc_key c key w) (mvcc_key c key v) ≡ true
unfolding mvcc_key not_u64
mvcc_key-lt_version c key v w h b =
    rw (bytes_lt-append_left (le_bytes 8 c), bytes_lt-append_left (encode_groups (length key) key))
      (bytes_lt-be_bytes 8 (u64_max - w) (u64_max - v) (omega arith) (omega arith))
