-- ===== src/Eval/Scan/Sizes.antt =====
-- The bytes of a response: of its keys and of the contents of its values.
use sekas.Prelude.{
  ℕ, zero, suc, ◌+◌, ◌≡◌, inl, inr, Bool-cases, Option-cases, Option, none, some, List, [], ◌∷◌,
  ◌++◌, Bytes, length, if◌then◌else◌, arith,
}
use sekas.Api.{Value, ValueSet, TxnIntent, ok, bind_ok}
use sekas.Engine.Prost.{Codec}
use sekas.Engine.Snapshot.{Snapshot, next_entry}
use sekas.Eval.Get.{Resolve}
use sekas.Eval.Scan.{
  ShardScanRequest, is_exclude_boundary, Visit, skipped, seen, push_value, value_set_of, visit,
  scan_value_set,
}

abbrev content_bytes : Option Bytes → ℕ
content_bytes none = 0
content_bytes (some c) = length c

abbrev values_bytes : List Value → ℕ
values_bytes [] = 0
values_bytes (v ∷ vs) = content_bytes v.content + values_bytes vs

abbrev pub set_bytes : ValueSet → ℕ
set_bytes v = values_bytes v.values + length v.user_key

abbrev pub bytes_of : List ValueSet → ℕ
bytes_of [] = 0
bytes_of (v ∷ vs) = set_bytes v + bytes_of vs

values_bytes-append :
    (vs : List Value) (v : Value)
    → values_bytes (vs ++ v ∷ []) ≡ values_bytes vs + content_bytes v.content
values_bytes-append [] v = omega arith
values_bytes-append (u ∷ vs) v = omega (arith, values_bytes-append vs v)

pub bytes_of-append :
    (vs : List ValueSet) (v : ValueSet) → bytes_of (vs ++ v ∷ []) ≡ bytes_of vs + set_bytes v
bytes_of-append [] v = omega arith
bytes_of-append (u ∷ vs) v = omega (arith, bytes_of-append vs v)

module _ (I : Codec TxnIntent) (resolve : Resolve) (req : ShardScanRequest) where
  push_value-bytes :
      (value : Option Bytes) (version : ℕ) (found : List Value × ℕ)
      → found.1 ≡ values_bytes found.0
      → (push_value req value version found).1 ≡ values_bytes (push_value req value version found).0
  unfolding push_value
  push_value-bytes (some content) version (values, total) h =
      omega
        (arith, h, values_bytes-append values record { content = some content; version = version })
  push_value-bytes none version (values, total) h = elim (Bool-cases req.include_raw_data) [
    | inl raw ↦
        rw raw (
          omega (arith, h, values_bytes-append values record { content = none; version = version }))
    | inr cooked ↦ rw cooked h
  ]

  value_set_of-bytes :
      (user_key : Bytes) (found : List Value × ℕ) (v : ValueSet × ℕ)
      → found.1 ≡ values_bytes found.0
      → value_set_of user_key found ≡ some v
      → v.1 ≡ set_bytes v.0
  unfolding value_set_of
  value_set_of-bytes user_key found v h e = ground (arith, e, h)

  visited-bytes :
      (fuel : ℕ) (user_key : Bytes) (found : List Value × ℕ) (s s' : Snapshot) (v : ValueSet × ℕ)
      (visited : Visit)
      → found.1 ≡ values_bytes found.0
      → ((found' : List Value × ℕ)
          → found'.1 ≡ values_bytes found'.0
          → scan_value_set I resolve fuel req user_key found' s ≡ ok (s', some v)
          → v.1 ≡ set_bytes v.0)
      → elim visited [
        | skipped ↦ scan_value_set I resolve fuel req user_key found s
        | seen value version ↦
            if req.include_raw_data
            then scan_value_set I resolve fuel req user_key (push_value req value version found) s
            else ok (s, value_set_of user_key (push_value req value version found))
      ]
        ≡ ok (s', some v)
      → v.1 ≡ set_bytes v.0
  visited-bytes fuel user_key found s s' v skipped h next e = next found h e
  visited-bytes fuel user_key found s s' v (seen value version) h next e =
      let more = push_value-bytes value version found h in
      elim (Bool-cases req.include_raw_data) [
        | inl raw ↦ next (push_value req value version found) more (ground (arith, raw, e))
        | inr cooked ↦
            value_set_of-bytes user_key (push_value req value version found) v more
              (ground (arith, cooked, e))
      ]

  -- The bytes that a scan of one key counts.
  pub scan_value_set-bytes :
      (fuel : ℕ) (user_key : Bytes) (found : List Value × ℕ) (s s' : Snapshot) (v : ValueSet × ℕ)
      → found.1 ≡ values_bytes found.0
      → scan_value_set I resolve fuel req user_key found s ≡ ok (s', some v)
      → v.1 ≡ set_bytes v.0
  unfolding scan_value_set
  scan_value_set-bytes zero user_key found s s' v h e =
      value_set_of-bytes user_key found v h (ground (arith, e))
  scan_value_set-bytes (suc fuel) user_key found s s' v h e = elim (Option-cases (next_entry s).1) [
    | inl done ↦ value_set_of-bytes user_key found v h (ground (arith, done, e))
    | inr (entry, here) ↦ elim (Bool-cases (is_exclude_boundary req entry.user_key)) [
      | inl excluded ↦ absurd (ground (arith, here, excluded, e))
      | inr inside ↦
          let (visited, was, e1) =
            bind_ok (visit I resolve req entry) _ (s', some v)
              (rw (scan_value_set, here, inside) at e) in
          visited-bytes fuel user_key found (next_entry s).0 s' v visited h
            (λ found'. scan_value_set-bytes fuel user_key found' (next_entry s).0 s' v) e1
    ]
  ]
