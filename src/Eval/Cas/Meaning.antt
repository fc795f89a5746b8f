-- ===== src/Eval/Cas/Meaning.antt =====
-- What the conditions of a write ask of a value, and that `eval_condition` answers that.
use sekas.Prelude.{
  ℕ, zero, suc, ◌+◌, ◌-◌, ◌≤◌, ◌<◌, ◌≡◌, refl, sym, ap, ◌∙◌, Bool, true, false, ◌&&◌, Option, none,
  some, is_some, is_none, [], ◌∷◌, ◌++◌, Bytes, length, drop, take, length-append, take-append-drop,
  drop_of_length, bytes_eq, bytes_eq→eq, bytes_eq_refl, starts_with, ltb, if◌then◌else◌, arith,
  subst,
}
use sekas.Api.{
  Value, WriteCondition, WriteConditionType, expect_exists, expect_not_exists, expect_value,
  expect_version, expect_version_lt, expect_version_le, expect_version_gt, expect_version_ge,
  expect_starts_with, expect_ends_with, expect_slice, expect_contains, Result, ok, err, panicked,
  invalid_argument,
}
use sekas.Eval.Cas.{ends_with, content_test, eval_present, eval_absent, eval_condition}

abbrev pub HasContent : (Bytes → Type 0) → Option Bytes → Type 0
HasContent P none = ⊥
HasContent P (some c) = P c

abbrev pub HasValue : (Value → Type 0) → Option Value → Type 0
HasValue P none = ⊥
HasValue P (some v) = P v

-- A value with a content that has a property; a tombstone has none.
abbrev pub IsLive : (Bytes → Type 0) → Option Value → Type 0
IsLive P value = HasValue (λ v. HasContent P v.content) value

-- What a condition of a kind asks of the value of a key. A value of any content satisfies
-- `expect_contains`, also a tombstone.
abbrev pub Asks : WriteConditionType → WriteCondition → Option Value → Type 0
Asks (WriteConditionType.unrecognized n) cond value = ⊥
Asks expect_exists cond value = IsLive (λ c. Unit {0}) value
Asks expect_not_exists cond value = IsLive (λ c. Unit {0}) value → ⊥
Asks expect_value cond value = IsLive (λ c. c ≡ cond.value) value
Asks expect_version cond value = HasValue (λ v. v.version ≡ cond.version) value
Asks expect_version_lt cond value = HasValue (λ v. v.version < cond.version) value
Asks expect_version_le cond value = HasValue (λ v. v.version ≤ cond.version) value
Asks expect_version_gt cond value = HasValue (λ v. cond.version < v.version) value
Asks expect_version_ge cond value = HasValue (λ v. cond.version ≤ v.version) value
Asks expect_starts_with cond value = IsLive (λ c. (rest : Bytes) × (c ≡ cond.value ++ rest)) value
Asks expect_ends_with cond value = IsLive (λ c. (front : Bytes) × (c ≡ front ++ cond.value)) value
Asks expect_slice cond value =
    IsLive
      (λ c.
        (front : Bytes) × (rest : Bytes) × (c ≡ front ++ (cond.value ++ rest))
        × (length front ≡ cond.begin)
        × (cond.begin < length c))
      value
Asks expect_contains cond value = HasValue (λ v. Unit {0}) value

abbrev pub IsRecognized : WriteConditionType → Type 0
IsRecognized (WriteConditionType.unrecognized n) = ⊥
IsRecognized _ = Unit {0}

-- An answer to a condition says whether the value is as it asks, or that its kind is not known.
abbrev pub Answers : WriteConditionType → WriteCondition → Option Value → Result Bool → Type 0
Answers kind cond value (ok true) = Asks kind cond value
Answers kind cond value (ok false) = IsRecognized kind × (Asks kind cond value → ⊥)
Answers kind cond value (err e) = (IsRecognized kind → ⊥) × (e ≡ invalid_argument)
Answers kind cond value panicked = ⊥

starts_with→prefix : (xs ps : Bytes) → starts_with xs ps ≡ true → (rest : Bytes) × (xs ≡ ps ++ rest)
unfolding starts_with
starts_with→prefix xs [] h = (xs, refl)
starts_with→prefix [] (p ∷ ps) h = cc
starts_with→prefix (x ∷ xs) (p ∷ ps) h =
    let (rest, e) = starts_with→prefix xs ps (ground (arith, h)) in
    let first : x ≡ p = ground (arith, h) in (rest, cc (first, e))

starts_with-append : (ps rest : Bytes) → starts_with (ps ++ rest) ps ≡ true
unfolding starts_with
starts_with-append [] rest = refl
starts_with-append (p ∷ ps) rest = ground (arith, starts_with-append ps rest)

ends_with→suffix : (xs s : Bytes) → ends_with xs s ≡ true → (front : Bytes) × (xs ≡ front ++ s)
unfolding ends_with
ends_with→suffix xs s h =
    let n = length xs - length s in
    let same : drop n xs ≡ s = bytes_eq→eq (drop n xs) s (ground (arith, h)) in
    (take n xs, sym (take-append-drop n xs) ∙ ap (λ t. take n xs ++ t) same)

ends_with-append : (front s : Bytes) → ends_with (front ++ s) s ≡ true
unfolding ends_with
ends_with-append front s =
    let long : length (front ++ s) ≡ length front + length s = length-append front s in
    let rest : drop (length (front ++ s) - length s) (front ++ s) ≡ s =
      drop_of_length (length (front ++ s) - length s) front s (omega (arith, long)) in
    rw rest (ground (arith, long, bytes_eq_refl s))

length-take : (n : ℕ) (xs : Bytes) → n ≤ length xs → length (take n xs) ≡ n
length-take zero xs h = refl
length-take (suc n) [] h = absurd (omega (arith, h))
length-take (suc n) (x ∷ xs) h = ap suc (length-take n xs (omega (arith, h)))

-- A test of the content that is exact for a property.
content_test-Answers :
    (test : Bytes → Bool) (P : Bytes → Type 0) (content : Option Bytes)
    → ((c : Bytes) → test c ≡ true → P c)
    → ((c : Bytes) → P c → test c ≡ true)
    → (content_test test content ≡ true → HasContent P content)
      × (content_test test content ≡ false → HasContent P content → ⊥)
unfolding content_test
content_test-Answers test P none sound complete = (λ h. ground (arith, h), λ h p. p)
content_test-Answers test P (some c) sound complete =
    (sound c, λ h p. ground (arith, h, complete c p))

-- The answer of a test of the content.
live-Answers :
    (kind : WriteConditionType) (cond : WriteCondition) (v : Value) (test : Bytes → Bool)
    (P : Bytes → Type 0)
    → IsRecognized kind
    → Asks kind cond (some v) ≡ HasContent P v.content
    → ((c : Bytes) → test c ≡ true → P c)
    → ((c : Bytes) → P c → test c ≡ true)
    → Answers kind cond (some v) (ok (content_test test v.content))
live-Answers kind cond v test P known asks sound complete =
    answered (content_test test v.content) (content_test-Answers test P v.content sound complete)
  where
    answered :
        (b : Bool)
        → (b ≡ true → HasContent P v.content) × (b ≡ false → HasContent P v.content → ⊥)
        → Answers kind cond (some v) (ok b)
    answered true h = subst (λ T. T) (sym asks) (h.0 refl)
    answered false h = (known, λ a. h.1 refl (subst (λ T. T) asks a))

slice→parts :
    (cond : WriteCondition) (c : Bytes)
    → (ltb cond.begin (length c) && starts_with (drop cond.begin c) cond.value) ≡ true
    → (front : Bytes) × (rest : Bytes) × (c ≡ front ++ (cond.value ++ rest))
      × (length front ≡ cond.begin)
      × (cond.begin < length c)
slice→parts cond c h =
    let inside : cond.begin < length c = ground (arith, h) in
    let (rest, e) = starts_with→prefix (drop cond.begin c) cond.value (ground (arith, h)) in
    (
      take cond.begin c,
      rest,
      sym (take-append-drop cond.begin c) ∙ ap (λ t. take cond.begin c ++ t) e,
      length-take cond.begin c (omega (arith, inside)),
      inside,
    )

parts→slice :
    (cond : WriteCondition) (c : Bytes)
    → (front : Bytes) × (rest : Bytes) × (c ≡ front ++ (cond.value ++ rest))
      × (length front ≡ cond.begin)
      × (cond.begin < length c)
    → (ltb cond.begin (length c) && starts_with (drop cond.begin c) cond.value) ≡ true
parts→slice cond c (front, rest, e, at, inside) =
    let tail : drop cond.begin c ≡ cond.value ++ rest =
      ap (drop cond.begin) e ∙ drop_of_length cond.begin front (cond.value ++ rest) at in
    rw tail (ground (arith, inside, starts_with-append cond.value rest))

-- The answer on a key that has a value.
eval_present-Answers :
    (kind : WriteConditionType) (cond : WriteCondition) (v : Value)
    → Answers kind cond (some v) (eval_present kind cond v)
unfolding eval_present
eval_present-Answers (WriteConditionType.unrecognized n) cond v = (λ h. h, refl)
eval_present-Answers expect_exists cond v =
    elim v.content
      as (λ o.
        Answers expect_exists cond (some record { content = o; version = v.version })
          (ok (if is_none o then false else true))) [ none ↦ (tt, λ h. h) | some c ↦ tt ]
eval_present-Answers expect_not_exists cond v =
    elim v.content
      as (λ o.
        Answers expect_not_exists cond (some record { content = o; version = v.version })
          (ok (if is_some o then false else true))) [ none ↦ (λ h. h) | some c ↦ (tt, λ h. h tt) ]
eval_present-Answers expect_value cond v =
    live-Answers expect_value cond v (λ c. bytes_eq c cond.value) (λ c. c ≡ cond.value) tt refl
      (λ c h. bytes_eq→eq c cond.value h)
      (λ c e. ap (λ x. bytes_eq x cond.value) e ∙ bytes_eq_refl cond.value)
eval_present-Answers expect_version cond v = ground arith
eval_present-Answers expect_version_lt cond v = ground arith
eval_present-Answers expect_version_le cond v = ground arith
eval_present-Answers expect_version_gt cond v = ground arith
eval_present-Answers expect_version_ge cond v = ground arith
eval_present-Answers expect_starts_with cond v =
    live-Answers expect_starts_with cond v (λ c. starts_with c cond.value)
      (λ c. (rest : Bytes) × (c ≡ cond.value ++ rest)) tt refl
      (λ c h. starts_with→prefix c cond.value h)
      (λ c p. ap (λ x. starts_with x cond.value) p.1 ∙ starts_with-append cond.value p.0)
eval_present-Answers expect_ends_with cond v =
    live-Answers expect_ends_with cond v (λ c. ends_with c cond.value)
      (λ c. (front : Bytes) × (c ≡ front ++ cond.value)) tt refl
      (λ c h. ends_with→suffix c cond.value h)
      (λ c p. ap (λ x. ends_with x cond.value) p.1 ∙ ends_with-append p.0 cond.value)
eval_present-Answers expect_slice cond v =
    live-Answers expect_slice cond v
      (λ c. ltb cond.begin (length c) && starts_with (drop cond.begin c) cond.value)
      (λ c.
        (front : Bytes) × (rest : Bytes) × (c ≡ front ++ (cond.value ++ rest))
        × (length front ≡ cond.begin)
        × (cond.begin < length c))
      tt refl (slice→parts cond) (parts→slice cond)
eval_present-Answers expect_contains cond v = tt

eval_absent-Answers :
    (kind : WriteConditionType) (cond : WriteCondition) → Answers kind cond none (eval_absent kind)
unfolding eval_absent
eval_absent-Answers (WriteConditionType.unrecognized n) cond = (λ h. h, refl)
eval_absent-Answers expect_exists cond = (tt, λ h. h)
eval_absent-Answers expect_not_exists cond = λ h. h
eval_absent-Answers expect_value cond = (tt, λ h. h)
eval_absent-Answers expect_version cond = (tt, λ h. h)
eval_absent-Answers expect_version_lt cond = (tt, λ h. h)
eval_absent-Answers expect_version_le cond = (tt, λ h. h)
eval_absent-Answers expect_version_gt cond = (tt, λ h. h)
eval_absent-Answers expect_version_ge cond = (tt, λ h. h)
eval_absent-Answers expect_starts_with cond = (tt, λ h. h)
eval_absent-Answers expect_ends_with cond = (tt, λ h. h)
eval_absent-Answers expect_slice cond = (tt, λ h. h)
eval_absent-Answers expect_contains cond = (tt, λ h. h)

-- The answer to a condition, whether the key has a value or not.
pub eval_condition-Answers :
    (cond : WriteCondition) (value : Option Value)
    → Answers cond.kind cond value (eval_condition cond value)
unfolding eval_condition
eval_condition-Answers cond none = eval_absent-Answers cond.kind cond
eval_condition-Answers cond (some v) = eval_present-Answers cond.kind cond v
