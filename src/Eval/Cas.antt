-- ===== src/Eval/Cas.antt =====
-- The conditions of a write (src/server/src/replica/eval/cas.rs).
pub mod Meaning
pub mod Outcome
use sekas.Prelude.{
  ℕ, ◌+◌, ◌-◌, Bool, true, false, not, ◌&&◌, Option, none, some, List, [], ◌∷◌, Bytes, length, drop,
  bytes_eq, starts_with, is_some, is_none, ltb, leb, ◌==◌, if◌then◌else◌,
}
use sekas.Api.{
  Value, WriteCondition, WriteConditionType, expect_exists, expect_not_exists, expect_value,
  expect_version, expect_version_lt, expect_version_le, expect_version_gt, expect_version_ge,
  expect_starts_with, expect_ends_with, expect_slice, expect_contains, Result, ok, err,
  invalid_argument, ◌>>=◌,
}

-- `ends_with` on slices.
unfoldable pub ends_with : Bytes → Bytes → Bool
ends_with xs s = leb (length s) (length xs) && bytes_eq (drop (length xs - length s) xs) s

-- `content.map(test).unwrap_or_default()`.
unfoldable pub content_test : (Bytes → Bool) → Option Bytes → Bool
content_test test none = false
content_test test (some v) = test v

-- The match of `eval_condition` on an existing value; the last clause is `_ => Ok(true)`.
unfoldable pub eval_present : WriteConditionType → WriteCondition → Value → Result Bool
unfolding content_test ends_with
eval_present (WriteConditionType.unrecognized n) cond v = err invalid_argument
eval_present expect_not_exists cond v = ok (if is_some v.content then false else true)
eval_present expect_exists cond v = ok (if is_none v.content then false else true)
eval_present expect_value cond v = ok (content_test (λ c. bytes_eq c cond.value) v.content)
eval_present expect_version cond v = ok (if not (v.version == cond.version) then false else true)
eval_present expect_version_lt cond v = ok (if leb cond.version v.version then false else true)
eval_present expect_version_le cond v = ok (if ltb cond.version v.version then false else true)
eval_present expect_version_gt cond v = ok (if leb v.version cond.version then false else true)
eval_present expect_version_ge cond v = ok (if ltb v.version cond.version then false else true)
eval_present expect_starts_with cond v = ok (content_test (λ c. starts_with c cond.value) v.content)
eval_present expect_ends_with cond v = ok (content_test (λ c. ends_with c cond.value) v.content)
eval_present expect_slice cond v = ok (
    content_test (λ c. ltb cond.begin (length c) && starts_with (drop cond.begin c) cond.value)
      v.content)
eval_present expect_contains cond v = ok true

-- The match on a key without a value.
unfoldable pub eval_absent : WriteConditionType → Result Bool
eval_absent (WriteConditionType.unrecognized n) = err invalid_argument
eval_absent expect_not_exists = ok true
eval_absent _ = ok false

unfoldable pub eval_condition : WriteCondition → Option Value → Result Bool
unfolding eval_present eval_absent
eval_condition cond (some v) = eval_present cond.kind cond v
eval_condition cond none = eval_absent cond.kind

-- The loop of `eval_conditions` from the index `idx`.
unfoldable pub eval_from : ℕ → Option Value → List WriteCondition → Result (Option ℕ)
eval_from idx value [] = ok none
eval_from idx value (cond ∷ conds) = do
  holds ← eval_condition cond value
  let rest = eval_from (idx + 1) value conds
  if holds then rest else ok (some idx)

-- The index of the first condition that does not hold.
unfoldable pub eval_conditions : Option Value → List WriteCondition → Result (Option ℕ)
unfolding eval_from
eval_conditions value conds = eval_from 0 value conds
