-- ===== src/Eval/Cas/Outcome.antt =====
-- What `eval_conditions` reports, and that it reads the conditions in order.
use sekas.Prelude.{
  ℕ, suc, ◌+◌, ◌≡◌, refl, Bool, true, false, Option, none, some, List, [], ◌∷◌, ◌++◌, length, take,
  get_elem?, All, arith, subst, ap, if◌then◌else◌,
}
use sekas.Api.{Value, WriteCondition, Result, ok, err, panicked, ◌>>=◌}
use sekas.Eval.Cas.{eval_condition, eval_from, eval_conditions}
use sekas.Eval.Cas.Meaning.{Asks, Answers, eval_condition-Answers}

-- The value is as the condition asks.
abbrev pub Holds : Option Value → WriteCondition → Type 0
Holds value cond = Asks cond.kind cond value

-- The first condition at which the evaluation of a list stops, and how it ends there.
pub record StopsAt (value : Option Value) (conds : List WriteCondition) (i : ℕ) (r : Result Bool)
    : Type 0 where
  pub before : All (Holds value) (take i conds)
  pub cond : WriteCondition
  pub there : get_elem? conds i ≡ some cond
  pub ends : Answers cond.kind cond value r

-- What an answer of `eval_conditions` means.
abbrev pub Means : Option Value → List WriteCondition → Result (Option ℕ) → Type 0
Means value conds (ok none) = All (Holds value) conds
Means value conds (ok (some i)) = StopsAt value conds i (ok false)
Means value conds (err e) = (i : ℕ) × StopsAt value conds i (err e)
Means value conds panicked = ⊥

-- An answer whose index is counted from `n`.
shifted : ℕ → Result (Option ℕ) → Result (Option ℕ)
shifted n (ok (some i)) = ok (some (n + i))
shifted n (ok none) = ok none
shifted n (err e) = err e
shifted n panicked = panicked

eval_from-shifted :
    (idx : ℕ) (value : Option Value) (conds : List WriteCondition)
    → eval_from idx value conds ≡ shifted idx (eval_from 0 value conds)
unfolding eval_from shifted
eval_from-shifted idx value [] = refl
eval_from-shifted idx value (cond ∷ conds) =
    ground (arith, eval_from-shifted (idx + 1) value conds, eval_from-shifted 1 value conds)

StopsAt-later :
    (value : Option Value) (cond : WriteCondition) (conds : List WriteCondition) (i : ℕ)
    (r : Result Bool)
    → Holds value cond
    → StopsAt value conds i r
    → StopsAt value (cond ∷ conds) (suc i) r
StopsAt-later value cond conds i r h s = record {
  before = (h, s.before);
  cond = s.cond;
  there = s.there;
  ends = s.ends;
}

-- A condition that holds in front of a list only moves the index.
later :
    (value : Option Value) (cond : WriteCondition) (conds : List WriteCondition)
    → Holds value cond
    → (r : Result (Option ℕ)) → Means value conds r
    → Means value (cond ∷ conds) (shifted 1 r)
unfolding shifted
later value cond conds h (ok none) m = (h, m)
later value cond conds h (ok (some i)) m =
    subst (λ k. StopsAt value (cond ∷ conds) k (ok false)) (omega arith)
      (StopsAt-later value cond conds i (ok false) h m)
later value cond conds h (err e) (i, s) = (suc i, StopsAt-later value cond conds i (err e) h s)
later value cond conds h panicked m = m

-- The first condition, by what it evaluates to.
first_condition :
    (value : Option Value) (cond : WriteCondition) (conds : List WriteCondition) (r : Result Bool)
    → Answers cond.kind cond value r
    → Means value conds (eval_from 0 value conds)
    → Means value
        (cond ∷ conds)
        (r >>= λ holds. if holds then eval_from 1 value conds else ok (some 0))
first_condition value cond conds (ok true) e m =
    rw (eval_from-shifted 1 value conds) (later value cond conds e (eval_from 0 value conds) m)
first_condition value cond conds (ok false) e m = record {
  before = tt;
  cond = cond;
  there = refl;
  ends = e;
}
first_condition value cond conds (err x) e m =
    (0, record { before = tt; cond = cond; there = refl; ends = e })
first_condition value cond conds panicked e m = absurd e

-- No answer means that the value is as every condition asks, an index is that of the first condition
-- for which it is not, and an error is `invalid_argument` at the first condition of an unknown kind,
-- before which all hold.
pub eval_conditions-Means :
    (value : Option Value) (conds : List WriteCondition)
    → Means value conds (eval_conditions value conds)
unfolding eval_conditions eval_from
eval_conditions-Means value [] = tt
eval_conditions-Means value (cond ∷ conds) =
    first_condition value cond conds (eval_condition cond value) (eval_condition-Answers cond value)
      (eval_conditions-Means value conds)

-- What a condition appended to a list adds.
abbrev then_check : ℕ → Option Value → WriteCondition → Option ℕ → Result (Option ℕ)
then_check n value cond (some i) = ok (some i)
then_check n value cond none = do
  holds ← eval_condition cond value
  ok (if holds then none else some n)

eval_from-append :
    (idx : ℕ) (value : Option Value) (conds : List WriteCondition) (cond : WriteCondition)
    → eval_from idx value (conds ++ cond ∷ [])
      ≡ (eval_from idx value conds >>= then_check (idx + length conds) value cond)
unfolding eval_from
eval_from-append idx value [] cond = ground arith
eval_from-append idx value (c ∷ conds) cond =
    ground (arith, eval_from-append (idx + 1) value conds cond)

-- Conditions are checked in order: one more is checked last, under the index behind the others.
eval_conditions-append :
    (value : Option Value) (conds : List WriteCondition) (cond : WriteCondition)
    → eval_conditions value (conds ++ cond ∷ [])
      ≡ (eval_conditions value conds >>= then_check (length conds) value cond)
unfolding eval_conditions
eval_conditions-append value conds cond =
    rw (eval_from-append 0 value conds cond)
      (ap (λ n. eval_from 0 value conds >>= then_check n value cond) (omega arith))
