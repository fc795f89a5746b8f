-- ===== src/Eval/Txn/Freed.antt =====
-- In which state the reads of a write of an intent leave its key.
use sekas.Prelude.{
  ℕ, ◌≡◌, refl, ap, ◌∙◌, ◌⊎◌, inl, inr, Bool, true, false, Option, none, some, List, [], ◌∷◌, Bytes,
  arith, subst,
}
use sekas.Api.{Value, TxnIntent, WriteRequest, user_key, Error, Result, ok, err, panicked, ◌>>=◌}
use sekas.Engine.RawDb.{RawDb}
use sekas.Engine.Prost.{Codec}
use sekas.Engine.Group.{GroupEngine}
use sekas.Eval.Forward.{ExecCtx, check_forward}
use sekas.Eval.Txn.{
  Turn, turn, Written, read_intent_and_next_key, read_first_non_intent_key, write_at, after_waiting,
  write_intent,
}

-- What a key has to be for a transaction that goes on with it.
abbrev pub IsFreeFor : ℕ → Bool → Option Value → Result (Option TxnIntent × Option Value) → Type 0
IsFreeFor start_version skip prev r =
    ((skip ≡ false) × (r ≡ ok (none, prev)))
    ⊎ ((skip ≡ true)
        × ((intent : TxnIntent) × (r ≡ ok (some intent, prev))
            × (intent.start_version ≡ start_version)))

turn-IsFreeFor :
    (start_version : ℕ) (r : Result (Option TxnIntent × Option Value)) (skip : Bool)
    (prev : Option Value)
    → turn start_version r ≡ Turn.over (ok (skip, prev))
    → IsFreeFor start_version skip prev r
unfolding turn
turn-IsFreeFor start_version (ok (none, p)) skip prev h = inl (cc, cc)
turn-IsFreeFor start_version (ok (some i, p)) skip prev h =
    inr (ground arith, (i, ground arith, ground arith))
turn-IsFreeFor start_version (err e) skip prev h = cc
turn-IsFreeFor start_version panicked skip prev h = cc

abbrev with_engine :
    {R : RawDb} → GroupEngine R → Bool × Option Value → Result (GroupEngine R × Bool × Option Value)
with_engine e p = ok (e, p.0, p.1)

over_engine :
    {R : RawDb} (e e' : GroupEngine R) (r : Result (Bool × Option Value)) (skip : Bool)
    (prev : Option Value)
    → (r >>= with_engine e) ≡ ok (e', skip, prev)
    → (e ≡ e') × (r ≡ ok (skip, prev))
over_engine e e' (ok p) skip prev h = (ap (engine_of e) h, ap pair_of h)
  where
    engine_of :
        {R : RawDb} → GroupEngine R → Result (GroupEngine R × Bool × Option Value) → GroupEngine R
    engine_of d (ok q) = q.0
    engine_of d (err x) = d
    engine_of d panicked = d

    pair_of :
        {R : RawDb} → Result (GroupEngine R × Bool × Option Value) → Result (Bool × Option Value)
    pair_of (ok (f, b, v)) = ok (b, v)
    pair_of (err x) = err x
    pair_of panicked = panicked
over_engine e e' (err x) skip prev h = cc
over_engine e e' panicked skip prev h = cc

free_at :
    {R : RawDb} (I : Codec TxnIntent) (e e' : GroupEngine R) (start_version shard_id : ℕ)
    (key : Bytes) (skip : Bool) (prev : Option Value) (r : Result (Bool × Option Value))
    → turn start_version (read_intent_and_next_key I e shard_id key) ≡ Turn.over r
    → (r >>= with_engine e) ≡ ok (e', skip, prev)
    → IsFreeFor start_version skip prev (read_intent_and_next_key I e' shard_id key)
free_at I e e' start_version shard_id key skip prev r t h =
    let (same, found) = over_engine e e' r skip prev h in
    subst (λ d. IsFreeFor start_version skip prev (read_intent_and_next_key I d shard_id key)) same
      (turn-IsFreeFor start_version (read_intent_and_next_key I e shard_id key) skip prev
        (t ∙ ap Turn.over found))

Turn-cases :
    (t : Turn) → ((r : Result (Bool × Option Value)) × (t ≡ Turn.over r)) ⊎ (t ≡ Turn.blocked)
Turn-cases (Turn.over r) = inl (r, refl)
Turn-cases Turn.blocked = inr refl

pub some_ne {ℓ} : {A : Type ℓ} (a : A) → none ≡ some a → ⊥
some_ne a h = cc

pub some_inj {ℓ} : {A : Type ℓ} (a b : A) → some a ≡ some b → a ≡ b
some_inj a b h = cc

err_ne {ℓ} : {A : Type ℓ} (x : Error) (a : A) → some (err x) ≡ some (ok a) → ⊥
err_ne x a h = cc

panicked_ne {ℓ} : {A : Type ℓ} (a : A) → some panicked ≡ some (ok a) → ⊥
panicked_ne a h = cc

resumed :
    {R : RawDb} (I : Codec TxnIntent) (waits : List (Result (GroupEngine R))) (e' : GroupEngine R)
    (start_version shard_id : ℕ) (key : Bytes) (skip : Bool) (prev : Option Value)
    (wait : Result (GroupEngine R))
    → ((d : GroupEngine R)
        → read_first_non_intent_key I waits d start_version shard_id key
          ≡ some (ok (e', skip, prev))
        → IsFreeFor start_version skip prev (read_intent_and_next_key I e' shard_id key))
    → elim wait [
      | ok d ↦ read_first_non_intent_key I waits d start_version shard_id key
      | err x ↦ some (err x)
      | panicked ↦ some panicked
    ]
      ≡ some (ok (e', skip, prev))
    → IsFreeFor start_version skip prev (read_intent_and_next_key I e' shard_id key)
resumed I waits e' start_version shard_id key skip prev (ok d) f k = f d k
resumed I waits e' start_version shard_id key skip prev (err x) f k =
    absurd (err_ne x (e', skip, prev) k)
resumed I waits e' start_version shard_id key skip prev panicked f k =
    absurd (panicked_ne (e', skip, prev) k)

read_first_non_intent_key-IsFreeFor :
    {R : RawDb} (I : Codec TxnIntent) (waits : List (Result (GroupEngine R))) (e e' : GroupEngine R)
    (start_version shard_id : ℕ) (key : Bytes) (skip : Bool) (prev : Option Value)
    → read_first_non_intent_key I waits e start_version shard_id key ≡ some (ok (e', skip, prev))
    → IsFreeFor start_version skip prev (read_intent_and_next_key I e' shard_id key)
unfolding read_first_non_intent_key
read_first_non_intent_key-IsFreeFor I [] e e' start_version shard_id key skip prev h =
    elim (Turn-cases (turn start_version (read_intent_and_next_key I e shard_id key))) [
      | inl p ↦
          free_at I e e' start_version shard_id key skip prev p.0 p.1
            (some_inj _ _ (rw (read_first_non_intent_key, p.1) at h))
      | inr t ↦ absurd (some_ne _ (rw (read_first_non_intent_key, t) at h))
    ]
read_first_non_intent_key-IsFreeFor I (wait ∷ waits) e e' start_version shard_id key skip prev h =
    elim (Turn-cases (turn start_version (read_intent_and_next_key I e shard_id key))) [
      | inl p ↦
          free_at I e e' start_version shard_id key skip prev p.0 p.1
            (some_inj _ _ (rw (read_first_non_intent_key, p.1) at h))
      | inr t ↦
          resumed I waits e' start_version shard_id key skip prev wait
            (λ d.
              read_first_non_intent_key-IsFreeFor I waits d e' start_version shard_id key skip prev)
            (rw (read_first_non_intent_key, t) at h)
    ]

-- What a write at a free key leaves alone.
write_at-skip :
    {R : RawDb} (I : Codec TxnIntent) (write : WriteRequest) (start_version shard_id : ℕ)
    (e : GroupEngine R) (skip : Bool) (prev : Option Value) (w : Written R)
    → write_at I write start_version shard_id (e, skip, prev) ≡ ok w
    → (skip ≡ true → w.batch ≡ [])
unfolding write_at
write_at-skip I (WriteRequest.delete d) start_version shard_id e skip prev w h s = ground arith
write_at-skip I (WriteRequest.put p) start_version shard_id e skip prev w h s = ground arith

write_at-engine :
    {R : RawDb} (I : Codec TxnIntent) (write : WriteRequest) (start_version shard_id : ℕ)
    (e : GroupEngine R) (skip : Bool) (prev : Option Value) (w : Written R)
    → write_at I write start_version shard_id (e, skip, prev) ≡ ok w
    → e ≡ w.engine
unfolding write_at
write_at-engine I (WriteRequest.delete d) start_version shard_id e skip prev w h = ground arith
write_at-engine I (WriteRequest.put p) start_version shard_id e skip prev w h = ground arith

-- What the last read of a request tells.
abbrev pub IsFreed : {R : RawDb} → Codec TxnIntent → ℕ → ℕ → Bytes → Written R → Type 0
IsFreed I start_version shard_id key w =
    (skip : Bool) × (prev : Option Value) × IsFreeFor start_version skip prev
      (read_intent_and_next_key I w.engine shard_id key)
    × (skip ≡ true → w.batch ≡ [])

after_waiting-IsFreed :
    {R : RawDb} (I : Codec TxnIntent) (waits : List (Result (GroupEngine R))) (e : GroupEngine R)
    (write : WriteRequest) (start_version shard_id : ℕ) (key : Bytes) (w : Written R)
    (r : Option (Result (GroupEngine R × Bool × Option Value)))
    → read_first_non_intent_key I waits e start_version shard_id key ≡ r
    → after_waiting I write start_version shard_id r ≡ some (ok w)
    → IsFreed I start_version shard_id key w
unfolding after_waiting
after_waiting-IsFreed I waits e write start_version shard_id key w none f h = absurd (some_ne _ h)
after_waiting-IsFreed I waits e write start_version shard_id key w (some (err x)) f h =
    absurd (err_ne x w h)
after_waiting-IsFreed I waits e write start_version shard_id key w (some panicked) f h =
    absurd (panicked_ne w h)
after_waiting-IsFreed I waits e write start_version shard_id key w (some (ok (d, skip, prev))) f h =
    let done = some_inj _ _ h in
    (
      skip,
      prev,
      subst (λ g. IsFreeFor start_version skip prev (read_intent_and_next_key I g shard_id key))
          (write_at-engine I write start_version shard_id d skip prev w done)
          (read_first_non_intent_key-IsFreeFor I waits e d start_version shard_id key skip prev f),
      write_at-skip I write start_version shard_id d skip prev w done,
    )

pub write_intent-IsFreed :
    {R : RawDb} (I : Codec TxnIntent) (waits : List (Result (GroupEngine R))) (ctx : ExecCtx)
    (e : GroupEngine R) (write : WriteRequest) (start_version shard_id : ℕ) (w : Written R)
    → write_intent I waits ctx e
        (record { start_version = start_version; shard_id = shard_id; write = some write })
      ≡ some (ok w)
    → IsFreed I start_version shard_id (user_key write) w
unfolding write_intent
write_intent-IsFreed I waits ctx e write start_version shard_id w h =
    checked (check_forward ctx e shard_id (user_key write ∷ [])) h
  where
    checked :
        (c : Result (Unit {0}))
        → elim c [
          | ok _ ↦
              after_waiting I write start_version shard_id
                (read_first_non_intent_key I waits e start_version shard_id (user_key write))
          | err x ↦ some (err x)
          | panicked ↦ some panicked
        ]
          ≡ some (ok w)
        → IsFreed I start_version shard_id (user_key write) w
    checked (ok u) k =
        after_waiting-IsFreed I waits e write start_version shard_id (user_key write) w _ refl k
    checked (err x) k = absurd (err_ne x w k)
    checked panicked k = absurd (panicked_ne w k)
