-- ===== src/Eval/Latch/Holder.antt =====
-- A latch has at most one holder, whatever the order of requests for it is.
use sekas.Prelude.{
  ℕ, ◌+◌, ◌-◌, ◌≤◌, ◌≡◌, ◌≢◌, subst, ◌==◌, refl, Bool, true, false, Option, none, some, List, [],
  ◌∷◌, ◌++◌, arith, leb, if◌then◌else◌, Option-cases, inl, inr, any,
}
use sekas.Eval.Latch.{
  LatchBlock, acquire_internal, transfer_latch_guard, release, get_latch, wait_intent, signal_all,
}

-- The entry of one key in the table, and the number of guards that are alive.
pub record LatchState : Type 0 where
  pub entry : Option LatchBlock
  pub guards : ℕ

pub data LatchOp : Type 0 where
  acquires : ℕ → LatchOp
  releases : (ℕ → Bool) → LatchOp
  waits : (ℕ → Bool) → ℕ → LatchOp
  signals : LatchOp

abbrev count : Option ℕ → ℕ
count none = 0
count (some w) = 1

-- An operation on the key; a guard has to be alive for a release or a wait.
unfoldable pub latch_step : LatchOp → LatchState → Option LatchState
unfolding acquire_internal release wait_intent signal_all get_latch
latch_step (LatchOp.acquires w) s =
    let (block, got) = acquire_internal w (get_latch s.entry) in
    some (record { entry = some block; guards = if got then s.guards + 1 else s.guards })
latch_step (LatchOp.releases gone) s =
    let (entry, woken) = release gone s.entry in
    if leb 1 s.guards
    then some (record { entry = entry; guards = s.guards - 1 + count woken })
    else none
latch_step (LatchOp.waits gone w) s =
    let (entry, woken) = wait_intent gone w s.entry in
    if leb 1 s.guards
    then some (record { entry = entry; guards = s.guards - 1 + count woken })
    else none
latch_step LatchOp.signals s = some (record s { entry = (signal_all s.entry).0 })

unfoldable pub latch_steps : List LatchOp → LatchState → Option LatchState
unfolding latch_step
latch_steps [] s = some s
latch_steps (op ∷ ops) s = elim (latch_step op s) [ none ↦ none | some s' ↦ latch_steps ops s' ]

abbrev pub no_latch : LatchState
no_latch = record { entry = none; guards = 0 }

-- The guards that are alive are the one that the block says is held, and nobody waits for a latch
-- that is free.
abbrev pub IsExclusive : LatchState → Type 0
IsExclusive s = elim s.entry [
  | none ↦ s.guards ≡ 0
  | some block ↦
      (s.guards ≡ (if block.hold then 1 else 0)) × (block.hold ≡ false → block.latch_waiters ≡ [])
]

latch_step-IsExclusive :
    (op : LatchOp) (s s' : LatchState) → IsExclusive s → latch_step op s ≡ some s' → IsExclusive s'
unfolding latch_step acquire_internal release wait_intent signal_all get_latch transfer_latch_guard
latch_step-IsExclusive op s s' x h = ground arith

none_ne : (s : LatchState) → none ≡ some s → ⊥
none_ne s h = cc

some_inj : (s s' : LatchState) → some s ≡ some s' → s ≡ s'
some_inj s s' h = cc

guards_le : (s : LatchState) → IsExclusive s → s.guards ≤ 1
guards_le s x = ground arith

latch_steps-IsExclusive :
    (ops : List LatchOp) (s s' : LatchState)
    → IsExclusive s
    → latch_steps ops s ≡ some s'
    → IsExclusive s'
unfolding latch_steps
latch_steps-IsExclusive [] s s' x h = subst IsExclusive (some_inj s s' h) x
latch_steps-IsExclusive (op ∷ ops) s s' x h = elim (Option-cases (latch_step op s)) [
  | inl e ↦ absurd (none_ne s' (rw (latch_steps, e) at h))
  | inr (t, e) ↦
      latch_steps-IsExclusive ops t s' (latch_step-IsExclusive op s t x e)
        (rw (latch_steps, e) at h)
]

-- After any sequence of acquires, releases, waits for an intent and signals on a key that starts
-- without a block, at most one guard of the key is alive, the block says so, and a waiter is queued
-- only while the latch is held.
pub latch_steps-one_guard :
    (ops : List LatchOp) (s : LatchState)
    → latch_steps ops no_latch ≡ some s
    → (s.guards ≤ 1) × IsExclusive s
latch_steps-one_guard ops s h =
    let x : IsExclusive s = latch_steps-IsExclusive ops no_latch s refl h in (guards_le s x, x)

any-append :
    (w v : ℕ) (ws : List ℕ) → any (λ u. u == w) ws ≡ true → any (λ u. u == w) (ws ++ v ∷ []) ≡ true
any-append w v [] h = cc
any-append w v (u ∷ ws) h = ground (arith, any-append w v ws)

-- Every waiter of an intent is kept until a signal wakes it: no other operation drops one, and a
-- block with such waiters is not removed.
pub latch_step-intent_waiters :
    (op : LatchOp) (s s' : LatchState)
    → op ≢ LatchOp.signals
    → latch_step op s ≡ some s'
    → (w : ℕ) → any (λ v. v == w) (get_latch s.entry).intent_waiters ≡ true
    → any (λ v. v == w) (get_latch s'.entry).intent_waiters ≡ true
unfolding latch_step acquire_internal release wait_intent signal_all get_latch transfer_latch_guard
latch_step-intent_waiters (LatchOp.acquires v) s s' n h w m = ground arith
latch_step-intent_waiters (LatchOp.releases gone) s s' n h w m = ground arith
latch_step-intent_waiters (LatchOp.waits gone v) s s' n h w m =
    ground (arith, any-append w v (get_latch s.entry).intent_waiters m)
latch_step-intent_waiters LatchOp.signals s s' n h w m = absurd (n refl)
