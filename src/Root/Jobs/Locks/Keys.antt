-- ===== src/Root/Jobs/Locks/Keys.antt =====
-- The keys of the resources that jobs lock.
use sekas.Prelude.{
  ℕ, ◌≡◌, refl, sym, ap, ◌∙◌, subst, inl, inr, Bool, true, false, Bool-cases, not, Option, none,
  some, List, [], ◌∷◌, ◌++◌, any, find, retain, ◌==◌, arith, All, All-append, Bytes, bytes_eq,
  bytes_eq→eq, bytes_eq_refl,
}
use sekas.Root.JobStore.{BackgroundJob}
use sekas.Root.Jobs.{res_key_of, replace_first}

-- The key of the resource that a job locks, if it locks one.
unfoldable pub key_of : BackgroundJob → Option Bytes
unfolding res_key_of
key_of j = elim j.job [ none ↦ none | some x ↦ res_key_of x ]

abbrev pub with_key : Option Bytes → List Bytes → List Bytes
with_key none ks = ks
with_key (some k) ks = k ∷ ks

abbrev pub keys_of : List BackgroundJob → List Bytes
keys_of [] = []
keys_of (j ∷ js) = with_key (key_of j) (keys_of js)

abbrev pub IsDistinct : List Bytes → Type 0
IsDistinct [] = Unit
IsDistinct (k ∷ ks) = All (λ x. bytes_eq k x ≡ false) ks × IsDistinct ks

module _ (P : Bytes → Type 0) where
  All-with_key : (o : Option Bytes) (ks : List Bytes) → All P (with_key o ks) → All P ks
  All-with_key none ks h = h
  All-with_key (some k) ks h = h.1

  All-key :
      (k : Bytes) (o : Option Bytes) (ks : List Bytes) → o ≡ some k → All P (with_key o ks) → P k
  All-key k none ks e h = cc
  All-key k (some x) ks e h = subst P (ground (arith, e)) h.0

  All-kept :
      (o : Option Bytes) (ks ls : List Bytes)
      → All P (with_key o ks)
      → All P ls
      → All P (with_key o ls)
  All-kept none ks ls h rest = rest
  All-kept (some k) ks ls h rest = (h.0, rest)

  pub All-keys_of-retain :
      (p : BackgroundJob → Bool) (js : List BackgroundJob)
      → All P (keys_of js)
      → All P (keys_of (retain p js))
  All-keys_of-retain p [] h = tt
  All-keys_of-retain p (j ∷ js) h =
      let rest = All-keys_of-retain p js (All-with_key (key_of j) (keys_of js) h) in
      elim (Bool-cases (p j)) [
        | inl kept ↦ rw kept (All-kept (key_of j) (keys_of js) (keys_of (retain p js)) h rest)
        | inr gone ↦ rw gone rest
      ]

  -- The first job with an id has its key among the keys.
  All-found :
      (id : ℕ) (k : Bytes) (j : BackgroundJob) (js : List BackgroundJob)
      → find (λ x. x.id == id) js ≡ some j
      → key_of j ≡ some k
      → All P (keys_of js)
      → P k
  All-found id k j [] f e h = cc
  All-found id k j (x ∷ js) f e h = elim (Bool-cases (x.id == id)) [
    | inl here ↦
        let same : x ≡ j = ground (arith, f, here) in
        All-key k (key_of x) (keys_of js) (ap key_of same ∙ e) h
    | inr other ↦
        let later : find (λ y. y.id == id) js ≡ some j = ground (arith, f, other) in
        All-found id k j js later e (All-with_key (key_of x) (keys_of js) h)
  ]

pub keys_of-append : (js ks : List BackgroundJob) → keys_of (js ++ ks) ≡ keys_of js ++ keys_of ks
keys_of-append [] ks = refl
keys_of-append (j ∷ js) ks =
    with_key-append (keys_of js) (keys_of ks) (key_of j) (keys_of-append js ks)
  where
    with_key-append :
        {xs : List Bytes} (ys zs : List Bytes) (o : Option Bytes)
        → xs ≡ ys ++ zs
        → with_key o xs ≡ with_key o ys ++ zs
    with_key-append ys zs none e = e
    with_key-append ys zs (some k) e = ap (λ t. k ∷ t) e

IsDistinct-with_key :
    (o : Option Bytes) (ks : List Bytes) → IsDistinct (with_key o ks) → IsDistinct ks
IsDistinct-with_key none ks h = h
IsDistinct-with_key (some k) ks h = h.1

pub IsDistinct-append :
    (key : Bytes) (ks : List Bytes)
    → IsDistinct ks
    → All (λ k. bytes_eq k key ≡ false) ks
    → IsDistinct (ks ++ key ∷ [])
IsDistinct-append key [] d h = (tt, tt)
IsDistinct-append key (k ∷ ks) d h = (
  All-append (λ x. bytes_eq k x ≡ false) ks (key ∷ []) d.0 (h.0, tt),
  IsDistinct-append key ks d.1 h.1,
)

pub IsDistinct-retain :
    (p : BackgroundJob → Bool) (js : List BackgroundJob)
    → IsDistinct (keys_of js)
    → IsDistinct (keys_of (retain p js))
IsDistinct-retain p [] d = tt
IsDistinct-retain p (j ∷ js) d =
    let rest = IsDistinct-retain p js (IsDistinct-with_key (key_of j) (keys_of js) d) in
    elim (Bool-cases (p j)) [
      | inl kept ↦ rw kept (kept_first (key_of j) d rest)
      | inr gone ↦ rw gone rest
    ]
  where
    kept_first :
        (o : Option Bytes)
        → IsDistinct (with_key o (keys_of js))
        → IsDistinct (keys_of (retain p js))
        → IsDistinct (with_key o (keys_of (retain p js)))
    kept_first none d rest = rest
    kept_first (some k) d rest = (All-keys_of-retain (λ x. bytes_eq k x ≡ false) p js d.0, rest)

-- A key that is locked is not one that is free.
pub locked_differs :
    (k key : Bytes) (locks : List Bytes)
    → any (bytes_eq k) locks ≡ true
    → any (bytes_eq key) locks ≡ false
    → bytes_eq k key ≡ false
locked_differs k key locks h free = elim (Bool-cases (bytes_eq k key)) [
  | inl same ↦
      absurd (ground (arith, h, free, ap (λ x. any (bytes_eq x) locks) (bytes_eq→eq k key same)))
  | inr other ↦ other
]

-- A removal of a key leaves the other locks.
pub any-unlock :
    (k key : Bytes) (locks : List Bytes)
    → bytes_eq key k ≡ false
    → any (bytes_eq k) locks ≡ true
    → any (bytes_eq k) (retain (λ x. not (bytes_eq key x)) locks) ≡ true
any-unlock k key [] h here = here
any-unlock k key (x ∷ xs) h here = elim (Bool-cases (bytes_eq k x)) [
  | inl same ↦
      let kept : bytes_eq key x ≡ false =
        subst (λ y. bytes_eq key y ≡ false) (bytes_eq→eq k x same) h in
      ground (arith, kept, same)
  | inr other ↦
      let later : any (bytes_eq k) xs ≡ true = ground (arith, here, other) in
      ground (arith, any-unlock k key xs h later, other)
]

differs_sym : (k key : Bytes) → bytes_eq k key ≡ false → bytes_eq key k ≡ false
differs_sym k key h = elim (Bool-cases (bytes_eq key k)) [
  | inl same ↦ absurd (ground (arith, h, bytes_eq_refl k, ap (bytes_eq k) (bytes_eq→eq key k same)))
  | inr other ↦ other
]

-- After the removal of a job its key is none of the others'.
pub keys_of-removed :
    (id : ℕ) (key : Bytes) (j : BackgroundJob) (js : List BackgroundJob)
    → find (λ x. x.id == id) js ≡ some j
    → key_of j ≡ some key
    → IsDistinct (keys_of js)
    → All (λ k. bytes_eq key k ≡ false) (keys_of (retain (λ x. not (x.id == id)) js))
keys_of-removed id key j [] f e d = tt
keys_of-removed id key j (x ∷ js) f e d = elim (Bool-cases (x.id == id)) [
  | inl here ↦
      let same : x ≡ j = ground (arith, f, here) in
      rw here (
        All-keys_of-retain (λ k. bytes_eq key k ≡ false) (λ y. not (y.id == id)) js
          (apart (key_of x) (ap key_of same ∙ e) d))
  | inr other ↦
      let later : find (λ y. y.id == id) js ≡ some j = ground (arith, f, other) in
      rw other (
        kept (key_of x) later d
          (keys_of-removed id key j js later e (IsDistinct-with_key (key_of x) (keys_of js) d)))
]
  where
    apart :
        (o : Option Bytes)
        → o ≡ some key
        → IsDistinct (with_key o (keys_of js))
        → All (λ k. bytes_eq key k ≡ false) (keys_of js)
    apart none h d = cc
    apart (some k) h d =
        subst (λ y. All (λ k. bytes_eq y k ≡ false) (keys_of js)) (ground (arith, h)) d.0

    kept :
        (o : Option Bytes)
        → find (λ y. y.id == id) js ≡ some j
        → IsDistinct (with_key o (keys_of js))
        → All (λ k. bytes_eq key k ≡ false) (keys_of (retain (λ y. not (y.id == id)) js))
        → All
            (λ k. bytes_eq key k ≡ false)
            (with_key o (keys_of (retain (λ y. not (y.id == id)) js)))
    kept none later d rest = rest
    kept (some k) later d rest =
        (differs_sym k key (All-found (λ x. bytes_eq k x ≡ false) id key j js later e d.0), rest)

-- An update of the first job with an id, by one that locks the same, keeps the keys.
pub keys_of-replace_first :
    (job j : BackgroundJob) (js : List BackgroundJob)
    → find (λ x. x.id == job.id) js ≡ some j
    → key_of j ≡ key_of job
    → keys_of (replace_first job js) ≡ keys_of js
unfolding replace_first
keys_of-replace_first job j [] f e = refl
keys_of-replace_first job j (x ∷ js) f e = elim (Bool-cases (x.id == job.id)) [
  | inl here ↦
      let same : x ≡ j = ground (arith, f, here) in
      rw here (ap (λ o. with_key o (keys_of js)) (sym e ∙ ap key_of (sym same)))
  | inr other ↦
      let later : find (λ y. y.id == job.id) js ≡ some j = ground (arith, f, other) in
      rw other (ap (with_key (key_of x)) (keys_of-replace_first job j js later e))
]
