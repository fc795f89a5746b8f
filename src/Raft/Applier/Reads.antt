-- ===== src/Raft/Applier/Reads.antt =====
-- Which reads are answered once entries are applied.
use mathlib.Core.List.{Memᴰ}
use mathlib.Core.List.Memᴰ.{head, tail, append_left, append_right}
use sekas.Prelude.{
  ℕ, ◌≤◌, ◌≡◌, refl, sym, ap, ◌∙◌, subst, inl, inr, Option, false, Bool-cases, List, [], ◌∷◌, ◌++◌,
  Bytes, bytes_eq, bytes_eq→eq, bytes_eq_refl, leb, if◌then◌else◌, arith, All, All-mono,
}
use sekas.Api.{ok, EntryId, bind_ok}
use sekas.Engine.RawDb.{RawDb}
use sekas.Fsm.Members.{ChangeReplica}
use sekas.Fsm.Machine.{EvalResult}
use sekas.Raft.Applier.{
  Applier, Answer, ReadState, Entry, senders_of, remove_ctx, accepted, answer_reads, apply_entry,
  apply_all, response_proposal, response_proposals,
}

abbrev pub Requests : Type 0
Requests = List (Bytes × List ℕ)

abbrev pub AreAnswered : List ℕ → List Answer → Type 0
AreAnswered senders answers = All (λ s. Memᴰ (record { to = s; outcome = ok tt }) answers) senders

differs : (i j k : Bytes) → i ≡ k → bytes_eq i j ≡ false → bytes_eq j k ≡ false
differs i j k same kept = elim (Bool-cases (bytes_eq j k)) [
  | inl eq ↦
      absurd
        (ground (arith, kept, bytes_eq_refl i, ap (bytes_eq i) (same ∙ sym (bytes_eq→eq j k eq))))
  | inr ne ↦ ne
]

senders_of-remove_ctx :
    (j k : Bytes) (m : Requests)
    → senders_of k (remove_ctx j m) ≡ (if bytes_eq j k then [] else senders_of k m)
unfolding senders_of remove_ctx
senders_of-remove_ctx j k [] = ground arith
senders_of-remove_ctx j k ((i, senders) ∷ m) = elim (Bool-cases (bytes_eq i j)) [
  | inl removed ↦
      let same : i ≡ j = bytes_eq→eq i j removed in
      rw (removed, senders_of-remove_ctx j k m, same) (ground arith)
  | inr kept ↦ elim (Bool-cases (bytes_eq i k)) [
    | inl here ↦
        let same : i ≡ k = bytes_eq→eq i k here in
        let other : bytes_eq j k ≡ false = differs i j k same kept in rw (kept, here, other) refl
    | inr away ↦ rw (kept, away) (senders_of-remove_ctx j k m)
  ]
]

-- The senders that wait under a context.
abbrev pub waiting : Bytes → Requests → List ℕ
waiting ctx [] = []
waiting ctx ((k, senders) ∷ m) = if bytes_eq k ctx then senders else waiting ctx m

pub senders_of-waiting : (ctx : Bytes) (m : Requests) → senders_of ctx m ≡ waiting ctx m
unfolding senders_of
senders_of-waiting ctx [] = refl
senders_of-waiting ctx ((k, senders) ∷ m) = rw (senders_of-waiting ctx m) refl

AreAnswered-left :
    (senders : List ℕ) (xs ys : List Answer)
    → AreAnswered senders xs
    → AreAnswered senders (xs ++ ys)
AreAnswered-left senders xs ys h = All-mono senders (λ s m. append_left ys m) h

pub AreAnswered-right :
    (senders : List ℕ) (xs ys : List Answer)
    → AreAnswered senders ys
    → AreAnswered senders (xs ++ ys)
AreAnswered-right senders xs ys h = All-mono senders (λ s m. append_right xs m) h

accepted-AreAnswered : (senders : List ℕ) → AreAnswered senders (accepted senders)
unfolding accepted
accepted-AreAnswered [] = tt
accepted-AreAnswered (s ∷ senders) =
    (head refl, All-mono senders (λ t h. tail h) (accepted-AreAnswered senders))

-- A context without senders has none after others are answered.
answer_reads-none :
    (last : ℕ) (states : List ReadState) (m : Requests) (k : Bytes)
    → senders_of k m ≡ []
    → senders_of k (answer_reads last states m).0 ≡ []
unfolding answer_reads
answer_reads-none last [] m k h = h
answer_reads-none last (rs ∷ states) m k h = elim (Bool-cases (leb rs.index last)) [
  | inl now ↦
      let gone : senders_of k (remove_ctx rs.request_ctx m) ≡ [] =
        ground (arith, senders_of-remove_ctx rs.request_ctx k m, h) in
      rw now (answer_reads-none last states (remove_ctx rs.request_ctx m) k gone)
  | inr later ↦ rw later (answer_reads-none last states m k h)
]

-- A read for an applied index: its senders are answered, and none is left.
abbrev pub IsServed : ℕ → Requests → Requests × List Answer → ReadState → Type 0
IsServed last m out rs =
    rs.index ≤ last
    → AreAnswered (waiting rs.request_ctx m) out.1 × (waiting rs.request_ctx out.0 ≡ [])

abbrev pub IsServedIn : ℕ → Requests → Requests × List Answer → ReadState → Type 0
IsServedIn last m out rs =
    rs.index ≤ last
    → AreAnswered (senders_of rs.request_ctx m) out.1 × (senders_of rs.request_ctx out.0 ≡ [])

-- A read behind one that is answered.
behind_answered :
    (last : ℕ) (m : Requests) (first : ReadState) (out : Requests × List Answer) (rs : ReadState)
    → IsServedIn last (remove_ctx first.request_ctx m) out rs
    → IsServedIn last m (out.0, accepted (senders_of first.request_ctx m) ++ out.1) rs
behind_answered last m first out rs served = λ le.
    let (answered, none_left) = served le in
    let removed = senders_of-remove_ctx first.request_ctx rs.request_ctx m in
    let mine = senders_of first.request_ctx m in
    elim (Bool-cases (bytes_eq first.request_ctx rs.request_ctx)) [
      | inl same ↦ (
        subst (λ k. AreAnswered (senders_of k m) (accepted mine ++ out.1))
            (bytes_eq→eq first.request_ctx rs.request_ctx same)
            (AreAnswered-left mine (accepted mine) out.1 (accepted-AreAnswered mine)),
        none_left,
      )
      | inr other ↦
          let kept : senders_of rs.request_ctx (remove_ctx first.request_ctx m)
              ≡ senders_of rs.request_ctx m =
            removed ∙ (rw other refl) in
          (
            AreAnswered-right (senders_of rs.request_ctx m) (accepted mine) out.1
                (subst (λ l. AreAnswered l out.1) kept answered),
            none_left,
          )
    ]

pub answer_reads-IsServedIn :
    (last : ℕ) (states : List ReadState) (m : Requests)
    → All (IsServedIn last m (answer_reads last states m)) states
unfolding answer_reads
answer_reads-IsServedIn last [] m = tt
answer_reads-IsServedIn last (rs ∷ states) m = elim (Bool-cases (leb rs.index last)) [
  | inl now ↦
      let rest = remove_ctx rs.request_ctx m in
      let out : Requests × List Answer = answer_reads last states rest in
      let mine = senders_of rs.request_ctx m in
      let gone : senders_of rs.request_ctx rest ≡ [] =
        senders_of-remove_ctx rs.request_ctx rs.request_ctx m
        ∙ (rw (bytes_eq_refl rs.request_ctx) refl) in
      let step : answer_reads last (rs ∷ states) m ≡ (out.0, accepted mine ++ out.1) =
        rw now refl in
      subst (λ o. All (IsServedIn last m o) (rs ∷ states)) (sym step)
        (
          λ le. (
            AreAnswered-left mine (accepted mine) out.1 (accepted-AreAnswered mine),
            answer_reads-none last states rest rs.request_ctx gone,
          ),
          All-mono states (λ r served. behind_answered last m rs out r served)
              (answer_reads-IsServedIn last states rest),
        )
  | inr later ↦
      let step : answer_reads last (rs ∷ states) m ≡ answer_reads last states m = rw later refl in
      subst (λ o. All (IsServedIn last m o) (rs ∷ states)) (sym step)
        ((λ le. absurd (ground (arith, later, le))), answer_reads-IsServedIn last states m)
]

-- The reads that wait are not touched by entries and proposals.
abbrev pub KeepsReads : {R : RawDb} → Applier R → Applier R → Type 0
KeepsReads a b = (b.read_states ≡ a.read_states) × (b.read_requests ≡ a.read_requests)

module _ {R : RawDb} where
  apply_entry-KeepsReads :
      (decode_eval : Bytes → Option EvalResult) (decode_conf : Bytes → Option (List ChangeReplica))
      (entry : Entry) (a b : Applier R)
      → apply_entry decode_eval decode_conf entry a ≡ ok b
      → KeepsReads a b
  unfolding apply_entry
  apply_entry-KeepsReads decode_eval decode_conf entry a b h = (ground arith, ground arith)

  pub apply_all-KeepsReads :
      (decode_eval : Bytes → Option EvalResult) (decode_conf : Bytes → Option (List ChangeReplica))
      (entries : List Entry) (a b : Applier R)
      → apply_all decode_eval decode_conf entries a ≡ ok b
      → KeepsReads a b
  unfolding apply_all
  apply_all-KeepsReads decode_eval decode_conf [] a b h = (ground (arith, h), ground (arith, h))
  apply_all-KeepsReads decode_eval decode_conf (entry ∷ entries) a b h =
      let (next, first, rest) =
        bind_ok (apply_entry decode_eval decode_conf entry a)
          (apply_all decode_eval decode_conf entries) b h in
      let (s1, r1) = apply_entry-KeepsReads decode_eval decode_conf entry a next first in
      let (s2, r2) = apply_all-KeepsReads decode_eval decode_conf entries next b rest in
      (s2 ∙ s1, r2 ∙ r1)

  response_proposal-KeepsReads :
      (id : EntryId) (a : Applier R) → KeepsReads a (response_proposal id a).0
  unfolding response_proposal
  response_proposal-KeepsReads id a = (ground arith, ground arith)

  pub response_proposals-KeepsReads :
      (ids : List EntryId) (a : Applier R) → KeepsReads a (response_proposals ids a).0
  unfolding response_proposals
  response_proposals-KeepsReads [] a = (refl, refl)
  response_proposals-KeepsReads (id ∷ ids) a =
      let (s1, r1) = response_proposal-KeepsReads id a in
      let (s2, r2) = response_proposals-KeepsReads ids (response_proposal id a).0 in
      (s2 ∙ s1, r2 ∙ r1)
