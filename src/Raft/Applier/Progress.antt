-- ===== src/Raft/Applier/Progress.antt =====
-- What a run of `apply_entries` has applied and answered.
use sekas.Prelude.{
  ℕ, ◌+◌, ◌≤◌, ◌<◌, ◌≡◌, refl, sym, ap, ◌∙◌, Option, List, [], ◌∷◌, Bytes, length, arith, All,
  All-mono, ◌++◌, subst, ltb, u64_max, Bool-cases, inl, inr, map,
}
use sekas.Api.{EntryId, Result, ok, err, panicked, bind_ok}
use sekas.Engine.RawDb.{RawDb}
use sekas.Engine.Prost.{Prost}
use sekas.Fsm.Machine.{EvalResult, start_plug, finish_plug}
use sekas.Fsm.Members.{ChangeReplica}
use sekas.Raft.Applier.{
  Applier, Answer, ReadState, Entry, entry_id, must, apply_entry, apply_all, apply_entries,
  response_proposal, response_proposals, response_cached_read_states, later_reads, answer_reads,
}
use sekas.Raft.Applier.Reads.{
  Requests, AreAnswered, IsServed, waiting, senders_of-waiting, AreAnswered-right,
  answer_reads-IsServedIn, apply_all-KeepsReads, response_proposals-KeepsReads,
}

-- The entries follow a position without a gap.
abbrev pub AreConsecutive : ℕ → List Entry → Type 0
AreConsecutive last [] = Unit {0}
AreConsecutive last (e ∷ es) = (e.id.index ≡ last + 1) × AreConsecutive (last + 1) es

apply_entry-index :
    {R : RawDb} (decode_eval : Bytes → Option EvalResult)
    (decode_conf : Bytes → Option (List ChangeReplica)) (entry : Entry) (a b : Applier R)
    → 0 < a.last_applied_index
    → a.last_applied_index < u64_max
    → apply_entry decode_eval decode_conf entry a ≡ ok b
    → (entry.id.index ≡ a.last_applied_index + 1) × (b.last_applied_index ≡ entry.id.index)
unfolding apply_entry
apply_entry-index decode_eval decode_conf entry a b pos bound h = ground arith

response_proposal-index :
    {R : RawDb} (id : EntryId) (a : Applier R)
    → (response_proposal id a).0.last_applied_index ≡ a.last_applied_index
unfolding response_proposal
response_proposal-index id a = ground arith

response_proposals-index :
    {R : RawDb} (ids : List EntryId) (a : Applier R)
    → (response_proposals ids a).0.last_applied_index ≡ a.last_applied_index
unfolding response_proposals
response_proposals-index [] a = refl
response_proposals-index (id ∷ ids) a =
    response_proposals-index ids (response_proposal id a).0 ∙ response_proposal-index id a

later_reads-All :
    (last : ℕ) (states : List ReadState) → All (λ rs. last < rs.index) (later_reads last states)
unfolding later_reads
later_reads-All last [] = tt
later_reads-All last (rs ∷ states) = elim (Bool-cases (ltb last rs.index)) [
  | inl later ↦ rw later (ground (arith, later), later_reads-All last states)
  | inr applied ↦ rw applied (later_reads-All last states)
]

-- The index that a run over the entries reaches.
abbrev Reaches : {R : RawDb} → Applier R → List Entry → Applier R → Type 0
Reaches a entries b =
    AreConsecutive a.last_applied_index entries
    × (b.last_applied_index ≡ a.last_applied_index + length entries)

apply_all-Reaches :
    {R : RawDb} (decode_eval : Bytes → Option EvalResult)
    (decode_conf : Bytes → Option (List ChangeReplica)) (entries : List Entry) (a b : Applier R)
    → 0 < a.last_applied_index
    → a.last_applied_index + length entries ≤ u64_max
    → apply_all decode_eval decode_conf entries a ≡ ok b
    → Reaches a entries b
unfolding apply_all
apply_all-Reaches decode_eval decode_conf [] a b pos bound h = (tt, ground (arith, h))
apply_all-Reaches decode_eval decode_conf (entry ∷ entries) a b pos bound h =
    let (next, first, rest) =
      bind_ok (apply_entry decode_eval decode_conf entry a)
        (apply_all decode_eval decode_conf entries) b h in
    let (here, there) =
      apply_entry-index decode_eval decode_conf entry a next pos (omega (arith, bound)) first in
    let moved : next.last_applied_index ≡ a.last_applied_index + 1 = there ∙ here in
    let (follow, reached) =
      apply_all-Reaches decode_eval decode_conf entries next b (omega (arith, moved))
        (omega (arith, moved, bound)) rest in
    ((here, subst (λ n. AreConsecutive n entries) moved follow), omega (arith, moved, reached))

index_of : {R : RawDb} → Result (Applier R × List Answer) → ℕ
index_of (ok p) = p.0.last_applied_index
index_of (err x) = 0
index_of panicked = 0

states_of : {R : RawDb} → Result (Applier R × List Answer) → List ReadState
states_of (ok p) = p.0.read_states
states_of (err x) = []
states_of panicked = []

requests_of : {R : RawDb} → Result (Applier R × List Answer) → Requests
requests_of (ok p) = p.0.read_requests
requests_of (err x) = []
requests_of panicked = []

answers_of : {R : RawDb} → Result (Applier R × List Answer) → List Answer
answers_of (ok p) = p.1
answers_of (err x) = []
answers_of panicked = []

abbrev with_reads :
    {R : RawDb} → List Answer → Applier R × List Answer → Result (Applier R × List Answer)
with_reads proposals r = ok (r.0, proposals ++ r.1)

-- What the last step of a run answers, with the answers to proposals in front.
response_reads-IsServed :
    {R : RawDb} (a b : Applier R) (proposals answers : List Answer)
    → with_reads proposals (response_cached_read_states a) ≡ ok (b, answers)
    → (b.last_applied_index ≡ a.last_applied_index)
      × All (λ rs. b.last_applied_index < rs.index) b.read_states
      × All (IsServed b.last_applied_index a.read_requests (b.read_requests, answers)) a.read_states
unfolding response_cached_read_states index_of states_of requests_of answers_of
response_reads-IsServed a b proposals answers h =
    let out : Requests × List Answer =
      answer_reads a.last_applied_index a.read_states a.read_requests in
    let last : a.last_applied_index ≡ b.last_applied_index = ap index_of h in
    let states : later_reads a.last_applied_index a.read_states ≡ b.read_states = ap states_of h in
    let left : out.0 ≡ b.read_requests = ap requests_of h in
    let sent : proposals ++ out.1 ≡ answers = ap answers_of h in
    (
      sym last,
      subst (All (λ rs. b.last_applied_index < rs.index)) states (
          subst (λ n. All (λ rs. n < rs.index) (later_reads a.last_applied_index a.read_states))
            last (later_reads-All a.last_applied_index a.read_states)),
      All-mono a.read_states
          (λ rs served le.
            let (answered, none_left) = served (subst (λ n. rs.index ≤ n) (sym last) le) in
            (
              subst (AreAnswered (waiting rs.request_ctx a.read_requests)) sent (
                  AreAnswered-right (waiting rs.request_ctx a.read_requests) proposals out.1 (
                    subst (λ l. AreAnswered l out.1)
                      (senders_of-waiting rs.request_ctx a.read_requests) answered)),
              subst (λ m. waiting rs.request_ctx m ≡ []) left
                  (sym (senders_of-waiting rs.request_ctx out.0) ∙ none_left),
            ))
          (answer_reads-IsServedIn a.last_applied_index a.read_states a.read_requests),
    )

-- Where an entry has been applied before, entries that are applied follow the last one without a gap,
-- which is in the range of a u64, and the last applied index is then that of the last entry. Of the
-- reads that were waiting each one for an index up to it has all its senders answered, and none of them
-- is kept; only those for a later index still wait.
pub apply_entries-reach :
    {R : RawDb} (P : Prost) (decode_eval : Bytes → Option EvalResult)
    (decode_conf : Bytes → Option (List ChangeReplica)) (entries : List Entry) (a b : Applier R)
    (answers : List Answer)
    → 0 < a.last_applied_index
    → a.last_applied_index + length entries ≤ u64_max
    → apply_entries P decode_eval decode_conf entries a ≡ ok (b, answers)
    → AreConsecutive a.last_applied_index entries
      × (b.last_applied_index ≡ a.last_applied_index + length entries)
      × All (λ rs. b.last_applied_index < rs.index) b.read_states
      × All (IsServed b.last_applied_index a.read_requests (b.read_requests, answers)) a.read_states
unfolding apply_entries
apply_entries-reach P decode_eval decode_conf entries a b answers pos bound h =
    let (plugged, p, h1) = bind_ok (must (start_plug a.state_machine)) _ (b, answers) h in
    let started = record a { state_machine = plugged } in
    let (applied, q, h2) =
      bind_ok (apply_all decode_eval decode_conf entries started) _ (b, answers) h1 in
    let (machine, m, h3) = bind_ok (must (finish_plug P applied.state_machine)) _ (b, answers) h2 in
    let (follow, reached) =
      apply_all-Reaches decode_eval decode_conf entries started applied pos bound q in
    let ids = map entry_id entries in
    let finished = record applied { state_machine = machine } in
    let answered = (response_proposals ids finished).0 in
    let (last, later, served) =
      response_reads-IsServed answered b (response_proposals ids finished).1 answers h3 in
    let (states, requests) = response_proposals-KeepsReads ids finished in
    let (states', requests') =
      apply_all-KeepsReads decode_eval decode_conf entries started applied q in
    (
      follow,
      last ∙ response_proposals-index ids finished ∙ reached,
      later,
      subst
          (λ rss.
            All (IsServed b.last_applied_index a.read_requests (b.read_requests, answers)) rss)
          (states ∙ states')
          (subst
            (λ r.
              All (IsServed b.last_applied_index r (b.read_requests, answers)) answered.read_states)
            (requests ∙ requests') served),
    )
