-- ===== src/Raft/Applier.antt =====
-- The applier of committed entries (src/server/src/raftgroup/applier.rs). A channel is a number, and
-- what is sent is a list of answers. The decoding of entries is a parameter; the changes of the raft
-- library's node and of the cache of replicas are left out of `apply_conf_change`.
pub mod Reads
pub mod Progress
use sekas.Prelude.{
  ℕ, zero, suc, ◌+◌, ◌%◌, Bool, true, false, not, ◌&&◌, Option, none, some, List, [], ◌∷◌, ◌++◌,
  Bytes, ◌==◌, leb, ltb, if◌then◌else◌, le_bytes, bytes_eq, is_empty, u64_mod, retain, map,
}
use sekas.Api.{EntryId, Error, not_leader, Result, ok, err, panicked, ◌>>=◌, ◌>>◌, expect}
use sekas.Engine.RawDb.{RawDb}
use sekas.Engine.Prost.{Prost}
use sekas.Fsm.Members.{ChangeReplica}
use sekas.Fsm.Machine
use sekas.Fsm.Machine.{GroupStateMachine, ApplyEntry, EvalResult, start_plug, finish_plug}

pub record ProposalContext : Type 0 where
  pub index : ℕ
  pub term : ℕ
  pub sender : ℕ

pub record ReadState : Type 0 where
  pub index : ℕ
  pub request_ctx : Bytes

pub record Answer : Type 0 where
  pub to : ℕ
  pub outcome : Result (Unit {0})

pub record Applier (R : RawDb) : Type 0 where
  pub group_id : ℕ
  pub proposal_queue : List ProposalContext
  pub next_read_state_index : ℕ
  pub read_requests : List (Bytes × List ℕ)
  pub read_states : List ReadState
  pub last_applied_index : ℕ
  pub state_machine : GroupStateMachine R

-- `VecDeque::back` and `VecDeque::pop_back`.
unfoldable pub back : List ProposalContext → Option ProposalContext
back [] = none
back (c ∷ []) = some c
back (c ∷ d ∷ cs) = back (d ∷ cs)

unfoldable pub pop_back : List ProposalContext → List ProposalContext
pop_back [] = []
pop_back (c ∷ []) = []
pop_back (c ∷ d ∷ cs) = c ∷ pop_back (d ∷ cs)

-- The senders under a context, and the requests without the context.
unfoldable pub senders_of : Bytes → List (Bytes × List ℕ) → List ℕ
senders_of ctx [] = []
senders_of ctx ((k, senders) ∷ rest) = if bytes_eq k ctx then senders else senders_of ctx rest

unfoldable pub remove_ctx : Bytes → List (Bytes × List ℕ) → List (Bytes × List ℕ)
remove_ctx ctx [] = []
remove_ctx ctx ((k, senders) ∷ rest) =
    if bytes_eq k ctx then remove_ctx ctx rest else (k, senders) ∷ remove_ctx ctx rest

unfoldable pub accepted : List ℕ → List Answer
accepted [] = []
accepted (sender ∷ senders) = record { to = sender; outcome = ok tt } ∷ accepted senders

-- The loop of `response_read_states`: the requests that are left, and the answers.
unfoldable pub answer_reads :
    ℕ → List ReadState → List (Bytes × List ℕ) → List (Bytes × List ℕ) × List Answer
unfolding senders_of remove_ctx accepted
answer_reads last [] requests = (requests, [])
answer_reads last (rs ∷ states) requests =
    if leb rs.index last
    then (let (left, answers) = answer_reads last states (remove_ctx rs.request_ctx requests) in
        (left, accepted (senders_of rs.request_ctx requests) ++ answers))
    else answer_reads last states requests

unfoldable pub later_reads : ℕ → List ReadState → List ReadState
later_reads last states = retain (λ rs. ltb last rs.index) states

module _ {R : RawDb} where
  unfoldable pub delegate_proposal_context : ℕ → ℕ → ℕ → Applier R → Applier R × List Answer
  unfolding back pop_back
  delegate_proposal_context index term sender a =
      let ctx : ProposalContext = record { index = index; term = term; sender = sender } in
      elim (back a.proposal_queue) [
        | none ↦ (record a { proposal_queue = a.proposal_queue ++ ctx ∷ [] }, [])
        | some last ↦
            if leb index last.index
            then (
              record a { proposal_queue = pop_back a.proposal_queue ++ ctx ∷ [] },
              record { to = last.sender; outcome = err (not_leader a.group_id term none) } ∷ [],
            )
            else (record a { proposal_queue = a.proposal_queue ++ ctx ∷ [] }, [])
      ]

  unfoldable pub delegate_read_requests : List ℕ → Applier R → Applier R × Bytes
  unfolding le_bytes remove_ctx
  delegate_read_requests requests a =
      let ctx = le_bytes 8 a.next_read_state_index in
      (
        record a {
          next_read_state_index = (a.next_read_state_index + 1) % u64_mod;
          read_requests = (ctx, requests) ∷ remove_ctx ctx a.read_requests;
        },
        ctx,
      )

  unfoldable pub apply_read_states : List ReadState → Applier R → Applier R × List Answer
  unfolding answer_reads later_reads
  apply_read_states states a =
      let (left, answers) = answer_reads a.last_applied_index states a.read_requests in
      (
        record a {
          read_requests = left;
          read_states = a.read_states ++ later_reads a.last_applied_index states;
        },
        answers,
      )

  unfoldable pub response_cached_read_states : Applier R → Applier R × List Answer
  unfolding answer_reads later_reads
  response_cached_read_states a =
      let (left, answers) = answer_reads a.last_applied_index a.read_states a.read_requests in
      (
        record a {
          read_requests = left;
          read_states = later_reads a.last_applied_index a.read_states;
        },
        answers,
      )

  unfoldable pub response_proposal : EntryId → Applier R → Applier R × List Answer
  response_proposal id a = elim a.proposal_queue [
    | [] ↦ (a, [])
    | ctx ∷ queue ↦
        if ctx.index == id.index
        then (
          record a { proposal_queue = queue },
          record {
            to = ctx.sender;
            outcome =
                if ctx.term == id.term then ok tt else err (not_leader a.group_id id.term none);
          }
              ∷ [],
        )
        else (a, [])
  ]

  unfoldable pub response_proposals : List EntryId → Applier R → Applier R × List Answer
  unfolding response_proposal
  response_proposals [] a = (a, [])
  response_proposals (id ∷ ids) a =
      let (next, answers) = response_proposal id a in
      let (last, rest) = response_proposals ids next in (last, answers ++ rest)

pub data EntryData : Type 0 where
  normal conf_change_v2 : Bytes → EntryData
  conf_change : EntryData

pub record Entry : Type 0 where
  pub id : EntryId
  pub payload : EntryData

-- `Result::expect`.
unfoldable pub must {ℓ} : {A : Type ℓ} → Result A → Result A
must (ok a) = ok a
must (err e) = panicked
must panicked = panicked

module _ (decode_eval_result : Bytes → Option EvalResult)
    (decode_conf_change : Bytes → Option (List ChangeReplica)) where
  -- What the state machine is to apply; the change without data is generated by the raft library to
  -- leave a joint state.
  unfoldable pub entry_to_apply : EntryData → Result ApplyEntry
  entry_to_apply (EntryData.normal []) = ok ApplyEntry.empty
  entry_to_apply (EntryData.normal (b ∷ bytes)) = do
    eval_result ← expect (decode_eval_result (b ∷ bytes))
    ok (ApplyEntry.proposal eval_result)
  entry_to_apply (EntryData.conf_change_v2 []) = ok (ApplyEntry.config_change [])
  entry_to_apply (EntryData.conf_change_v2 (b ∷ bytes)) = do
    changes ← expect (decode_conf_change (b ∷ bytes))
    ok (ApplyEntry.config_change changes)
  entry_to_apply EntryData.conf_change = panicked

  -- One round of the loop of `apply_entries`.
  unfoldable pub apply_entry : {R : RawDb} → Entry → Applier R → Result (Applier R)
  unfolding entry_to_apply must
  apply_entry entry a =
      if not (entry.id.index == (a.last_applied_index + 1) % u64_mod)
        && not (a.last_applied_index == 0)
      then panicked
      else (do
        to_apply ← entry_to_apply entry.payload
        machine ← must (Machine.apply entry.id to_apply a.state_machine)
        ok (record a { last_applied_index = entry.id.index; state_machine = machine }))

  unfoldable pub apply_all : {R : RawDb} → List Entry → Applier R → Result (Applier R)
  unfolding apply_entry
  apply_all [] a = ok a
  apply_all (entry ∷ entries) a = do next ← apply_entry entry a; apply_all entries next

abbrev entry_id : Entry → EntryId
entry_id e = e.id

-- `apply_entries` between its calls of the state machine's plugs.
unfoldable pub apply_entries :
    {R : RawDb}
    → Prost
    → (Bytes → Option EvalResult)
    → (Bytes → Option (List ChangeReplica))
    → List Entry
    → Applier R
    → Result (Applier R × List Answer)
unfolding apply_all response_proposals response_cached_read_states must
apply_entries P decode_eval_result decode_conf_change entries a = do
  plugged ← must (start_plug a.state_machine)
  applied ←
      apply_all decode_eval_result decode_conf_change entries (record a { state_machine = plugged })
  machine ← must (finish_plug P applied.state_machine)
  let (answered, answers) =
      response_proposals (map entry_id entries) (record applied { state_machine = machine })
  let (last, reads) = response_cached_read_states answered
  ok (last, answers ++ reads)
