-- ===== src/Approval/Store.antt =====
-- Create, CreateCandidateApprovalBatch, Decide and Close of
-- internal/aigc/approval/memory_store.go.
use dora_agent.Approval.Candidates.{CandidateBatch, normalize_candidate_batch, same_candidate_batch}
use dora_agent.Approval.Commands.{
  CloseCommand, DecideCommand, DecisionRequest, decision_request_from_close,
  decision_request_from_command,
}
use dora_agent.Approval.Decisions.{continuation_event, decision_event_type, decision_outbox_key}
use dora_agent.Approval.Models.{
  Approval, ApprovalDecision, ApprovalError, ApprovalOutbox, VersionBinding, approval_key_conflict,
  approval_not_found, binding_eq, is_primary_review_approval, primary_review_pending,
}
use dora_agent.Approval.Outboxes.{Prepared, prepare_decision}
use dora_agent.Approval.Requests.{normalize_approval, same_approval}
use dora_agent.Approval.State.{
  ApprovalStore, append_outbox, continuation_key, current_outbox, find_primary_review,
}
use dora_agent.Base.{
  Bool, Codec, Option, Result, String, err, false, insert, lookup, none, not, ok, or_fail, require,
  some, str_eq, true, ℕ, ◌&&◌, ◌>>=◌, ◌>>◌, ◌||◌,
}
use dora_agent.SessionRuntime.Models.Records.{Continuation}

-- An approval that stands there already is returned if it is the same.
unfoldable pub created_again :
    Option Approval
    → Approval
    → ApprovalStore
    → Result ApprovalError (ApprovalStore × (Approval × Bool))
created_again none a s = err approval_key_conflict
created_again (some existing) a s = do
  require (same_approval existing a) approval_key_conflict
  ok (s, (existing, false))

abbrev pub put_approval : Approval → ApprovalStore → ApprovalStore
put_approval a s = record s { approvals = insert a.id a s.approvals }

abbrev pub is_missing : {V : Type 0} → Option V → Bool
is_missing none = true
is_missing (some v) = false

-- A session has one pending primary review at most.
unfoldable pub admit_approval :
    Approval → ApprovalStore → Result ApprovalError (ApprovalStore × (Approval × Bool))
unfolding find_primary_review
admit_approval a s = do
  require
      (not (is_primary_review_approval a)
        || is_missing (find_primary_review a.session_id s.approvals))
      primary_review_pending
  ok (
    record (put_approval a s) {
      approval_by_create_key = insert a.idempotency_key a.id s.approval_by_create_key;
    },
    (a, true),
  )

-- Under a known key only the approval of that key is created again; the two ids are compared with the
-- rest.
unfoldable pub create_by_key :
    Option String
    → Approval
    → ApprovalStore
    → Result ApprovalError (ApprovalStore × (Approval × Bool))
create_by_key none a s = admit_approval a s
create_by_key (some id) a s = created_again (lookup id s.approvals) a s

unfoldable pub create_by_id :
    Option Approval
    → Approval
    → ApprovalStore
    → Result ApprovalError (ApprovalStore × (Approval × Bool))
unfolding create_by_key
create_by_id none a s = create_by_key (lookup a.idempotency_key s.approval_by_create_key) a s
create_by_id (some existing) a s = created_again (some existing) a s

unfoldable pub create :
    Codec → Approval → ℕ → ApprovalStore → Result ApprovalError (ApprovalStore × (Approval × Bool))
create c wanted now s = do
  a ← normalize_approval c wanted now
  create_by_id (lookup a.id s.approvals) a s

unfoldable pub batch_again :
    Option CandidateBatch
    → CandidateBatch
    → ApprovalStore
    → Result ApprovalError (ApprovalStore × (CandidateBatch × Bool))
batch_again none b s = err approval_key_conflict
batch_again (some existing) b s = do
  require (same_candidate_batch existing b) approval_key_conflict
  ok (s, (existing, false))

unfoldable pub create_batch_by_key :
    Option String
    → CandidateBatch
    → ApprovalStore
    → Result ApprovalError (ApprovalStore × (CandidateBatch × Bool))
create_batch_by_key (some id) b s = batch_again (lookup id s.candidate_batches) b s
create_batch_by_key none b s = ok (
  record s {
    candidate_batches = insert b.id b s.candidate_batches;
    candidate_batch_by_key = insert b.idempotency_key b.id s.candidate_batch_by_key;
  },
  (b, true),
)

unfoldable pub create_batch_by_id :
    Option CandidateBatch
    → CandidateBatch
    → ApprovalStore
    → Result ApprovalError (ApprovalStore × (CandidateBatch × Bool))
create_batch_by_id (some existing) b s = batch_again (some existing) b s
create_batch_by_id none b s =
    create_batch_by_key (lookup b.idempotency_key s.candidate_batch_by_key) b s

unfoldable pub create_candidate_approval_batch :
    CandidateBatch
    → ℕ
    → ApprovalStore
    → Result ApprovalError (ApprovalStore × (CandidateBatch × Bool))
create_candidate_approval_batch wanted now s = do
  b ← normalize_candidate_batch wanted now
  create_batch_by_id (lookup b.id s.candidate_batches) b s

abbrev pub same_observed : Option VersionBinding → Option VersionBinding → Bool
same_observed none none = true
same_observed (some a) (some b) = binding_eq a b
same_observed _ _ = false

unfoldable pub same_decision_request : ApprovalDecision → DecisionRequest → Bool
unfolding binding_eq
same_decision_request d r =
    str_eq d.approval_id r.approval_id
    && str_eq d.requested_decision r.requested_decision
    && str_eq d.actor_id r.actor_id
    && str_eq d.reason r.reason
    && same_observed d.observed_binding r.observed_binding

-- A row that is missing is a zero row in Go.
pub record DecisionResult : Type 0 where
  pub approval : Option Approval
  pub decision : ApprovalDecision
  pub continuation : Option Continuation
  pub outbox : Option ApprovalOutbox
  pub created : Bool

-- The key of the event that stands for the decision now, where its rows are there.
unfoldable pub current_decision_key : Option Approval → Option Continuation → String
current_decision_key none none = decision_outbox_key "" 0 0 continuation_event
current_decision_key none (some k) =
    decision_outbox_key "" 0 k.execution_epoch (decision_event_type k.executor)
current_decision_key (some a) none =
    decision_outbox_key a.id a.decision_version 0 continuation_event
current_decision_key (some a) (some k) =
    decision_outbox_key a.id a.decision_version k.execution_epoch (decision_event_type k.executor)

unfoldable pub decision_result :
    ApprovalDecision → ApprovalStore → Result ApprovalError (ApprovalStore × DecisionResult)
unfolding current_decision_key continuation_key
decision_result d s = do
  let a = lookup d.approval_id s.approvals
  let k = lookup (continuation_key d.approval_id d.decision_version) s.continuations
  event ← current_outbox (current_decision_key a k) s
  ok (s, record { approval = a; decision = d; continuation = k; outbox = event; created = false })

-- A decision under a known key.
unfoldable pub decided_again :
    Option ApprovalDecision
    → DecisionRequest
    → ApprovalStore
    → Result ApprovalError (ApprovalStore × DecisionResult)
unfolding decision_result
decided_again none r s = err approval_key_conflict
decided_again (some d) r s = do
  require (same_decision_request d r) approval_key_conflict
  decision_result d s

-- The rows of a decision, written together.
abbrev pub put_decision : String → Prepared → ApprovalStore → ApprovalStore
put_decision key p s = record s {
  approvals = insert p.approval.id p.approval s.approvals;
  decisions = insert key p.decision s.decisions;
  decision_by_key = insert p.decision.idempotency_key key s.decision_by_key;
  continuations = insert key p.continuation s.continuations;
}

unfoldable pub decide_approval :
    Codec
    → Approval
    → DecisionRequest
    → ApprovalStore
    → Result ApprovalError (ApprovalStore × DecisionResult)
unfolding continuation_key
decide_approval c a r s = do
  p ← prepare_decision c a r
  let key = continuation_key p.approval.id p.approval.decision_version
  require (is_missing (lookup key s.decisions)) approval_key_conflict
  s' ← append_outbox p.outbox s
  ok (
    put_decision key p s',
    record {
      approval = some p.approval;
      decision = p.decision;
      continuation = some p.continuation;
      outbox = some p.outbox;
      created = true;
    },
  )

unfoldable pub decide_by_key :
    Codec
    → Option String
    → DecisionRequest
    → ApprovalStore
    → Result ApprovalError (ApprovalStore × DecisionResult)
unfolding decided_again decide_approval
decide_by_key c (some id) r s = decided_again (lookup id s.decisions) r s
decide_by_key c none r s = do
  a ← or_fail (lookup r.approval_id s.approvals) approval_not_found
  decide_approval c a r s

unfoldable pub decide_request :
    Codec → DecisionRequest → ApprovalStore → Result ApprovalError (ApprovalStore × DecisionResult)
unfolding decide_by_key
decide_request c r s = decide_by_key c (lookup r.idempotency_key s.decision_by_key) r s

unfoldable pub decide :
    Codec
    → DecideCommand
    → ℕ
    → ApprovalStore
    → Result ApprovalError (ApprovalStore × DecisionResult)
decide c command now s = do r ← decision_request_from_command command now; decide_request c r s

unfoldable pub close :
    Codec → CloseCommand → ℕ → ApprovalStore → Result ApprovalError (ApprovalStore × DecisionResult)
close c command now s = do r ← decision_request_from_close command now; decide_request c r s
