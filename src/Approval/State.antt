-- ===== src/Approval/State.antt =====
-- The struct MemoryStore of internal/aigc/approval/memory_store.go, its outbox, and the reads.
use dora_agent.Approval.Candidates.{CandidateBatch}
use dora_agent.Approval.Models.{
  Approval, ApprovalDecision, ApprovalError, ApprovalOutbox, approval_key_conflict,
  approval_not_found, invalid_approval, is_primary_review_approval,
}
use dora_agent.Base.{
  Bool, Option, Result, String, Table, [], decimal, err, if◌then◌else◌, insert, is_blank, lookup,
  none, not, ok, or_fail, require, some, str_eq, trim_space, zero_byte, ℕ, ◌&&◌, ◌&◌, ◌>>=◌, ◌>>◌,
  ◌∷◌,
}
use dora_agent.SessionRuntime.Models.Records.{Continuation}

pub record ApprovalStore : Type 0 where
  pub approvals : Table Approval
  pub approval_by_create_key : Table String
  pub decisions : Table ApprovalDecision
  pub decision_by_key : Table String
  pub continuations : Table Continuation
  pub outbox : Table ApprovalOutbox
  pub outbox_by_key : Table String
  pub candidate_batches : Table CandidateBatch
  pub candidate_batch_by_key : Table String

unfoldable pub new_approval_store : ApprovalStore
new_approval_store = record {
  approvals = [];
  approval_by_create_key = [];
  decisions = [];
  decision_by_key = [];
  continuations = [];
  outbox = [];
  outbox_by_key = [];
  candidate_batches = [];
  candidate_batch_by_key = [];
}

unfoldable pub continuation_key : String → ℕ → String
continuation_key id version = trim_space id & zero_byte & decimal version

-- The row under an identity that an index holds.
abbrev pub row_at : {V : Type 0} → Option String → Table V → Option V
row_at none rows = none
row_at (some id) rows = lookup id rows

unfoldable pub get_approval : String → ApprovalStore → Result ApprovalError Approval
get_approval id s = or_fail (lookup (trim_space id) s.approvals) approval_not_found

unfoldable pub find_primary_review : String → Table Approval → Option Approval
find_primary_review session [] = none
find_primary_review session ((id, a) ∷ rest) =
    let later = find_primary_review session rest in
    if str_eq a.session_id session && is_primary_review_approval a then some a else later

unfoldable pub get_pending_primary_review_by_session :
    String → ApprovalStore → Result ApprovalError Approval
unfolding find_primary_review
get_pending_primary_review_by_session session s = do
  require (not (is_blank session)) (invalid_approval "session id is required")
  or_fail (find_primary_review (trim_space session) s.approvals) approval_not_found

unfoldable pub get_decision : String → ℕ → ApprovalStore → Result ApprovalError ApprovalDecision
unfolding continuation_key
get_decision id version s =
    or_fail (lookup (continuation_key id version) s.decisions) approval_not_found

unfoldable pub get_approval_continuation :
    String → ℕ → ApprovalStore → Result ApprovalError Continuation
unfolding continuation_key
get_approval_continuation id version s =
    or_fail (lookup (continuation_key id version) s.continuations) approval_not_found

unfoldable pub get_candidate_batch_by_key :
    String → ApprovalStore → Result ApprovalError CandidateBatch
get_candidate_batch_by_key key s =
    or_fail (row_at (lookup (trim_space key) s.candidate_batch_by_key) s.candidate_batches)
      approval_not_found

abbrev pub same_outbox : ApprovalOutbox → ApprovalOutbox → Bool
same_outbox existing event =
    str_eq existing.id event.id
    && str_eq existing.event_type event.event_type
    && str_eq existing.aggregate_id event.aggregate_id

-- An event whose key is known is not written again; another event under its key is a conflict.
unfoldable pub known_outbox :
    Option ApprovalOutbox → ApprovalOutbox → ApprovalStore → Result ApprovalError ApprovalStore
known_outbox none event s = err approval_key_conflict
known_outbox (some existing) event s = do
  require (same_outbox existing event) approval_key_conflict
  ok s

abbrev pub put_outbox : ApprovalOutbox → ApprovalStore → ApprovalStore
put_outbox event s = record s {
  outbox = insert event.id event s.outbox;
  outbox_by_key = insert event.idempotency_key event.id s.outbox_by_key;
}

unfoldable pub append_to_outbox :
    Option String → ApprovalOutbox → ApprovalStore → Result ApprovalError ApprovalStore
append_to_outbox none event s = ok (put_outbox event s)
append_to_outbox (some id) event s = known_outbox (lookup id s.outbox) event s

unfoldable pub append_outbox : ApprovalOutbox → ApprovalStore → Result ApprovalError ApprovalStore
unfolding append_to_outbox
append_outbox event s = append_to_outbox (lookup event.idempotency_key s.outbox_by_key) event s

-- The event under a key; where its row is missing, Go has a zero event.
unfoldable pub current_outbox :
    String → ApprovalStore → Result ApprovalError (Option ApprovalOutbox)
current_outbox key s = do
  id ← or_fail (lookup key s.outbox_by_key) approval_not_found
  ok (lookup id s.outbox)
