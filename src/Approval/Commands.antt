-- ===== src/Approval/Commands.antt =====
-- internal/aigc/approval/store.go: what a decision or a close asks for.
use Prim.Native.Char.{code}
use dora_agent.Approval.Models.{
  ApprovalError, ApprovalStatus, VersionBinding, approval_cancelled, approval_expired,
  approval_stale, invalid_approval, status_text,
}
use dora_agent.Approval.Requests.{normalize_binding, now_or}
use dora_agent.Base.{
  Bool, Option, Result, String, err, false, if◌then◌else◌, is_blank, leb, lt64, nat_eq, none, not,
  ok, require, some, trim_space, true, ℕ, ◌&&◌, ◌+◌, ◌>>=◌, ◌>>◌,
}

-- strings.ToLower(s) == t, for a word t of the letters a to z without k: no other character than A to
-- Z is lowered to one of them.
abbrev pub lower_code : ℕ → ℕ
lower_code n = if leb 65 n && leb n 90 then n + 32 else n

abbrev pub lowers_to : String → String → Bool
lowers_to String.[] String.[] = true
lowers_to (String.◌∷◌ a s) (String.◌∷◌ b t) = nat_eq (lower_code (code a)) (code b) && lowers_to s t
lowers_to _ _ = false

pub record DecideCommand : Type 0 where
  pub approval_id : String
  pub expected_decision_version : ℕ
  pub idempotency_key : String
  pub decision : String
  pub actor_id : String
  pub reason : String
  pub current_binding : VersionBinding
  pub now : ℕ

pub record CloseCommand : Type 0 where
  pub approval_id : String
  pub expected_decision_version : ℕ
  pub idempotency_key : String
  pub status : ApprovalStatus
  pub actor_id : String
  pub reason : String
  pub now : ℕ

-- Only a close has a terminal status.
pub record DecisionRequest : Type 0 where
  pub approval_id : String
  pub expected_decision_version : ℕ
  pub idempotency_key : String
  pub requested_decision : String
  pub actor_id : String
  pub reason : String
  pub observed_binding : Option VersionBinding
  pub terminal_status : Option ApprovalStatus
  pub now : ℕ

abbrev pub trimmed_request : DecisionRequest → ℕ → DecisionRequest
trimmed_request r clock = record r {
  approval_id = trim_space r.approval_id;
  idempotency_key = trim_space r.idempotency_key;
  requested_decision = trim_space r.requested_decision;
  actor_id = trim_space r.actor_id;
  reason = trim_space r.reason;
  now = now_or r.now clock;
}

unfoldable pub normalize_decision_request :
    DecisionRequest → ℕ → Result ApprovalError DecisionRequest
normalize_decision_request r clock = do
  require (not (is_blank r.approval_id) && not (is_blank r.idempotency_key))
      (invalid_approval "approval id and decision idempotency key are required")
  require (not (lt64 r.expected_decision_version 0))
      (invalid_approval "expected decision version cannot be negative")
  ok (trimmed_request r clock)

unfoldable pub decision_word : String → Result ApprovalError String
decision_word s =
    if lowers_to (trim_space s) "approved"
    then ok "approved"
    else if lowers_to (trim_space s) "rejected"
    then ok "rejected"
    else err (invalid_approval "decision must be approved or rejected")

unfoldable pub decision_request_from_command :
    DecideCommand → ℕ → Result ApprovalError DecisionRequest
decision_request_from_command q clock = do
  decision ← decision_word q.decision
  normalize_decision_request
      (record {
        approval_id = q.approval_id;
        expected_decision_version = q.expected_decision_version;
        idempotency_key = q.idempotency_key;
        requested_decision = decision;
        actor_id = q.actor_id;
        reason = q.reason;
        observed_binding = some (normalize_binding q.current_binding);
        terminal_status = none;
        now = q.now;
      })
      clock

abbrev pub is_close_status : ApprovalStatus → Bool
is_close_status approval_stale = true
is_close_status approval_expired = true
is_close_status approval_cancelled = true
is_close_status _ = false

unfoldable pub decision_request_from_close : CloseCommand → ℕ → Result ApprovalError DecisionRequest
decision_request_from_close q clock = do
  require (is_close_status q.status)
      (invalid_approval "close status must be stale, expired, or cancelled")
  normalize_decision_request
      (record {
        approval_id = q.approval_id;
        expected_decision_version = q.expected_decision_version;
        idempotency_key = q.idempotency_key;
        requested_decision = status_text q.status;
        actor_id = q.actor_id;
        reason = q.reason;
        observed_binding = none;
        terminal_status = some q.status;
        now = q.now;
      })
      clock
