-- ===== src/Approval/Requests.antt =====
-- The creation of approvals in internal/aigc/approval/models.go: normalizeApproval and sameApproval.
use dora_agent.Approval.Models.{
  Approval, ApprovalError, ExecutionMode, FrozenCommand, ReviewMode, VersionBinding,
  approval_pending, binding_eq, execution_durable, execution_eq, execution_interrupt,
  invalid_approval, other_review, review_durable, review_eq, review_interrupt,
}
use dora_agent.Base.{
  Bool, Codec, Option, Result, String, err, false, if◌then◌else◌, is_blank, is_empty, ltb, nat_eq,
  none, not, ok, pos64, require, some, str_eq, trim_space, true, ℕ, ◌&&◌, ◌>>=◌, ◌>>◌,
}

unfoldable pub normalize_binding : VersionBinding → VersionBinding
normalize_binding b = record b {
  artifact_id = trim_space b.artifact_id;
  storyboard_id = trim_space b.storyboard_id;
  target_id = trim_space b.target_id;
}

abbrev pub given_payload : String → String
given_payload payload = if is_empty payload then "{}" else payload

unfoldable pub validate_review_execution_mode :
    ReviewMode → ExecutionMode → Result ApprovalError (Unit {0})
validate_review_execution_mode review_interrupt execution =
    require (execution_eq execution execution_interrupt)
      (invalid_approval "interrupt review must start in interrupt execution mode")
validate_review_execution_mode review_durable execution =
    require (execution_eq execution execution_durable)
      (invalid_approval "durable review must start in durable execution mode")
validate_review_execution_mode (other_review t) execution =
    err (invalid_approval "unsupported review mode")

-- The zero time stands for the reading of the clock, which is not zero itself.
abbrev pub now_or : ℕ → ℕ → ℕ
now_or given clock = if nat_eq given 0 then clock else given

unfoldable pub check_expiry : Option ℕ → ℕ → Result ApprovalError (Unit {0})
check_expiry none now = ok tt
check_expiry (some expires) now =
    require (ltb now expires) (invalid_approval "approval expiry must be in the future")

-- The approval as it is stored first.
unfoldable pub opened_approval : Approval → FrozenCommand → FrozenCommand → ℕ → Approval
unfolding normalize_binding
opened_approval a approve reject now = record {
  id = trim_space a.id;
  idempotency_key = trim_space a.idempotency_key;
  tenant_id = trim_space a.tenant_id;
  user_id = trim_space a.user_id;
  session_id = trim_space a.session_id;
  artifact_type = trim_space a.artifact_type;
  binding = normalize_binding a.binding;
  review_mode = a.review_mode;
  execution_mode = a.execution_mode;
  execution_epoch = 1;
  status = approval_pending;
  decision_version = 0;
  approve_command = approve;
  reject_command = reject;
  checkpoint_mapping_id = "";
  mapping_epoch = 0;
  created_at = now;
  updated_at = now;
  expires_at = a.expires_at;
  decided_at = none;
}

unfoldable pub check_approval : Approval → Result ApprovalError (Unit {0})
unfolding validate_review_execution_mode
check_approval a = do
  require
      (not (is_blank a.id)
        && not (is_blank a.idempotency_key)
        && not (is_blank a.session_id)
        && not (is_blank a.artifact_type))
      (invalid_approval "approval id, idempotency key, session id and artifact type are required")
  require (not (is_blank a.binding.artifact_id) && pos64 a.binding.artifact_version)
      (invalid_approval "approval artifact id and positive version are required")
  validate_review_execution_mode a.review_mode a.execution_mode

unfoldable pub check_frozen_commands :
    FrozenCommand → FrozenCommand → Result ApprovalError (Unit {0})
check_frozen_commands approve reject =
    require
      (not (str_eq approve.kind reject.kind)
        && not (str_eq approve.idempotency_key reject.idempotency_key))
      (invalid_approval "approve and reject commands require distinct kinds and idempotency keys")

module _ (c : Codec) where
  unfoldable pub normalize_frozen_command : FrozenCommand → Result ApprovalError FrozenCommand
  normalize_frozen_command command = do
    let kind = trim_space command.kind
    let key = trim_space command.idempotency_key
    let payload = given_payload command.payload
    require (not (is_empty kind) && not (is_empty key))
        (invalid_approval "kind and idempotency key are required")
    require (c.valid payload) (invalid_approval "payload must be valid JSON")
    ok (record { kind = kind; idempotency_key = key; payload = payload })

  unfoldable pub normalize_approval : Approval → ℕ → Result ApprovalError Approval
  unfolding normalize_frozen_command check_approval check_frozen_commands check_expiry
  normalize_approval a now = do
    check_approval a
    approve ← normalize_frozen_command a.approve_command
    reject ← normalize_frozen_command a.reject_command
    check_frozen_commands approve reject
    check_expiry a.expires_at now
    ok (opened_approval a approve reject now)

unfoldable pub same_frozen_command : FrozenCommand → FrozenCommand → Bool
same_frozen_command a b =
    str_eq a.kind b.kind && str_eq a.idempotency_key b.idempotency_key && str_eq a.payload b.payload

abbrev pub same_optional_time : Option ℕ → Option ℕ → Bool
same_optional_time none none = true
same_optional_time (some a) (some b) = nat_eq a b
same_optional_time _ _ = false

unfoldable pub same_approval : Approval → Approval → Bool
unfolding same_frozen_command binding_eq
same_approval a b =
    str_eq a.id b.id
    && str_eq a.idempotency_key b.idempotency_key
    && str_eq a.tenant_id b.tenant_id
    && str_eq a.user_id b.user_id
    && str_eq a.session_id b.session_id
    && str_eq a.artifact_type b.artifact_type
    && binding_eq a.binding b.binding
    && review_eq a.review_mode b.review_mode
    && execution_eq a.execution_mode b.execution_mode
    && same_frozen_command a.approve_command b.approve_command
    && same_frozen_command a.reject_command b.reject_command
    && same_optional_time a.expires_at b.expires_at
