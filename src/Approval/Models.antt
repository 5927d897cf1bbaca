-- ===== src/Approval/Models.antt =====
-- The records and enumerations of internal/aigc/approval/models.go.
use dora_agent.Base.{
  Bool, Option, String, false, if◌then◌else◌, is_empty, nat_eq, not, str_eq, trim_space, true, ℕ,
  ◌&&◌, ◌||◌,
}

pub data ApprovalStatus : Type 0 where
  approval_pending approval_approved approval_rejected : ApprovalStatus
  approval_stale approval_expired approval_cancelled : ApprovalStatus
  other_status : String → ApprovalStatus

pub data ReviewMode : Type 0 where
  review_interrupt review_durable : ReviewMode
  other_review : String → ReviewMode

pub data ExecutionMode : Type 0 where
  execution_interrupt execution_durable execution_fallback : ExecutionMode
  other_execution : String → ExecutionMode

pub data ApprovalOutboxStatus : Type 0 where
  outbox_pending outbox_published outbox_dead : ApprovalOutboxStatus

pub data ApprovalError : Type 0 where
  -- A plain validation error, with its text.
  invalid_approval : String → ApprovalError
  approval_not_found approval_already_decided approval_version_conflict : ApprovalError
  approval_key_conflict approval_transition review_mode_immutable : ApprovalError
  fallback_fenced continuation_busy primary_review_pending : ApprovalError

unfoldable pub status_text : ApprovalStatus → String
status_text approval_pending = "pending"
status_text approval_approved = "approved"
status_text approval_rejected = "rejected"
status_text approval_stale = "stale"
status_text approval_expired = "expired"
status_text approval_cancelled = "cancelled"
status_text (other_status t) = t

unfoldable pub execution_text : ExecutionMode → String
execution_text execution_interrupt = "interrupt"
execution_text execution_durable = "durable"
execution_text execution_fallback = "durable_fallback"
execution_text (other_execution t) = t

abbrev pub is_pending_approval : ApprovalStatus → Bool
is_pending_approval approval_pending = true
is_pending_approval _ = false

abbrev pub review_eq : ReviewMode → ReviewMode → Bool
review_eq review_interrupt review_interrupt = true
review_eq review_durable review_durable = true
review_eq (other_review a) (other_review b) = str_eq a b
review_eq _ _ = false

abbrev pub execution_eq : ExecutionMode → ExecutionMode → Bool
execution_eq execution_interrupt execution_interrupt = true
execution_eq execution_durable execution_durable = true
execution_eq execution_fallback execution_fallback = true
execution_eq (other_execution a) (other_execution b) = str_eq a b
execution_eq _ _ = false

pub record VersionBinding : Type 0 where
  pub artifact_id : String
  pub artifact_version : ℕ
  pub storyboard_id : String
  pub storyboard_version : ℕ
  pub target_id : String
  pub target_revision : ℕ
  pub prompt_revision : ℕ
  pub generation_epoch : ℕ

-- Go's == on bindings.
unfoldable pub binding_eq : VersionBinding → VersionBinding → Bool
binding_eq a b =
    str_eq a.artifact_id b.artifact_id
    && nat_eq a.artifact_version b.artifact_version
    && str_eq a.storyboard_id b.storyboard_id
    && nat_eq a.storyboard_version b.storyboard_version
    && str_eq a.target_id b.target_id
    && nat_eq a.target_revision b.target_revision
    && nat_eq a.prompt_revision b.prompt_revision
    && nat_eq a.generation_epoch b.generation_epoch

-- A binding to a target compares the target, its revisions and the epoch, else the storyboard's
-- version.
unfoldable pub matches : VersionBinding → VersionBinding → Bool
matches frozen current =
    str_eq frozen.artifact_id current.artifact_id
    && nat_eq frozen.artifact_version current.artifact_version
    && str_eq frozen.storyboard_id current.storyboard_id
    && (if not (is_empty frozen.target_id)
        then str_eq frozen.target_id current.target_id
          && nat_eq frozen.target_revision current.target_revision
          && nat_eq frozen.prompt_revision current.prompt_revision
          && nat_eq frozen.generation_epoch current.generation_epoch
        else nat_eq frozen.storyboard_version current.storyboard_version)

pub record FrozenCommand : Type 0 where
  pub kind : String
  pub idempotency_key : String
  pub payload : String

pub record Approval : Type 0 where
  pub id : String
  pub idempotency_key : String
  pub tenant_id : String
  pub user_id : String
  pub session_id : String
  pub artifact_type : String
  pub binding : VersionBinding
  pub review_mode : ReviewMode
  pub execution_mode : ExecutionMode
  pub execution_epoch : ℕ
  pub status : ApprovalStatus
  pub decision_version : ℕ
  pub approve_command : FrozenCommand
  pub reject_command : FrozenCommand
  pub checkpoint_mapping_id : String
  pub mapping_epoch : ℕ
  pub created_at : ℕ
  pub updated_at : ℕ
  pub expires_at : Option ℕ
  pub decided_at : Option ℕ

pub record ApprovalDecision : Type 0 where
  pub approval_id : String
  pub decision_version : ℕ
  pub idempotency_key : String
  pub requested_decision : String
  pub effective_status : ApprovalStatus
  pub actor_id : String
  pub reason : String
  pub observed_binding : Option VersionBinding
  pub command_kind : String
  pub command_idempotency_key : String
  pub command_payload : String
  pub created_at : ℕ

pub record ApprovalOutbox : Type 0 where
  pub id : String
  pub idempotency_key : String
  pub event_type : String
  pub destination : String
  pub aggregate_type : String
  pub aggregate_id : String
  pub aggregate_version : ℕ
  pub session_id : String
  pub payload : String
  pub status : ApprovalOutboxStatus
  pub attempts : ℕ
  pub available_at : ℕ
  pub created_at : ℕ
  pub published_at : Option ℕ

abbrev pub is_primary_type : String → Bool
is_primary_type t = str_eq t "creation_spec_revision" || str_eq t "storyboard_revision"

unfoldable pub is_primary_review_approval : Approval → Bool
is_primary_review_approval a =
    is_pending_approval a.status && is_primary_type (trim_space a.artifact_type)
