-- ===== src/SessionRuntime/Models/Records.antt =====
-- The rows of internal/aigc/sessionruntime/models.go and the arguments of store.go. A time is its
-- count of nanoseconds since Go's zero time, and *time.Time is an `Option`.
use dora_agent.Base.{Bool, Option, String, ℕ}
use dora_agent.SessionRuntime.Models.Status.{
  ContinuationExecutor, ContinuationStatus, InputStatus, InputType, TurnStatus,
}

pub record InputRecord : Type 0 where
  pub input_id : String
  pub session_id : String
  pub input_type : InputType
  pub source_id : String
  pub event_id : String
  pub payload : String
  pub priority : ℕ
  pub enqueue_seq : ℕ
  pub context_message_seq : ℕ
  pub status : InputStatus
  pub turn_id : String
  pub claim_owner : String
  pub claim_fence : ℕ
  pub lease_until : Option ℕ
  pub attempts : ℕ
  pub available_at : ℕ
  pub error_code : String
  pub error_message : String
  pub created_at : ℕ
  pub updated_at : ℕ
  pub resolved_at : Option ℕ

pub record RuntimeLease : Type 0 where
  pub session_id : String
  pub owner_id : String
  pub fence_token : ℕ
  pub lease_until : ℕ
  pub updated_at : ℕ

pub record Fence : Type 0 where
  pub session_id : String
  pub owner_id : String
  pub fence_token : ℕ

unfoldable pub fence_of : RuntimeLease → Fence
fence_of lease = record {
  session_id = lease.session_id;
  owner_id = lease.owner_id;
  fence_token = lease.fence_token;
}

pub record TurnRun : Type 0 where
  pub turn_id : String
  pub input_id : String
  pub session_id : String
  pub runner_run_id : String
  pub parent_turn_id : String
  pub claim_fence : ℕ
  pub kind : InputType
  pub status : TurnStatus
  pub runner_checkpoint_id : String
  pub attempt : ℕ
  pub context_message_seq : ℕ
  pub context_seq_frozen : Bool
  pub output_payload : String
  pub output_digest : String
  pub error_code : String
  pub error_message : String
  pub created_at : ℕ
  pub updated_at : ℕ
  pub committed_at : Option ℕ

pub record TurnSpec : Type 0 where
  pub turn_id : String
  pub runner_run_id : String
  pub parent_turn_id : String
  pub runner_checkpoint_id : String

pub record Continuation : Type 0 where
  pub approval_id : String
  pub decision_version : ℕ
  pub session_id : String
  pub executor : ContinuationExecutor
  pub execution_epoch : ℕ
  pub status : ContinuationStatus
  pub lease_owner : String
  pub lease_until : Option ℕ
  pub error_code : String
  pub error_message : String
  pub created_at : ℕ
  pub updated_at : ℕ
  pub applied_at : Option ℕ

pub record ContinuationClaim : Type 0 where
  pub approval_id : String
  pub decision_version : ℕ
  pub executor : ContinuationExecutor
  pub execution_epoch : ℕ
  pub lease_owner : String

pub record CommandLedger : Type 0 where
  pub approval_id : String
  pub decision_version : ℕ
  pub command_kind : String
  pub execution_epoch : ℕ
  pub idempotency_key : String
  pub command_payload : String
  pub result_payload : String
  pub created_at : ℕ

pub record Failure : Type 0 where
  pub code : String
  pub message : String

pub record ClaimOptions : Type 0 where
  pub fence : Fence
  pub claim_ttl : ℕ
  pub max_attempts : ℕ

pub record EnqueueResult : Type 0 where
  pub input : InputRecord
  pub enqueued : Bool

-- The columns of events.SessionEvent that terminal_event.go fills.
pub record TerminalEvent : Type 0 where
  pub session_id : String
  pub event_id : String
  pub event_type : String
  pub producer_kind : String
  pub source_key : String
  pub payload : String
