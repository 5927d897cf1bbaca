-- ===== src/Generation/Models.antt =====
-- The records of internal/aigc/generation/models.go and barrier.go, with the fields that barrier.go
-- reads or writes. The other fields are only carried along.
use dora_agent.Base.{Bool, List, Option, String, Table, ℕ}
use dora_agent.Generation.StateMachine.{BatchStatus, JobStatus, OperationStatus}

pub record CostSummary : Type 0 where
  pub gross_charged_points : ℕ
  pub refunded_points : ℕ
  pub net_charged_points : ℕ
  pub breakdown : Table ℕ
  pub balance_after : Option ℕ

pub record GenerationJob : Type 0 where
  pub id : String
  pub target_id : String
  pub asset_slot : String
  pub required : Bool
  pub status : JobStatus
  pub result_asset_ids : List String
  pub result_disposition : String
  pub charged_points : ℕ
  pub compensated_points : ℕ
  pub cost_breakdown : Table ℕ
  pub billing_transaction_id : String
  pub compensation_status : String
  pub refund_transaction_id : String
  pub balance_after : Option ℕ
  pub error_code : String
  pub updated_at : ℕ

pub record GenerationBatch : Type 0 where
  pub id : String
  pub session_id : String
  pub workflow_run_id : String
  pub stage_run_id : String
  pub tool_call_id : String
  pub status : BatchStatus
  pub completion_policy : String
  pub min_success : ℕ
  pub wake_policy : String
  pub required_jobs : ℕ
  pub optional_jobs : ℕ
  pub succeeded_jobs : ℕ
  pub failed_jobs : ℕ
  pub cancelled_jobs : ℕ
  pub cost : CostSummary
  pub cancel_requested : Bool
  pub error_code : String
  pub error_message : String
  pub version : ℕ
  pub terminal_at : Option ℕ

pub record JobTerminalResult : Type 0 where
  pub job_id : String
  pub target_id : String
  pub asset_slot : String
  pub status : JobStatus
  pub result_disposition : String
  pub result_asset_ids : List String
  pub error_code : String
  pub gross_points : ℕ
  pub refunded_points : ℕ
  pub net_points : ℕ

pub record PostBatchPayload : Type 0 where
  pub session_id : String
  pub workflow_run_id : String
  pub stage_run_id : String
  pub operation_id : String
  pub tool_call_id : String
  pub batch_id : String
  pub batch_version : ℕ
  pub status : BatchStatus
  pub cost : CostSummary
  pub jobs : List JobTerminalResult
  pub needs_agent_explanation : Bool
  pub created_at : ℕ

-- The result is the map of a payload's fields.
pub record GenerationOperation : Type 0 where
  pub id : String
  pub status : OperationStatus
  pub result : Option PostBatchPayload
  pub error_code : String
  pub error_message : String

pub record OutboxEvent : Type 0 where
  pub idempotency_key : String
  pub event_type : String
  pub destination : String
  pub aggregate_type : String
  pub aggregate_id : String
  pub aggregate_version : ℕ
  pub payload : PostBatchPayload

-- Without a payload, Go has the zero payload.
pub record BarrierResult : Type 0 where
  pub terminal : Bool
  pub event_created : Bool
  pub payload : Option PostBatchPayload
