-- ===== src/Generation/StateMachine.antt =====
-- The statuses of internal/aigc/generation/models.go and the transitions of state_machine.go.
use dora_agent.Base.{Bool, Result, String, false, require, str_eq, true, ◌&&◌, ◌>>◌, ◌||◌}

-- A status is a text in Go: any other text is a value too.
pub data JobStatus : Type 0 where
  job_queued job_running job_waiting_provider job_finalizing job_retry_wait : JobStatus
  job_succeeded job_failed job_cancelled : JobStatus
  other_job : String → JobStatus

pub data BatchStatus : Type 0 where
  batch_waiting_jobs batch_finalizing batch_cancelling : BatchStatus
  batch_completed batch_partial_failed batch_failed batch_cancelled : BatchStatus
  other_batch : String → BatchStatus

pub data OperationStatus : Type 0 where
  operation_accepted operation_waiting_jobs : OperationStatus
  operation_completed operation_partial_failed operation_failed operation_cancelled :
      OperationStatus
  other_operation : String → OperationStatus

pub data GenerationError : Type 0 where
  generation_invalid_transition : GenerationError
  compensation_status_invalid : String → GenerationError

abbrev pub job_status_eq : JobStatus → JobStatus → Bool
job_status_eq job_queued job_queued = true
job_status_eq job_running job_running = true
job_status_eq job_waiting_provider job_waiting_provider = true
job_status_eq job_finalizing job_finalizing = true
job_status_eq job_retry_wait job_retry_wait = true
job_status_eq job_succeeded job_succeeded = true
job_status_eq job_failed job_failed = true
job_status_eq job_cancelled job_cancelled = true
job_status_eq (other_job a) (other_job b) = str_eq a b
job_status_eq _ _ = false

abbrev pub batch_status_eq : BatchStatus → BatchStatus → Bool
batch_status_eq batch_waiting_jobs batch_waiting_jobs = true
batch_status_eq batch_finalizing batch_finalizing = true
batch_status_eq batch_cancelling batch_cancelling = true
batch_status_eq batch_completed batch_completed = true
batch_status_eq batch_partial_failed batch_partial_failed = true
batch_status_eq batch_failed batch_failed = true
batch_status_eq batch_cancelled batch_cancelled = true
batch_status_eq (other_batch a) (other_batch b) = str_eq a b
batch_status_eq _ _ = false

abbrev pub operation_status_eq : OperationStatus → OperationStatus → Bool
operation_status_eq operation_accepted operation_accepted = true
operation_status_eq operation_waiting_jobs operation_waiting_jobs = true
operation_status_eq operation_completed operation_completed = true
operation_status_eq operation_partial_failed operation_partial_failed = true
operation_status_eq operation_failed operation_failed = true
operation_status_eq operation_cancelled operation_cancelled = true
operation_status_eq (other_operation a) (other_operation b) = str_eq a b
operation_status_eq _ _ = false

-- NormalizeStatus(status) != "".
abbrev pub is_known_job_status : JobStatus → Bool
is_known_job_status (other_job t) = false
is_known_job_status _ = true

abbrev pub is_terminal_job_status : JobStatus → Bool
is_terminal_job_status job_succeeded = true
is_terminal_job_status job_failed = true
is_terminal_job_status job_cancelled = true
is_terminal_job_status _ = false

abbrev pub is_terminal_batch_status : BatchStatus → Bool
is_terminal_batch_status batch_completed = true
is_terminal_batch_status batch_partial_failed = true
is_terminal_batch_status batch_failed = true
is_terminal_batch_status batch_cancelled = true
is_terminal_batch_status _ = false

abbrev pub is_terminal_operation_status : OperationStatus → Bool
is_terminal_operation_status operation_completed = true
is_terminal_operation_status operation_partial_failed = true
is_terminal_operation_status operation_failed = true
is_terminal_operation_status operation_cancelled = true
is_terminal_operation_status _ = false

-- jobTransitions[from][to].
abbrev pub job_transitions : JobStatus → JobStatus → Bool
job_transitions job_queued job_running = true
job_transitions job_queued job_cancelled = true
job_transitions job_queued job_failed = true
job_transitions job_running job_waiting_provider = true
job_transitions job_running job_finalizing = true
job_transitions job_running job_retry_wait = true
job_transitions job_running job_failed = true
job_transitions job_running job_cancelled = true
job_transitions job_waiting_provider job_running = true
job_transitions job_waiting_provider job_finalizing = true
job_transitions job_waiting_provider job_retry_wait = true
job_transitions job_waiting_provider job_failed = true
job_transitions job_waiting_provider job_cancelled = true
job_transitions job_finalizing job_retry_wait = true
job_transitions job_finalizing job_succeeded = true
job_transitions job_finalizing job_failed = true
job_transitions job_finalizing job_cancelled = true
job_transitions job_retry_wait job_running = true
job_transitions job_retry_wait job_finalizing = true
job_transitions job_retry_wait job_failed = true
job_transitions job_retry_wait job_cancelled = true
job_transitions _ _ = false

-- batchTransitions[from][to].
abbrev pub batch_transitions : BatchStatus → BatchStatus → Bool
batch_transitions batch_waiting_jobs batch_finalizing = true
batch_transitions batch_waiting_jobs batch_cancelling = true
batch_transitions batch_waiting_jobs batch_completed = true
batch_transitions batch_waiting_jobs batch_partial_failed = true
batch_transitions batch_waiting_jobs batch_failed = true
batch_transitions batch_waiting_jobs batch_cancelled = true
batch_transitions batch_finalizing batch_cancelling = true
batch_transitions batch_finalizing batch_completed = true
batch_transitions batch_finalizing batch_partial_failed = true
batch_transitions batch_finalizing batch_failed = true
batch_transitions batch_finalizing batch_cancelled = true
batch_transitions batch_cancelling batch_cancelled = true
batch_transitions batch_cancelling batch_completed = true
batch_transitions batch_cancelling batch_partial_failed = true
batch_transitions _ _ = false

-- operationTransitions[from][to].
abbrev pub operation_transitions : OperationStatus → OperationStatus → Bool
operation_transitions operation_accepted operation_waiting_jobs = true
operation_transitions operation_accepted operation_completed = true
operation_transitions operation_accepted operation_partial_failed = true
operation_transitions operation_accepted operation_failed = true
operation_transitions operation_accepted operation_cancelled = true
operation_transitions operation_waiting_jobs operation_completed = true
operation_transitions operation_waiting_jobs operation_partial_failed = true
operation_transitions operation_waiting_jobs operation_failed = true
operation_transitions operation_waiting_jobs operation_cancelled = true
operation_transitions _ _ = false

unfoldable pub validate_job_transition : JobStatus → JobStatus → Result GenerationError (Unit {0})
validate_job_transition from to = do
  require (is_known_job_status from && is_known_job_status to) generation_invalid_transition
  require (job_status_eq from to || job_transitions from to) generation_invalid_transition

unfoldable pub validate_batch_transition :
    BatchStatus → BatchStatus → Result GenerationError (Unit {0})
validate_batch_transition from to =
    require (batch_status_eq from to || batch_transitions from to) generation_invalid_transition

unfoldable pub validate_operation_transition :
    OperationStatus → OperationStatus → Result GenerationError (Unit {0})
validate_operation_transition from to =
    require (operation_status_eq from to || operation_transitions from to)
      generation_invalid_transition
