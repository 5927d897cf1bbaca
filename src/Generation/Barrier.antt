-- ===== src/Generation/Barrier.antt =====
-- The transaction of BatchBarrier.TryFinalize in internal/aigc/generation/barrier.go, and its helpers.
use dora_agent.Base.{
  Bool, List, String, [], add64, false, if◌then◌else◌, is_blank, le64, length, nat_eq, not, pos64,
  str_eq, true, ℕ, ◌&&◌, ◌&◌, ◌||◌, ◌∷◌,
}
use dora_agent.Generation.Models.{GenerationBatch, GenerationJob}
use dora_agent.Generation.StateMachine.{
  BatchStatus, JobStatus, OperationStatus, batch_cancelled, batch_cancelling, batch_completed,
  batch_failed, batch_finalizing, batch_partial_failed, batch_waiting_jobs, is_terminal_job_status,
  job_cancelled, job_failed, job_succeeded, operation_cancelled, operation_completed,
  operation_failed, operation_partial_failed, other_batch,
}

-- The constants' values.
unfoldable pub batch_status_text : BatchStatus → String
batch_status_text batch_waiting_jobs = "waiting_jobs"
batch_status_text batch_finalizing = "finalizing"
batch_status_text batch_cancelling = "cancelling"
batch_status_text batch_completed = "completed"
batch_status_text batch_partial_failed = "partial_failed"
batch_status_text batch_failed = "failed"
batch_status_text batch_cancelled = "cancelled"
batch_status_text (other_batch t) = t

abbrev pub is_succeeded : JobStatus → Bool
is_succeeded job_succeeded = true
is_succeeded _ = false

abbrev pub is_failed : JobStatus → Bool
is_failed job_failed = true
is_failed _ = false

abbrev pub is_cancelled : JobStatus → Bool
is_cancelled job_cancelled = true
is_cancelled _ = false

-- The counter, one up where the test holds.
abbrev pub count_if : Bool → ℕ → ℕ
count_if true n = add64 n 1
count_if false n = n

unfoldable pub count_jobs : GenerationBatch → List GenerationJob → GenerationBatch
count_jobs batch [] = batch
count_jobs batch (job ∷ jobs) =
    count_jobs
      (record batch {
        required_jobs = count_if job.required batch.required_jobs;
        optional_jobs = count_if (not job.required) batch.optional_jobs;
        succeeded_jobs = count_if (is_succeeded job.status) batch.succeeded_jobs;
        failed_jobs = count_if (is_failed job.status) batch.failed_jobs;
        cancelled_jobs = count_if (is_cancelled job.status) batch.cancelled_jobs;
      })
      jobs

unfoldable pub recount_batch : GenerationBatch → List GenerationJob → GenerationBatch
unfolding count_jobs
recount_batch batch jobs =
    count_jobs
      (record batch {
        required_jobs = 0;
        optional_jobs = 0;
        succeeded_jobs = 0;
        failed_jobs = 0;
        cancelled_jobs = 0;
      })
      jobs

-- No required job has another status than succeeded.
unfoldable pub required_succeeded : List GenerationJob → Bool
required_succeeded [] = true
required_succeeded (job ∷ jobs) =
    not (job.required && not (is_succeeded job.status)) && required_succeeded jobs

unfoldable pub evaluate_completion_policy : GenerationBatch → List GenerationJob → BatchStatus
evaluate_completion_policy batch jobs =
    if str_eq batch.completion_policy "allow_partial"
    then (if nat_eq batch.succeeded_jobs (length jobs)
        then batch_completed
        else if pos64 batch.succeeded_jobs
        then batch_partial_failed
        else batch_failed)
    else if str_eq batch.completion_policy "min_success"
    then (if le64 (if pos64 batch.min_success then batch.min_success else 1) batch.succeeded_jobs
        then batch_completed
        else batch_failed)
    else if required_succeeded jobs
    then batch_completed
    else batch_failed

unfoldable pub cancelled_status : GenerationBatch → List GenerationJob → BatchStatus
cancelled_status batch jobs =
    if nat_eq batch.succeeded_jobs (length jobs)
    then batch_completed
    else if pos64 batch.succeeded_jobs
    then batch_partial_failed
    else batch_cancelled

abbrev pub operation_status_for_batch : BatchStatus → OperationStatus
operation_status_for_batch batch_completed = operation_completed
operation_status_for_batch batch_partial_failed = operation_partial_failed
operation_status_for_batch batch_cancelled = operation_cancelled
operation_status_for_batch _ = operation_failed

abbrev pub is_unsuccessful : BatchStatus → Bool
is_unsuccessful batch_partial_failed = true
is_unsuccessful batch_failed = true
is_unsuccessful batch_cancelled = true
is_unsuccessful _ = false

unfoldable pub needs_explanation : String → BatchStatus → Bool
needs_explanation policy status =
    if str_eq policy "never"
    then false
    else if str_eq policy "on_failure"
    then is_unsuccessful status
    else true

abbrev pub terminal_event_type : BatchStatus → String
terminal_event_type status = "batch." & batch_status_text status

abbrev pub normalized_compensation_status : String → String
normalized_compensation_status status = if is_blank status then "not_required" else status

abbrev pub is_settling : String → Bool
is_settling status =
    str_eq status "pending" || str_eq status "running" || str_eq status "retry_wait"

abbrev pub is_settled : String → Bool
is_settled status =
    str_eq status "not_required" || str_eq status "completed" || str_eq status "manual_final"

-- What the first job with a charge that is not settled says: it settles yet, or has no such status.
pub data Settlement : Type 0 where
  all_settled settling : Settlement
  invalid_compensation : String → Settlement

unfoldable pub settlement_of : List GenerationJob → Settlement
settlement_of [] = all_settled
settlement_of (job ∷ jobs) =
    let rest = settlement_of jobs in
    let status = normalized_compensation_status job.compensation_status in
    if is_blank job.billing_transaction_id
    then rest
    else if is_settling status
    then settling
    else if is_settled status
    then rest
    else invalid_compensation job.id

unfoldable pub all_terminal : List GenerationJob → Bool
all_terminal [] = true
all_terminal (job ∷ jobs) = is_terminal_job_status job.status && all_terminal jobs
