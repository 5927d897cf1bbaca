-- ===== src/Generation/Finalize.antt =====
-- The transaction that BatchBarrier.TryFinalize of internal/aigc/generation/barrier.go runs on an
-- operation, its batch and the jobs. What TryFinalize adds after it, a payload for a batch without an
-- id, is not modelled.
use dora_agent.Base.{
  List, Result, [], add64, err, false, if◌then◌else◌, none, not, ok, some, true, ℕ, ◌&◌, ◌∷◌,
}
use dora_agent.Generation.Barrier.{
  Settlement, all_settled, all_terminal, cancelled_status, evaluate_completion_policy,
  invalid_compensation, operation_status_for_batch, recount_batch, settlement_of, settling,
  terminal_event_type,
}
use dora_agent.Generation.Cost.{aggregate_cost, build_post_batch_payload}
use dora_agent.Generation.Models.{
  BarrierResult, GenerationBatch, GenerationJob, GenerationOperation, OutboxEvent, PostBatchPayload,
}
use dora_agent.Generation.StateMachine.{
  BatchStatus, GenerationError, batch_cancelling, batch_finalizing, compensation_status_invalid,
  is_terminal_batch_status,
}

-- What the transaction leaves: the operation, the batch, the events and the result. The jobs stay.
pub record Finalized : Type 0 where
  pub operation : GenerationOperation
  pub batch : GenerationBatch
  pub events : List OutboxEvent
  pub result : BarrierResult

abbrev pub not_yet : BarrierResult
not_yet = record { terminal = false; event_created = false; payload = none }

abbrev pub with_status : BatchStatus → GenerationBatch → GenerationBatch
with_status status batch = record batch { status = status }

-- Jobs run on: only a cancel request shows in the batch.
abbrev pub waits_for_jobs : GenerationBatch → GenerationBatch
waits_for_jobs batch = if batch.cancel_requested then with_status batch_cancelling batch else batch

abbrev pub waits_for_settlement : GenerationBatch → GenerationBatch
waits_for_settlement batch =
    with_status (if batch.cancel_requested then batch_cancelling else batch_finalizing) batch

abbrev pub final_status : GenerationBatch → List GenerationJob → BatchStatus
final_status batch jobs =
    if batch.cancel_requested
    then cancelled_status batch jobs
    else evaluate_completion_policy batch jobs

-- The batch with its cost and its final status.
unfoldable pub ended_batch : GenerationBatch → List GenerationJob → GenerationBatch
ended_batch batch jobs =
    let costed = record batch { cost = aggregate_cost jobs } in
    with_status (final_status costed jobs) costed

unfoldable pub end_batch :
    ℕ → GenerationOperation → GenerationBatch → List GenerationJob → Finalized
unfolding ended_batch
end_batch now operation batch jobs =
    let batch' = ended_batch batch jobs in
    let operation' : GenerationOperation = record operation {
      status = operation_status_for_batch batch'.status;
      error_code = batch'.error_code;
      error_message = batch'.error_message;
    } in
    let next = add64 batch'.version 1 in
    let payload : PostBatchPayload = record (build_post_batch_payload operation' batch' jobs now) {
      batch_version = next;
    } in
    record {
      operation = record operation' { result = some payload };
      batch = batch';
      events =
          record {
            idempotency_key = "batch:" & batch'.id & ":terminal";
            event_type = terminal_event_type batch'.status;
            destination = "session.signals";
            aggregate_type = "batch";
            aggregate_id = batch'.id;
            aggregate_version = next;
            payload = payload;
          }
          ∷ [];
      result = record { terminal = true; event_created = true; payload = some payload };
    }

-- Nothing is signalled, and nothing but the batch changes.
abbrev pub unsignalled : GenerationOperation → GenerationBatch → BarrierResult → Finalized
unsignalled operation batch result = record {
  operation = operation;
  batch = batch;
  events = [];
  result = result;
}

abbrev pub ended_result :
    ℕ → GenerationOperation → GenerationBatch → List GenerationJob → BarrierResult
ended_result now operation batch jobs = record {
  terminal = true;
  event_created = false;
  payload = some (build_post_batch_payload operation batch jobs now);
}

unfoldable pub settle_batch :
    ℕ
    → GenerationOperation
    → GenerationBatch
    → List GenerationJob
    → Settlement
    → Result GenerationError Finalized
unfolding end_batch
settle_batch now operation batch jobs all_settled = ok (end_batch now operation batch jobs)
settle_batch now operation batch jobs settling =
    ok (unsignalled operation (waits_for_settlement batch) not_yet)
settle_batch now operation batch jobs (invalid_compensation id) =
    err (compensation_status_invalid id)

unfoldable pub finalize_batch :
    ℕ
    → GenerationOperation
    → GenerationBatch
    → List GenerationJob
    → Result GenerationError Finalized
unfolding settle_batch recount_batch all_terminal settlement_of
finalize_batch now operation batch jobs =
    let counted = recount_batch batch jobs in
    if is_terminal_batch_status batch.status
    then ok (unsignalled operation batch (ended_result now operation batch jobs))
    else if not (all_terminal jobs)
    then ok (unsignalled operation (waits_for_jobs counted) not_yet)
    else settle_batch now operation counted jobs (settlement_of jobs)
