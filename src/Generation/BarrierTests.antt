-- ===== src/Generation/BarrierTests.antt =====
-- TryFinalize on a concrete batch, and the theorems at it.
use dora_agent.Base.{
  List, Result, String, String_discrete, [], err, false, inl, inr, insert, is_blank, lookup, none,
  ok, refl, some, trim_space, true, ℕ, ◌∷◌, ◌≡◌, ◌≤◌,
}
use dora_agent.Generation.Barrier.{
  batch_status_text, cancelled_status, count_jobs, evaluate_completion_policy, is_settled,
  needs_explanation, normalized_compensation_status, required_succeeded,
}
use dora_agent.Generation.Cost.{
  add_breakdown, aggregate_cost, build_post_batch_payload, count_cost, no_cost,
}
use dora_agent.Generation.Finalize.{Finalized, finalize_batch, not_yet, unsignalled}
use dora_agent.Generation.Finalizing.{finalize_batch_allowed}
use dora_agent.Generation.Models.{GenerationBatch, GenerationJob, GenerationOperation}
use dora_agent.Generation.Signalling.{Attempt, signal_count, signal_when_done, signals_once}
use dora_agent.Generation.StateMachine.{
  GenerationError, JobStatus, batch_partial_failed, batch_waiting_jobs, is_terminal_batch_status,
  is_terminal_job_status, job_failed, job_running, job_succeeded, operation_waiting_jobs,
  validate_batch_transition,
}

abbrev job_of : String → JobStatus → GenerationJob
job_of id status = record {
  id = id;
  target_id = "shot1";
  asset_slot = "image";
  required = true;
  status = status;
  result_asset_ids = [];
  result_disposition = "";
  charged_points = 10;
  compensated_points = 4;
  cost_breakdown = ("image", 10) ∷ [];
  billing_transaction_id = "tx";
  compensation_status = "completed";
  refund_transaction_id = "refund";
  balance_after = some 90;
  error_code = "";
  updated_at = 5;
}

-- Two jobs under one charge: the first is done, the second runs and then fails.
abbrev jobs_running : List GenerationJob
jobs_running = job_of "j1" job_succeeded ∷ job_of "j2" job_running ∷ []

abbrev jobs_done : List GenerationJob
jobs_done = job_of "j1" job_succeeded ∷ job_of "j2" job_failed ∷ []

abbrev batch : GenerationBatch
batch = record {
  id = "b1";
  session_id = "s1";
  workflow_run_id = "";
  stage_run_id = "";
  tool_call_id = "";
  status = batch_waiting_jobs;
  completion_policy = "allow_partial";
  min_success = 0;
  wake_policy = "on_failure";
  required_jobs = 0;
  optional_jobs = 0;
  succeeded_jobs = 0;
  failed_jobs = 0;
  cancelled_jobs = 0;
  cost = no_cost;
  cancel_requested = false;
  error_code = "";
  error_message = "";
  version = 1;
  terminal_at = none;
}

abbrev operation : GenerationOperation
operation = record {
  id = "op1";
  status = operation_waiting_jobs;
  result = none;
  error_code = "";
  error_message = "";
}

abbrev kept : Result GenerationError Finalized → Finalized
kept (ok f) = f
kept (err e) = unsignalled operation batch not_yet

done : Finalized
unfolding finalize_batch count_jobs cancelled_status evaluate_completion_policy required_succeeded
    needs_explanation batch_status_text count_cost aggregate_cost add_breakdown
    build_post_batch_payload lookup insert trim_space String_discrete
done = kept (finalize_batch 9 operation batch jobs_done)

done_status : done.batch.status ≡ batch_partial_failed
unfolding done
done_status = refl

done_gross : done.batch.cost.gross_charged_points ≡ 10
unfolding done
done_gross = refl

done_net : done.batch.cost.net_charged_points ≡ 6
unfolding done
done_net = refl

finalize_batch_allowed_example :
    validate_batch_transition batch_waiting_jobs done.batch.status ≡ ok tt
unfolding done
finalize_batch_allowed_example =
    finalize_batch_allowed 9 operation batch jobs_done done (λ t e. cc e) (λ e. cc e) refl

abbrev attempt_at : ℕ → List GenerationJob → Attempt
attempt_at now jobs = record { before = λ b. b; now = now; operation = operation; jobs = jobs }

abbrev attempts : List Attempt
attempts = attempt_at 8 jobs_running ∷ attempt_at 9 jobs_done ∷ attempt_at 10 jobs_done ∷ []

signalled : signal_count attempts batch ≡ 1
unfolding done signal_count
signalled = refl

signals_once_example : signal_count attempts batch ≤ 1
signals_once_example = signals_once attempts batch ((λ b y. y), ((λ b y. y), ((λ b y. y), tt)))

signal_when_done_example :
    (is_terminal_batch_status done.batch.status ≡ true)
    × (is_terminal_job_status job_failed ≡ true)
    × (is_blank "tx" ≡ false → is_settled (normalized_compensation_status "completed") ≡ true)
unfolding done
signal_when_done_example =
    signal_when_done 9 operation batch jobs_done done (job_of "j2" job_failed) refl (λ e. cc e)
      (inr (inl refl))
