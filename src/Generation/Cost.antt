-- ===== src/Generation/Cost.antt =====
-- aggregateCost and buildPostBatchPayload of internal/aigc/generation/barrier.go.
use dora_agent.Base.{
  Bool, List, Option, String, Table, [], add64, false, if◌then◌else◌, insert, is_empty, lookup, map,
  nat_eq, none, number_or_zero, some, str_eq, sub64, trim_space, true, ℕ, ◌||◌, ◌∷◌,
}
use dora_agent.Generation.Barrier.{needs_explanation}
use dora_agent.Generation.Models.{
  CostSummary, GenerationBatch, GenerationJob, GenerationOperation, JobTerminalResult,
  PostBatchPayload,
}
use dora_agent.SessionRuntime.Store.State.{after}

-- The variables of aggregateCost: the transactions seen, the cost so far, and the time of its balance.
pub record CostState : Type 0 where
  pub gross_seen : List String
  pub refund_seen : List String
  pub cost : CostSummary
  pub balance_updated_at : ℕ

abbrev pub is_seen : String → List String → Bool
is_seen id [] = false
is_seen id (x ∷ xs) = str_eq x id || is_seen id xs

unfoldable pub add_breakdown : Table ℕ → Table ℕ → Table ℕ
add_breakdown total [] = total
add_breakdown total ((key, value) ∷ m) =
    add_breakdown (insert key (add64 (number_or_zero (lookup key total)) value) total) m

-- A charge counts once, however many jobs name its transaction.
unfoldable pub count_charge : GenerationJob → CostState → CostState
unfolding add_breakdown
count_charge job c =
    let id = trim_space job.billing_transaction_id in
    if is_empty id || is_seen id c.gross_seen then c else record c {
      gross_seen = id ∷ c.gross_seen;
      cost = record (c.cost) {
        gross_charged_points = add64 c.cost.gross_charged_points job.charged_points;
        breakdown = add_breakdown c.cost.breakdown job.cost_breakdown;
      };
    }

unfoldable pub count_refund : GenerationJob → CostState → CostState
count_refund job c =
    let id = trim_space job.refund_transaction_id in
    if is_empty id || is_seen id c.refund_seen then c else record c {
      refund_seen = id ∷ c.refund_seen;
      cost = record (c.cost) {
        refunded_points = add64 c.cost.refunded_points job.compensated_points;
      };
    }

abbrev pub is_newer : Option ℕ → ℕ → ℕ → Bool
is_newer none updated_at known_at = true
is_newer (some balance) updated_at known_at = after updated_at known_at

abbrev pub taken_balance : Option ℕ → GenerationJob → CostState → CostState
taken_balance none job c = c
taken_balance (some balance) job c =
    if is_newer c.cost.balance_after job.updated_at c.balance_updated_at
    then record c {
      cost = record (c.cost) { balance_after = some balance };
      balance_updated_at = job.updated_at;
    }
    else c

unfoldable pub count_cost : CostState → List GenerationJob → CostState
unfolding count_charge count_refund
count_cost c [] = c
count_cost c (job ∷ jobs) =
    count_cost (taken_balance job.balance_after job (count_refund job (count_charge job c))) jobs

-- The refunds as a negative part of the breakdown, if there are any.
abbrev pub with_refund : CostSummary → CostSummary
with_refund cost = if nat_eq cost.refunded_points 0 then cost else record cost {
  breakdown =
      insert "refund" (sub64 (number_or_zero (lookup "refund" cost.breakdown)) cost.refunded_points)
        cost.breakdown;
}

abbrev pub no_cost : CostSummary
no_cost = record {
  gross_charged_points = 0;
  refunded_points = 0;
  net_charged_points = 0;
  breakdown = [];
  balance_after = none;
}

unfoldable pub aggregate_cost : List GenerationJob → CostSummary
unfolding count_cost
aggregate_cost jobs =
    let counted =
      count_cost
        (record { gross_seen = []; refund_seen = []; cost = no_cost; balance_updated_at = 0 })
        jobs in
    with_refund (record (counted.cost) {
      net_charged_points = sub64 counted.cost.gross_charged_points counted.cost.refunded_points;
    })

abbrev pub job_result : GenerationJob → JobTerminalResult
job_result job = record {
  job_id = job.id;
  target_id = job.target_id;
  asset_slot = job.asset_slot;
  status = job.status;
  result_disposition = job.result_disposition;
  result_asset_ids = job.result_asset_ids;
  error_code = job.error_code;
  gross_points = job.charged_points;
  refunded_points = job.compensated_points;
  net_points = sub64 job.charged_points job.compensated_points;
}

abbrev pub time_or : Option ℕ → ℕ → ℕ
time_or none now = now
time_or (some t) now = t

unfoldable pub build_post_batch_payload :
    GenerationOperation → GenerationBatch → List GenerationJob → ℕ → PostBatchPayload
build_post_batch_payload operation batch jobs now = record {
  session_id = batch.session_id;
  workflow_run_id = batch.workflow_run_id;
  stage_run_id = batch.stage_run_id;
  operation_id = operation.id;
  tool_call_id = batch.tool_call_id;
  batch_id = batch.id;
  batch_version = batch.version;
  status = batch.status;
  cost = batch.cost;
  jobs = map job_result jobs;
  needs_agent_explanation = needs_explanation batch.wake_policy batch.status;
  created_at = time_or batch.terminal_at now;
}
