-- ===== src/Generation/Finalizing.antt =====
-- TryFinalize of internal/aigc/generation/barrier.go: the transitions of the batch that it asks for.
use dora_agent.Base.{
  Bool-cases, List, String, false, if◌then◌else◌, inl, inr, length, ok, refl, str_eq_refl, true, ℕ,
  ◌∙◌, ◌≡◌, ◌≢◌,
}
use dora_agent.Generation.Barrier.{cancelled_status, evaluate_completion_policy, recount_batch}
use dora_agent.Generation.Cost.{aggregate_cost}
use dora_agent.Generation.Finalize.{Finalized, end_batch, ended_batch, finalize_batch}
use dora_agent.Generation.Models.{GenerationBatch, GenerationJob, GenerationOperation}
use dora_agent.Generation.Signals.{
  cancelled_allowed, ended_before, ends, evaluated_allowed, final_status-terminal,
  finalize_batch-Outcome, jobs_run, recount_batch-same, settles, waiting_allowed,
}
use dora_agent.Generation.StateMachine.{
  BatchStatus, batch_cancelled, batch_cancelling, batch_completed, batch_failed, batch_finalizing,
  batch_partial_failed, batch_waiting_jobs, is_terminal_batch_status, other_batch,
  validate_batch_transition,
}

same_allowed : (a : BatchStatus) → validate_batch_transition a a ≡ ok tt
unfolding validate_batch_transition
same_allowed batch_waiting_jobs = refl
same_allowed batch_finalizing = refl
same_allowed batch_cancelling = refl
same_allowed batch_completed = refl
same_allowed batch_partial_failed = refl
same_allowed batch_failed = refl
same_allowed batch_cancelled = refl
same_allowed (other_batch t) = rw (str_eq_refl t) refl

end_batch-status :
    (now : ℕ) (operation : GenerationOperation) (batch : GenerationBatch)
    (jobs : List GenerationJob)
    → (end_batch now operation batch jobs).batch.status ≡ (
        if batch.cancel_requested
        then cancelled_status (record batch { cost = aggregate_cost jobs }) jobs
        else evaluate_completion_policy (record batch { cost = aggregate_cost jobs }) jobs)
unfolding end_batch ended_batch
end_batch-status now operation batch jobs = refl

ended_allowed :
    (now : ℕ) (operation : GenerationOperation) (batch : GenerationBatch)
    (jobs : List GenerationJob) (a : BatchStatus)
    → is_terminal_batch_status a ≡ false
    → ((t : String) → a ≢ other_batch t)
    → (a ≡ batch_cancelling → batch.cancel_requested ≡ true)
    → validate_batch_transition a (end_batch now operation batch jobs).batch.status ≡ ok tt
unfolding cancelled_status evaluate_completion_policy
ended_allowed now operation batch jobs a n k c =
    let costed = record batch { cost = aggregate_cost jobs } in
    elim (Bool-cases batch.cancel_requested) [
      | inl y ↦
          rw (end_batch-status now operation batch jobs, y) (cancelled_allowed a costed jobs n k)
      | inr x ↦
          rw (end_batch-status now operation batch jobs, x)
            (evaluated_allowed a costed jobs n k (λ e. let y = c e in cc (x, y)))
    ]

-- TryFinalize asks for no transition that ValidateBatchTransition forbids: if the status of the batch
-- is one of the known ones, and cancelling only after a cancel request, its new status is allowed.
pub finalize_batch_allowed :
    (now : ℕ) (operation : GenerationOperation) (batch : GenerationBatch)
    (jobs : List GenerationJob) (f : Finalized)
    → ((t : String) → batch.status ≢ other_batch t)
    → (batch.status ≡ batch_cancelling → batch.cancel_requested ≡ true)
    → finalize_batch now operation batch jobs ≡ ok f
    → validate_batch_transition batch.status f.batch.status ≡ ok tt
finalize_batch_allowed now operation batch jobs f k c h =
    elim (finalize_batch-Outcome now operation batch jobs f h) [
      | ended_before y e v ↦ rw e (same_allowed batch.status)
      | jobs_run n e v ↦ rw e (waiting_allowed batch.status batch.cancel_requested n k c).0
      | settles n e v ↦ rw e (waiting_allowed batch.status batch.cancel_requested n k c).1
      | ends n t s e ↦ rw e (
          ended_allowed now operation (recount_batch batch jobs) jobs batch.status n k
            (λ at. (recount_batch-same batch jobs).1 ∙ c at))
    ]

pub end_batch-terminal :
    (now : ℕ) (operation : GenerationOperation) (batch : GenerationBatch)
    (jobs : List GenerationJob)
    → is_terminal_batch_status (end_batch now operation batch jobs).batch.status ≡ true
unfolding end_batch ended_batch
end_batch-terminal now operation batch jobs =
    final_status-terminal (record batch { cost = aggregate_cost jobs }) jobs

pub end_batch-events :
    (now : ℕ) (operation : GenerationOperation) (batch : GenerationBatch)
    (jobs : List GenerationJob)
    → length (end_batch now operation batch jobs).events ≡ 1
unfolding end_batch
end_batch-events now operation batch jobs = refl
