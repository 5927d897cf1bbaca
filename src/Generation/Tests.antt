-- ===== src/Generation/Tests.antt =====
-- Paths through the transitions, and the theorems at them.
use dora_agent.Base.{ok, refl, true, ℕ, ◌≡◌, ◌≤◌}
use dora_agent.Generation.JobPaths.{
  JobPath, job_changes, job_never_stuck, job_stays, success_from_finalizing,
}
use dora_agent.Generation.Paths.{BatchPath, BatchPath-ends, batch_changes, batch_stays}
use dora_agent.Generation.StateMachine.{
  batch_cancelled, batch_cancelling, batch_finalizing, batch_waiting_jobs, is_terminal_batch_status,
  job_cancelled, job_failed, job_finalizing, job_queued, job_retry_wait, job_running, job_succeeded,
  validate_batch_transition, validate_job_transition,
}

batch_path : BatchPath batch_waiting_jobs batch_cancelled 3
unfolding validate_batch_transition
batch_path =
    batch_changes {b = batch_finalizing} refl refl
      (batch_changes {b = batch_cancelling} refl refl (batch_changes refl refl batch_stays))

BatchPath-ends_example :
    (3 ≤ 3) × (is_terminal_batch_status batch_waiting_jobs ≡ true → ◌≡◌ {A = ℕ} 3 0)
BatchPath-ends_example = BatchPath-ends batch_waiting_jobs batch_cancelled 3 batch_path

job_path : JobPath job_queued job_succeeded 3
unfolding validate_job_transition
job_path =
    job_changes {b = job_running} refl refl
      (job_changes {b = job_finalizing} refl refl (job_changes refl refl job_stays))

success_from_finalizing_example : JobPath job_queued job_finalizing 2
success_from_finalizing_example = success_from_finalizing job_queued 2 job_path

job_never_stuck_example :
    (validate_job_transition job_retry_wait job_failed ≡ ok tt)
    × (validate_job_transition job_retry_wait job_cancelled ≡ ok tt)
    × ((n : ℕ) × JobPath job_retry_wait job_succeeded n × (n ≤ 3))
job_never_stuck_example = job_never_stuck job_retry_wait refl refl
