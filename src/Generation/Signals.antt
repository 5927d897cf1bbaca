-- ===== src/Generation/Signals.antt =====
-- When TryFinalize of internal/aigc/generation/barrier.go ends a batch, and what it signals.
use dora_agent.Base.{
  Bool, Bool-cases, List, String, [], ap, arith, false, if◌then◌else◌, inl, inr, ok, refl, sym,
  true, ℕ, ◌∙◌, ◌∷◌, ◌≡◌, ◌≢◌,
}
use dora_agent.Generation.Barrier.{
  Settlement, all_settled, all_terminal, cancelled_status, count_jobs, evaluate_completion_policy,
  invalid_compensation, recount_batch, settlement_of, settling,
}
use dora_agent.Generation.Finalize.{
  Finalized, end_batch, ended_result, final_status, finalize_batch, not_yet, settle_batch,
  unsignalled, waits_for_jobs, waits_for_settlement,
}
use dora_agent.Generation.Models.{GenerationBatch, GenerationJob, GenerationOperation}
use dora_agent.Generation.StateMachine.{
  BatchStatus, batch_cancelled, batch_cancelling, batch_completed, batch_failed, batch_finalizing,
  batch_partial_failed, batch_waiting_jobs, is_terminal_batch_status, other_batch,
  validate_batch_transition,
}

count_jobs-same :
    (jobs : List GenerationJob) (batch : GenerationBatch)
    → ((count_jobs batch jobs).status ≡ batch.status)
      × ((count_jobs batch jobs).cancel_requested ≡ batch.cancel_requested)
unfolding count_jobs
count_jobs-same [] batch = (refl, refl)
count_jobs-same (job ∷ jobs) batch = count_jobs-same jobs _

pub recount_batch-same :
    (batch : GenerationBatch) (jobs : List GenerationJob)
    → ((recount_batch batch jobs).status ≡ batch.status)
      × ((recount_batch batch jobs).cancel_requested ≡ batch.cancel_requested)
unfolding recount_batch
recount_batch-same batch jobs = count_jobs-same jobs _

-- What the transaction comes to: an ended batch stays, the jobs or the settlement are waited for, or
-- the batch ends.
pub data Outcome (now : ℕ) (operation : GenerationOperation) (batch : GenerationBatch)
    (jobs : List GenerationJob) (f : Finalized) : Type 0 where
  ended_before :
      is_terminal_batch_status batch.status ≡ true
      → f.batch.status ≡ batch.status
      → f.events ≡ []
      → Outcome now operation batch jobs f
  jobs_run :
      is_terminal_batch_status batch.status ≡ false
      → f.batch.status ≡ (if batch.cancel_requested then batch_cancelling else batch.status)
      → f.events ≡ []
      → Outcome now operation batch jobs f
  settles :
      is_terminal_batch_status batch.status ≡ false
      → f.batch.status ≡ (if batch.cancel_requested then batch_cancelling else batch_finalizing)
      → f.events ≡ []
      → Outcome now operation batch jobs f
  ends :
      is_terminal_batch_status batch.status ≡ false
      → all_terminal jobs ≡ true
      → settlement_of jobs ≡ all_settled
      → f ≡ end_batch now operation (recount_batch batch jobs) jobs
      → Outcome now operation batch jobs f

settle_batch-Outcome :
    (now : ℕ) (operation : GenerationOperation) (batch : GenerationBatch)
    (jobs : List GenerationJob) (x : Settlement) (f : Finalized)
    → is_terminal_batch_status batch.status ≡ false
    → all_terminal jobs ≡ true
    → settlement_of jobs ≡ x
    → settle_batch now operation (recount_batch batch jobs) jobs x ≡ ok f
    → Outcome now operation batch jobs f
unfolding settle_batch
settle_batch-Outcome now operation batch jobs all_settled f n t e h = ends n t e (cc h)
settle_batch-Outcome now operation batch jobs (invalid_compensation id) f n t e h = cc h
settle_batch-Outcome now operation batch jobs settling f n t e h =
    let eq : unsignalled operation (waits_for_settlement (recount_batch batch jobs)) not_yet ≡ f =
      cc h in
    settles n
      (ap (λ (x : Finalized). x.batch.status) (sym eq)
        ∙ ap (λ b. if b then batch_cancelling else batch_finalizing)
            (recount_batch-same batch jobs).1)
      (ap (λ (x : Finalized). x.events) (sym eq))

waits_for_jobs-status :
    (batch counted : GenerationBatch)
    → counted.status ≡ batch.status
    → counted.cancel_requested ≡ batch.cancel_requested
    → (waits_for_jobs counted).status
      ≡ (if batch.cancel_requested then batch_cancelling else batch.status)
waits_for_jobs-status batch counted e c = elim (Bool-cases batch.cancel_requested) [
  | inl y ↦ rw (c, y) refl
  | inr n ↦ rw (c, n) e
]

pub finalize_batch-Outcome :
    (now : ℕ) (operation : GenerationOperation) (batch : GenerationBatch)
    (jobs : List GenerationJob) (f : Finalized)
    → finalize_batch now operation batch jobs ≡ ok f
    → Outcome now operation batch jobs f
unfolding finalize_batch
finalize_batch-Outcome now operation batch jobs f h =
    let counted = recount_batch batch jobs in
    let same = recount_batch-same batch jobs in
    elim (Bool-cases (is_terminal_batch_status batch.status)) [
      | inl y ↦
          let done : ok (unsignalled operation batch (ended_result now operation batch jobs))
              ≡ ok f =
            sym (rw y refl) ∙ h in
          let eq : unsignalled operation batch (ended_result now operation batch jobs) ≡ f =
            cc done in
          ended_before y (ap (λ (x : Finalized). x.batch.status) (sym eq))
            (ap (λ (x : Finalized). x.events) (sym eq))
      | inr n ↦ elim (Bool-cases (all_terminal jobs)) [
        | inl t ↦
            settle_batch-Outcome now operation batch jobs (settlement_of jobs) f n t refl
              (sym (rw (n, t) refl) ∙ h)
        | inr r ↦
            let done : ok (unsignalled operation (waits_for_jobs counted) not_yet) ≡ ok f =
              sym (rw (n, r) refl) ∙ h in
            let eq : unsignalled operation (waits_for_jobs counted) not_yet ≡ f = cc done in
            jobs_run n
              (ap (λ (x : Finalized). x.batch.status) (sym eq)
                ∙ waits_for_jobs-status batch counted same.0 same.1)
              (ap (λ (x : Finalized). x.events) (sym eq))
      ]
    ]

cancelled_status-terminal :
    (batch : GenerationBatch) (jobs : List GenerationJob)
    → is_terminal_batch_status (cancelled_status batch jobs) ≡ true
unfolding cancelled_status
cancelled_status-terminal batch jobs = ground arith

evaluate-terminal :
    (batch : GenerationBatch) (jobs : List GenerationJob)
    → is_terminal_batch_status (evaluate_completion_policy batch jobs) ≡ true
unfolding evaluate_completion_policy
evaluate-terminal batch jobs = ground arith

pub final_status-terminal :
    (batch : GenerationBatch) (jobs : List GenerationJob)
    → is_terminal_batch_status (final_status batch jobs) ≡ true
final_status-terminal batch jobs =
    ground (arith, cancelled_status-terminal batch jobs, evaluate-terminal batch jobs)

pub cancelled_allowed :
    (a : BatchStatus) (batch : GenerationBatch) (jobs : List GenerationJob)
    → is_terminal_batch_status a ≡ false
    → ((t : String) → a ≢ other_batch t)
    → validate_batch_transition a (cancelled_status batch jobs) ≡ ok tt
unfolding cancelled_status validate_batch_transition
cancelled_allowed batch_waiting_jobs batch jobs n k = ground arith
cancelled_allowed batch_finalizing batch jobs n k = ground arith
cancelled_allowed batch_cancelling batch jobs n k = ground arith
cancelled_allowed batch_completed batch jobs n k = cc
cancelled_allowed batch_partial_failed batch jobs n k = cc
cancelled_allowed batch_failed batch jobs n k = cc
cancelled_allowed batch_cancelled batch jobs n k = cc
cancelled_allowed (other_batch t) batch jobs n k = absurd (k t refl)

pub evaluated_allowed :
    (a : BatchStatus) (batch : GenerationBatch) (jobs : List GenerationJob)
    → is_terminal_batch_status a ≡ false
    → ((t : String) → a ≢ other_batch t)
    → a ≢ batch_cancelling
    → validate_batch_transition a (evaluate_completion_policy batch jobs) ≡ ok tt
unfolding evaluate_completion_policy validate_batch_transition
evaluated_allowed batch_waiting_jobs batch jobs n k c = ground arith
evaluated_allowed batch_finalizing batch jobs n k c = ground arith
evaluated_allowed batch_cancelling batch jobs n k c = absurd (c refl)
evaluated_allowed batch_completed batch jobs n k c = cc
evaluated_allowed batch_partial_failed batch jobs n k c = cc
evaluated_allowed batch_failed batch jobs n k c = cc
evaluated_allowed batch_cancelled batch jobs n k c = cc
evaluated_allowed (other_batch t) batch jobs n k c = absurd (k t refl)

pub waiting_allowed :
    (a : BatchStatus) (cancel : Bool)
    → is_terminal_batch_status a ≡ false
    → ((t : String) → a ≢ other_batch t)
    → (a ≡ batch_cancelling → cancel ≡ true)
    → (validate_batch_transition a (if cancel then batch_cancelling else a) ≡ ok tt)
      × (validate_batch_transition a (if cancel then batch_cancelling else batch_finalizing)
          ≡ ok tt)
unfolding validate_batch_transition
waiting_allowed batch_waiting_jobs true n k c = (refl, refl)
waiting_allowed batch_waiting_jobs false n k c = (refl, refl)
waiting_allowed batch_finalizing true n k c = (refl, refl)
waiting_allowed batch_finalizing false n k c = (refl, refl)
waiting_allowed batch_cancelling true n k c = (refl, refl)
waiting_allowed batch_cancelling false n k c = cc (c refl)
waiting_allowed batch_completed cancel n k c = cc
waiting_allowed batch_partial_failed cancel n k c = cc
waiting_allowed batch_failed cancel n k c = cc
waiting_allowed batch_cancelled cancel n k c = cc
waiting_allowed (other_batch t) cancel n k c = absurd (k t refl)
