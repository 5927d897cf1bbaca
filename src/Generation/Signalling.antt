-- ===== src/Generation/Signalling.antt =====
-- TryFinalize of internal/aigc/generation/barrier.go: how often it signals, and when.
use dora_agent.Base.{
  Among, Bool-cases, List, Result, [], and_left, and_right, ap, arith, err, false, inl, inr,
  is_blank, length, ok, refl, subst, true, ℕ, ◌+◌, ◌∙◌, ◌∷◌, ◌≡◌, ◌≢◌, ◌≤◌, ◌⊎◌,
}
use dora_agent.Generation.Barrier.{
  all_settled, all_terminal, is_settled, normalized_compensation_status, recount_batch,
  settlement_of,
}
use dora_agent.Generation.Finalize.{Finalized, finalize_batch}
use dora_agent.Generation.Finalizing.{end_batch-events, end_batch-terminal}
use dora_agent.Generation.Models.{GenerationBatch, GenerationJob, GenerationOperation}
use dora_agent.Generation.Signals.{ended_before, ends, finalize_batch-Outcome, jobs_run, settles}
use dora_agent.Generation.StateMachine.{
  GenerationError, is_terminal_batch_status, is_terminal_job_status,
}

-- An attempt to finalize a batch, and what others made of the batch before it.
pub record Attempt : Type 0 where
  pub before : GenerationBatch → GenerationBatch
  pub now : ℕ
  pub operation : GenerationOperation
  pub jobs : List GenerationJob

-- Others leave an ended batch ended.
abbrev pub KeepEnded : List Attempt → Type 0
KeepEnded [] = Unit {0}
KeepEnded (a ∷ attempts) =
    ((b : GenerationBatch)
      → is_terminal_batch_status b.status ≡ true
      → is_terminal_batch_status (a.before b).status ≡ true)
    × KeepEnded attempts

abbrev pub batch_after : GenerationBatch → Result GenerationError Finalized → GenerationBatch
batch_after batch (ok f) = f.batch
batch_after batch (err e) = batch

abbrev pub event_count : Result GenerationError Finalized → ℕ
event_count (ok f) = length f.events
event_count (err e) = 0

-- How many events the attempts append, one after the other.
unfoldable pub signal_count : List Attempt → GenerationBatch → ℕ
signal_count [] batch = 0
signal_count (a ∷ attempts) batch =
    let m = finalize_batch a.now a.operation (a.before batch) a.jobs in
    event_count m + signal_count attempts (batch_after (a.before batch) m)

-- One attempt: no event, or the first one, after which the batch has ended.
attempt_cases :
    (batch : GenerationBatch) (m : Result GenerationError Finalized)
    → ((f : Finalized)
        → m ≡ ok f
        → ((f.events ≡ [])
            × (is_terminal_batch_status batch.status ≡ true
                → is_terminal_batch_status f.batch.status ≡ true))
          ⊎ ((length f.events ≡ 1)
              × (is_terminal_batch_status batch.status ≡ false)
              × (is_terminal_batch_status f.batch.status ≡ true)))
    → ((event_count m ≡ 0)
        × (is_terminal_batch_status batch.status ≡ true
            → is_terminal_batch_status (batch_after batch m).status ≡ true))
      ⊎ ((event_count m ≡ 1)
          × (is_terminal_batch_status batch.status ≡ false)
          × (is_terminal_batch_status (batch_after batch m).status ≡ true))
attempt_cases batch (err e) h = inl (refl, λ y. y)
attempt_cases batch (ok f) h = elim (h f refl) [
  | inl (none_sent, stays_ended) ↦ inl (ap length none_sent, stays_ended)
  | inr c ↦ inr c
]

attempt_signals :
    (now : ℕ) (operation : GenerationOperation) (batch : GenerationBatch)
    (jobs : List GenerationJob) (f : Finalized)
    → finalize_batch now operation batch jobs ≡ ok f
    → ((f.events ≡ [])
        × (is_terminal_batch_status batch.status ≡ true
            → is_terminal_batch_status f.batch.status ≡ true))
      ⊎ ((length f.events ≡ 1)
          × (is_terminal_batch_status batch.status ≡ false)
          × (is_terminal_batch_status f.batch.status ≡ true))
attempt_signals now operation batch jobs f h =
    elim (finalize_batch-Outcome now operation batch jobs f h) [
      | ended_before y e v ↦ inl (v, λ t. rw e t)
      | jobs_run n e v ↦ inl (v, λ t. cc (n, t))
      | settles n e v ↦ inl (v, λ t. cc (n, t))
      | ends n t s e ↦ inr (
        ap (λ (x : Finalized). length x.events) e
            ∙ end_batch-events now operation (recount_batch batch jobs) jobs,
        n,
        ap (λ (x : Finalized). is_terminal_batch_status x.batch.status) e
            ∙ end_batch-terminal now operation (recount_batch batch jobs) jobs,
      )
    ]

signals_none :
    (attempts : List Attempt) (batch : GenerationBatch)
    → KeepEnded attempts
    → is_terminal_batch_status batch.status ≡ true
    → signal_count attempts batch ≡ 0
unfolding signal_count
signals_none [] batch k y = refl
signals_none (a ∷ attempts) batch (keep, k) y =
    let m = finalize_batch a.now a.operation (a.before batch) a.jobs in
    elim (attempt_cases (a.before batch) m
      (λ f h. attempt_signals a.now a.operation (a.before batch) a.jobs f h)) [
        | inl (quiet, stays_ended) ↦
            let rest =
              signals_none attempts (batch_after (a.before batch) m) k
                (stays_ended (keep batch y)) in
            omega arith
        | inr (_, n, _) ↦ let z = keep batch y in cc (n, z)
      ]

-- A batch is signalled once at most: however often TryFinalize runs on it, with whatever jobs, and
-- whatever others do to the batch in between, as long as they leave an ended batch ended.
pub signals_once :
    (attempts : List Attempt) (batch : GenerationBatch)
    → KeepEnded attempts
    → signal_count attempts batch ≤ 1
unfolding signal_count
signals_once [] batch k = omega arith
signals_once (a ∷ attempts) batch (keep, k) =
    let m = finalize_batch a.now a.operation (a.before batch) a.jobs in
    elim (attempt_cases (a.before batch) m
      (λ f h. attempt_signals a.now a.operation (a.before batch) a.jobs f h)) [
        | inl (quiet, _) ↦
            let rest = signals_once attempts (batch_after (a.before batch) m) k in omega arith
        | inr (one, _, ended) ↦
            let rest = signals_none attempts (batch_after (a.before batch) m) k ended in omega arith
      ]

all_terminal-Among :
    (jobs : List GenerationJob) (job : GenerationJob)
    → all_terminal jobs ≡ true
    → Among job jobs
    → is_terminal_job_status job.status ≡ true
unfolding all_terminal
all_terminal-Among [] job h m = absurd m
all_terminal-Among (x ∷ jobs) job h (inl e) =
    subst (λ (y : GenerationJob). is_terminal_job_status y.status ≡ true) e (and_left _ _ h)
all_terminal-Among (x ∷ jobs) job h (inr m) = all_terminal-Among jobs job (and_right _ _ h) m

settled_head :
    (job : GenerationJob) (jobs : List GenerationJob)
    → settlement_of (job ∷ jobs) ≡ all_settled
    → (settlement_of jobs ≡ all_settled)
      × (is_blank job.billing_transaction_id ≡ false
          → is_settled (normalized_compensation_status job.compensation_status) ≡ true)
unfolding settlement_of
settled_head job jobs h = elim (Bool-cases (is_blank job.billing_transaction_id)) [
  | inl y ↦ (ground arith, λ n. cc (y, n))
  | inr n ↦ (ground arith, λ _. ground arith)
]

settled-Among :
    (jobs : List GenerationJob) (job : GenerationJob)
    → settlement_of jobs ≡ all_settled
    → Among job jobs
    → is_blank job.billing_transaction_id ≡ false
    → is_settled (normalized_compensation_status job.compensation_status) ≡ true
settled-Among [] job h m n = absurd m
settled-Among (x ∷ jobs) job h (inl e) n =
    subst
      (λ (y : GenerationJob).
        is_blank y.billing_transaction_id ≡ false
        → is_settled (normalized_compensation_status y.compensation_status) ≡ true)
      e (settled_head x jobs h).1 n
settled-Among (x ∷ jobs) job h (inr m) n = settled-Among jobs job (settled_head x jobs h).0 m n

-- When TryFinalize signals, the batch has ended, all of its jobs have, and the compensation of every
-- job that was charged is settled.
pub signal_when_done :
    (now : ℕ) (operation : GenerationOperation) (batch : GenerationBatch)
    (jobs : List GenerationJob) (f : Finalized) (job : GenerationJob)
    → finalize_batch now operation batch jobs ≡ ok f
    → f.events ≢ []
    → Among job jobs
    → (is_terminal_batch_status f.batch.status ≡ true)
      × (is_terminal_job_status job.status ≡ true)
      × (is_blank job.billing_transaction_id ≡ false
          → is_settled (normalized_compensation_status job.compensation_status) ≡ true)
signal_when_done now operation batch jobs f job h sent member =
    elim (finalize_batch-Outcome now operation batch jobs f h) [
      | ended_before y e v ↦ absurd (sent v)
      | jobs_run n e v ↦ absurd (sent v)
      | settles n e v ↦ absurd (sent v)
      | ends n t s e ↦ (
        ap (λ (x : Finalized). is_terminal_batch_status x.batch.status) e
            ∙ end_batch-terminal now operation (recount_batch batch jobs) jobs,
        all_terminal-Among jobs job t member,
        settled-Among jobs job s member,
      )
    ]
