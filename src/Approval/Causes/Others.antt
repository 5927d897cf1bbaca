-- ===== src/Approval/Causes/Others.antt =====
-- CreateCandidateApprovalBatch, MarkOutboxPublished and MarkOutboxFailed of
-- internal/aigc/approval/memory_store.go leave the rows of approvals and decisions.
use dora_agent.Approval.Announced.{OutboxTo, OutboxTo-changed, OutboxTo-same}
use dora_agent.Approval.Candidates.{CandidateBatch, normalize_candidate_batch, same_candidate_batch}
use dora_agent.Approval.Causes.Chains.{quiet-Effect, then-Effect}
use dora_agent.Approval.Effects.{Effect, Quiet, effect_quiet, outbox_rows-Quiet}
use dora_agent.Approval.Models.{
  ApprovalOutbox, ApprovalOutboxStatus, approval_key_conflict, approval_not_found, invalid_approval,
  outbox_dead, outbox_pending, outbox_published,
}
use dora_agent.Approval.Relaying.{
  attempted, failed_outbox, is_pending_outbox, mark_outbox_failed, mark_outbox_published,
  publish_outbox,
}
use dora_agent.Approval.State.{ApprovalStore}
use dora_agent.Approval.Store.{
  batch_again, create_batch_by_id, create_batch_by_key, create_candidate_approval_batch,
}
use dora_agent.Base.{
  Bool-cases, Codec, Option, String, Table, WhenOk, bind-WhenOk, if-WhenOk, inl, inr, insert,
  is_blank, lookup, lt64, none, not, or_fail, or_fail-some, pos64, refl, require, some, trim_space,
  ℕ, ◌&&◌, ◌∙◌, ◌≡◌,
}

batch_rows-Quiet :
    (b : CandidateBatch) (s : ApprovalStore)
    → Quiet s (record s {
      candidate_batches = insert b.id b s.candidate_batches;
      candidate_batch_by_key = insert b.idempotency_key b.id s.candidate_batch_by_key;
    })
batch_rows-Quiet b s = record {
  approvals = refl;
  decisions = refl;
  decision_keys = refl;
  continuations = refl;
  outbox = OutboxTo-same _ _ refl refl;
}

failed_outbox-same :
    (at most : ℕ) (event : ApprovalOutbox)
    → let event' = failed_outbox at most (attempted event) in
      (event'.id ≡ event.id)
      × (event'.event_type ≡ event.event_type)
      × (event'.aggregate_id ≡ event.aggregate_id)
unfolding failed_outbox
failed_outbox-same at most event =
    elim (Bool-cases (pos64 most && not (lt64 (attempted event).attempts most))) [
      | inl y ↦ rw y (refl, refl, refl)
      | inr n ↦ rw n (refl, refl, refl)
    ]

module _ (c : Codec) where
  batch_again-Effect :
      (found : Option CandidateBatch) (b : CandidateBatch) (s : ApprovalStore)
      → WhenOk (λ p. Effect c s p.0) (batch_again found b s)
  unfolding batch_again
  batch_again-Effect none b s = tt
  batch_again-Effect (some existing) b s =
      then-Effect c s (require (same_candidate_batch existing b) approval_key_conflict) _
        λ u e. quiet-Effect c s

  create_batch_by_key-Effect :
      (found : Option String) (b : CandidateBatch) (s : ApprovalStore)
      → WhenOk (λ p. Effect c s p.0) (create_batch_by_key found b s)
  unfolding create_batch_by_key
  create_batch_by_key-Effect none b s = effect_quiet (batch_rows-Quiet b s)
  create_batch_by_key-Effect (some id) b s = batch_again-Effect (lookup id s.candidate_batches) b s

  create_batch_by_id-Effect :
      (found : Option CandidateBatch) (b : CandidateBatch) (s : ApprovalStore)
      → WhenOk (λ p. Effect c s p.0) (create_batch_by_id found b s)
  unfolding create_batch_by_id
  create_batch_by_id-Effect none b s =
      create_batch_by_key-Effect (lookup b.idempotency_key s.candidate_batch_by_key) b s
  create_batch_by_id-Effect (some existing) b s = batch_again-Effect (some existing) b s

  pub batch-Effect :
      (wanted : CandidateBatch) (now : ℕ) (s : ApprovalStore)
      → WhenOk (λ p. Effect c s p.0) (create_candidate_approval_batch wanted now s)
  unfolding create_candidate_approval_batch
  batch-Effect wanted now s =
      then-Effect c s (normalize_candidate_batch wanted now) _
        λ b _. create_batch_by_id-Effect (lookup b.id s.candidate_batches) b s

  outbox_rows-Effect :
      (rows : Table ApprovalOutbox) (s : ApprovalStore)
      → OutboxTo s (record s { outbox = rows })
      → Effect c s (record s { outbox = rows })
  outbox_rows-Effect rows s to = effect_quiet (outbox_rows-Quiet rows s to)

  publish_outbox-Effect :
      (event : ApprovalOutbox) (status : ApprovalOutboxStatus) (id : String) (at : ℕ)
      (s : ApprovalStore)
      → event.status ≡ status
      → lookup id s.outbox ≡ some event
      → WhenOk (Effect c s) (publish_outbox event id at s)
  unfolding publish_outbox
  publish_outbox-Effect event outbox_pending id at s e found = rw e (
      outbox_rows-Effect _ s
        (OutboxTo-changed s id id event _ found (λ v. refl) (refl, refl, refl)))
  publish_outbox-Effect event outbox_published id at s e found = rw e (quiet-Effect c s)
  publish_outbox-Effect event outbox_dead id at s e found = rw e tt

  pub published-Effect :
      (id : String) (at clock : ℕ) (s : ApprovalStore)
      → WhenOk (Effect c s) (mark_outbox_published id at clock s)
  unfolding mark_outbox_published
  published-Effect id at clock s =
      bind-WhenOk (Effect c s)
        (require (not (is_blank id)) (invalid_approval "outbox event id is required")) _
        λ u _.
          bind-WhenOk (Effect c s) (or_fail (lookup (trim_space id) s.outbox) approval_not_found) _
            λ event g.
              publish_outbox-Effect event event.status (trim_space id) _ s refl
                (or_fail-some (lookup (trim_space id) s.outbox) approval_not_found event g)

  pub failed-Effect :
      (id : String) (at most clock : ℕ) (s : ApprovalStore)
      → WhenOk (Effect c s) (mark_outbox_failed id at most clock s)
  unfolding mark_outbox_failed
  failed-Effect id at most clock s =
      bind-WhenOk (Effect c s) (or_fail (lookup (trim_space id) s.outbox) approval_not_found) _
        λ event g.
          let found = or_fail-some (lookup (trim_space id) s.outbox) approval_not_found event g in
          if-WhenOk (Effect c s) (not (is_pending_outbox event.status)) _ _ (λ e. quiet-Effect c s)
            (λ e. outbox_rows-Effect _ s (
              OutboxTo-changed s (trim_space id) _ event _ found
                (λ v. (failed_outbox-same _ most event).0 ∙ (v (trim_space id) event found).0)
                (failed_outbox-same _ most event)))
