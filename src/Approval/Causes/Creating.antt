-- ===== src/Approval/Causes/Creating.antt =====
-- Create of internal/aigc/approval/memory_store.go: what it does to the rows.
use dora_agent.Approval.Announced.{OutboxTo-same}
use dora_agent.Approval.Causes.Chains.{quiet-Effect, then-Effect}
use dora_agent.Approval.Effects.{Effect, IsPending, Written, effect_opened}
use dora_agent.Approval.Models.{
  Approval, FrozenCommand, approval_key_conflict, is_primary_review_approval,
  primary_review_pending,
}
use dora_agent.Approval.Requests.{
  check_approval, check_expiry, check_frozen_commands, normalize_approval, normalize_frozen_command,
  opened_approval, same_approval,
}
use dora_agent.Approval.State.{ApprovalStore, find_primary_review}
use dora_agent.Approval.Store.{
  admit_approval, create, create_by_id, create_by_key, created_again, is_missing, put_approval,
}
use dora_agent.Base.{
  Bool, Codec, Option, Option-cases, WhenOk, WhenOk-value, bind-WhenOk, false, inl, inr, insert,
  lookup, none, not, refl, require, required, some, true, ℕ, ◌||◌, ◌≡◌,
}

no_primary :
    {V : Type 0} (b : Bool) (o : Option V) → (not b || is_missing o) ≡ true → b ≡ true → o ≡ none
no_primary b none h p = refl
no_primary true (some v) h p = cc h
no_primary false (some v) h p = cc p

opened_approval-IsPending :
    (a : Approval) (approve reject : FrozenCommand) (now : ℕ)
    → IsPending (opened_approval a approve reject now)
unfolding opened_approval
opened_approval-IsPending a approve reject now = (refl, refl)

created-Written :
    (a : Approval) (s : ApprovalStore)
    → Written a s (record (put_approval a s) {
      approval_by_create_key = insert a.idempotency_key a.id s.approval_by_create_key;
    })
created-Written a s = record {
  approvals = refl;
  decisions = refl;
  decision_keys = refl;
  continuations = refl;
  outbox = OutboxTo-same _ _ refl refl;
}

module _ (c : Codec) where
  created_again-Effect :
      (found : Option Approval) (a : Approval) (s : ApprovalStore)
      → WhenOk (λ p. Effect c s p.0) (created_again found a s)
  unfolding created_again
  created_again-Effect none a s = tt
  created_again-Effect (some existing) a s =
      then-Effect c s (require (same_approval existing a) approval_key_conflict) _
        λ u e. quiet-Effect c s

  admit_approval-Effect :
      (a : Approval) (s : ApprovalStore)
      → lookup a.id s.approvals ≡ none
      → IsPending a
      → WhenOk (λ p. Effect c s p.0) (admit_approval a s)
  unfolding admit_approval
  admit_approval-Effect a s absent pending_a =
      then-Effect c s
        (require
          (not (is_primary_review_approval a)
            || is_missing (find_primary_review a.session_id s.approvals))
          primary_review_pending)
        _
        λ u e. effect_opened (
          a,
          absent,
          pending_a,
          λ primary. no_primary _ _ (required _ _ u e) primary,
          created-Written a s,
        )

  create_by_id-Effect :
      (a : Approval) (s : ApprovalStore)
      → IsPending a
      → WhenOk (λ p. Effect c s p.0) (create_by_id (lookup a.id s.approvals) a s)
  unfolding create_by_id create_by_key
  create_by_id-Effect a s pending_a = elim (Option-cases (lookup a.id s.approvals)) [
    | inr (existing, e) ↦ rw e (created_again-Effect (some existing) a s)
    | inl e ↦ elim (Option-cases (lookup a.idempotency_key s.approval_by_create_key)) [
      | inl f ↦ rw (e, f) (admit_approval-Effect a s e pending_a)
      | inr (id, f) ↦ rw (e, f) (created_again-Effect (lookup id s.approvals) a s)
    ]
  ]

  normalize_approval-IsPending :
      (wanted : Approval) (now : ℕ) → WhenOk IsPending (normalize_approval c wanted now)
  unfolding normalize_approval
  normalize_approval-IsPending wanted now = bind-WhenOk IsPending (check_approval wanted) _ λ u _.
      bind-WhenOk IsPending (normalize_frozen_command c wanted.approve_command) _ λ approve _.
        bind-WhenOk IsPending (normalize_frozen_command c wanted.reject_command) _ λ reject _.
          bind-WhenOk IsPending (check_frozen_commands approve reject) _ λ u _.
            bind-WhenOk IsPending (check_expiry wanted.expires_at now) _
              λ u _. opened_approval-IsPending wanted approve reject now

  pub create-Effect :
      (wanted : Approval) (now : ℕ) (s : ApprovalStore)
      → WhenOk (λ p. Effect c s p.0) (create c wanted now s)
  unfolding create
  create-Effect wanted now s = then-Effect c s (normalize_approval c wanted now) _ λ a e.
      create_by_id-Effect a s
        (WhenOk-value IsPending _ a (normalize_approval-IsPending wanted now) e)
