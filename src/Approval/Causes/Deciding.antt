-- ===== src/Approval/Causes/Deciding.antt =====
-- Decide and Close of internal/aigc/approval/memory_store.go: what it does to the rows.
use dora_agent.Approval.Causes.Chains.{quiet-Effect, then-Effect}
use dora_agent.Approval.Commands.{
  CloseCommand, DecideCommand, DecisionRequest, decision_request_from_close,
  decision_request_from_command,
}
use dora_agent.Approval.Effects.{Effect, append_outbox-Grown, effect_decided}
use dora_agent.Approval.Models.{
  Approval, ApprovalDecision, approval_key_conflict, approval_not_found,
}
use dora_agent.Approval.Outboxes.{prepare_decision}
use dora_agent.Approval.State.{ApprovalStore, append_outbox, continuation_key, current_outbox}
use dora_agent.Approval.Store.{
  close, decide, decide_approval, decide_by_key, decide_request, decided_again, decision_result,
  is_missing, same_decision_request,
}
use dora_agent.Base.{
  Codec, Option, Option-cases, WhenOk, inl, inr, lookup, none, or_fail, or_fail-some, refl, require,
  required, some, true, ℕ, ◌≡◌,
}

missing_none : {V : Type 0} (o : Option V) → is_missing o ≡ true → o ≡ none
missing_none none h = refl
missing_none (some v) h = cc h

module _ (c : Codec) where
  decision_result-Effect :
      (d : ApprovalDecision) (s : ApprovalStore)
      → WhenOk (λ p. Effect c s p.0) (decision_result d s)
  unfolding decision_result
  decision_result-Effect d s = then-Effect c s (current_outbox _ s) _ λ event _. quiet-Effect c s

  decided_again-Effect :
      (found : Option ApprovalDecision) (r : DecisionRequest) (s : ApprovalStore)
      → WhenOk (λ p. Effect c s p.0) (decided_again found r s)
  unfolding decided_again
  decided_again-Effect none r s = tt
  decided_again-Effect (some d) r s =
      then-Effect c s (require (same_decision_request d r) approval_key_conflict) _
        λ u e. decision_result-Effect d s

  decide_approval-Effect :
      (a : Approval) (r : DecisionRequest) (s : ApprovalStore)
      → lookup r.approval_id s.approvals ≡ some a
      → lookup r.idempotency_key s.decision_by_key ≡ none
      → WhenOk (λ p. Effect c s p.0) (decide_approval c a r s)
  unfolding decide_approval
  decide_approval-Effect a r s found fresh = then-Effect c s (prepare_decision c a r) _ λ p e.
      then-Effect c s
        (require
          (is_missing
            (lookup (continuation_key p.approval.id p.approval.decision_version) s.decisions))
          approval_key_conflict)
        _
        λ u f. then-Effect c s (append_outbox p.outbox s) _ λ s₁ g. effect_decided (
          a,
          r,
          p,
          s₁,
          found,
          fresh,
          e,
          missing_none _ (required _ _ u f),
          append_outbox-Grown p.outbox s s₁ g,
          refl,
        )

  pub decide_request-Effect :
      (r : DecisionRequest) (s : ApprovalStore)
      → WhenOk (λ p. Effect c s p.0) (decide_request c r s)
  unfolding decide_request decide_by_key
  decide_request-Effect r s = elim (Option-cases (lookup r.idempotency_key s.decision_by_key)) [
    | inr (id, e) ↦ rw e (decided_again-Effect (lookup id s.decisions) r s)
    | inl e ↦ rw e (
        then-Effect c s (or_fail (lookup r.approval_id s.approvals) approval_not_found) _
          λ a f. decide_approval-Effect a r s (or_fail-some _ _ a f) e)
  ]

  pub decide-Effect :
      (q : DecideCommand) (now : ℕ) (s : ApprovalStore)
      → WhenOk (λ p. Effect c s p.0) (decide c q now s)
  unfolding decide
  decide-Effect q now s =
      then-Effect c s (decision_request_from_command q now) _ λ r _. decide_request-Effect r s

  pub close-Effect :
      (q : CloseCommand) (now : ℕ) (s : ApprovalStore)
      → WhenOk (λ p. Effect c s p.0) (close c q now s)
  unfolding close
  close-Effect q now s =
      then-Effect c s (decision_request_from_close q now) _ λ r _. decide_request-Effect r s
