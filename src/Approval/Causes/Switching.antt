-- ===== src/Approval/Causes/Switching.antt =====
-- BindInterruptMapping and SwitchToDurableFallback of internal/aigc/approval/memory_store.go: what it does to the rows.
use dora_agent.Approval.Causes.Chains.{either-Effect, quiet-Effect, then-Effect}
use dora_agent.Approval.Effects.{
  Effect, append_outbox-Grown, effect_bound, effect_switched, put_approval-Written,
}
use dora_agent.Approval.Models.{
  Approval, approval_not_found, approval_transition, execution_eq, execution_interrupt,
  fallback_fenced, is_pending_approval, review_eq, review_interrupt, review_mode_immutable,
}
use dora_agent.Approval.Modes.{
  FallbackCommand, MappingCommand, bind_free, bind_interrupt_mapping, check_fallback, check_mapping,
  decided_continuation, fallback_result, fallen_back_approval, hand_over_continuation, has_switched,
  may_switch, same_mapping, switch_approval, switch_to_durable_fallback,
}
use dora_agent.Approval.Outboxes.{new_fallback_outbox}
use dora_agent.Approval.Requests.{now_or}
use dora_agent.Approval.State.{ApprovalStore, append_outbox, current_outbox}
use dora_agent.Base.{
  Codec, String, WhenOk, and_left, is_empty, lookup, nat_eq, not, or_fail, or_fail-some, refl,
  require, required, some, trim_space, true, ℕ, ◌&&◌, ◌≡◌,
}

module _ (c : Codec) where
  bind_free-Effect :
      (key : String) (a : Approval) (q : MappingCommand) (now : ℕ) (s : ApprovalStore)
      → lookup key s.approvals ≡ some a
      → is_pending_approval a.status ≡ true
      → WhenOk (λ p. Effect c s p.0) (bind_free a q now s)
  unfolding bind_free
  bind_free-Effect key a q now s found live =
      either-Effect c s (not (is_empty a.checkpoint_mapping_id)) _ _
        (λ e.
          then-Effect c s (require (same_mapping a q) fallback_fenced) _ λ u _. quiet-Effect c s)
        λ e. effect_bound (
          key,
          a,
          trim_space q.checkpoint_mapping_id,
          q.mapping_epoch,
          now,
          found,
          live,
          put_approval-Written _ s,
        )

  pub bind-Effect :
      (q : MappingCommand) (now : ℕ) (s : ApprovalStore)
      → WhenOk (λ p. Effect c s p.0) (bind_interrupt_mapping q now s)
  unfolding bind_interrupt_mapping
  bind-Effect q now s = then-Effect c s (check_mapping q) _ λ u _.
      then-Effect c s (or_fail (lookup (trim_space q.approval_id) s.approvals) approval_not_found) _
        λ a f.
          then-Effect c s (require (review_eq a.review_mode review_interrupt) approval_transition) _
            λ u _.
              then-Effect c s
                (require
                  (is_pending_approval a.status
                    && execution_eq a.execution_mode execution_interrupt)
                  approval_transition)
                _
                λ u e.
                  then-Effect c s
                    (require (nat_eq a.execution_epoch q.expected_execution_epoch) fallback_fenced)
                    _
                    λ u _.
                      bind_free-Effect (trim_space q.approval_id) a q now s (or_fail-some _ _ a f)
                        (and_left _ _ (required _ _ _ e))

  fallback_result-Effect :
      (a : Approval) (s : ApprovalStore) → WhenOk (λ p. Effect c s p.0) (fallback_result a s)
  unfolding fallback_result
  fallback_result-Effect a s =
      then-Effect c s (decided_continuation a s) _
        λ k _. then-Effect c s (current_outbox _ s) _ λ event _. quiet-Effect c s

  switch_approval-Effect :
      (key : String) (given : Approval) (now : ℕ) (s : ApprovalStore)
      → lookup key s.approvals ≡ some given
      → review_eq given.review_mode review_interrupt ≡ true
      → WhenOk (λ p. Effect c s p.0) (switch_approval c given now s)
  unfolding switch_approval
  switch_approval-Effect key given now s found review =
      then-Effect c s (decided_continuation (fallen_back_approval now given) s) _ λ current e.
        then-Effect c s (hand_over_continuation current (fallen_back_approval now given) now) _
          λ k f.
            then-Effect c s (new_fallback_outbox c (fallen_back_approval now given) k now) _
              λ event g. then-Effect c s (append_outbox event s) _ λ s₁ h. effect_switched (
                key,
                given,
                now,
                current,
                k,
                event,
                s₁,
                found,
                review,
                e,
                f,
                g,
                append_outbox-Grown event s s₁ h,
                refl,
              )

  pub switch-Effect :
      (q : FallbackCommand) (clock : ℕ) (s : ApprovalStore)
      → WhenOk (λ p. Effect c s p.0) (switch_to_durable_fallback c q clock s)
  unfolding switch_to_durable_fallback
  switch-Effect q clock s = then-Effect c s (check_fallback q) _ λ u _.
      then-Effect c s (or_fail (lookup (trim_space q.approval_id) s.approvals) approval_not_found) _
        λ a f.
          then-Effect c s (require (review_eq a.review_mode review_interrupt) review_mode_immutable)
            _
            λ u e.
              either-Effect c s (has_switched a q) _ _ (λ b. fallback_result-Effect a s)
                λ b. then-Effect c s (require (may_switch a q) fallback_fenced) _ λ u _.
                  switch_approval-Effect (trim_space q.approval_id) a (now_or q.now clock) s
                    (or_fail-some _ _ a f) (required _ _ _ e)
