-- ===== src/Approval/Fallbacks.antt =====
-- A switch to the durable fallback in internal/aigc/approval/memory_store.go keeps the rows of
-- decisions.
use dora_agent.Approval.Announced.{Announced, IsIndexed, Announced-at}
use dora_agent.Approval.Decisions.{continuation_event, decision_outbox_key}
use dora_agent.Approval.Effects.{IsPending, OutboxGrown, put_approval-Written}
use dora_agent.Approval.Finality.{written-Keyed}
use dora_agent.Approval.Ledger.{
  Complete, Complete-kept, FallbackEventOf, IsRecorded, new_fallback_outbox-Of,
}
use dora_agent.Approval.Models.{Approval, ApprovalOutbox, is_pending_approval}
use dora_agent.Approval.Modes.{
  decided_continuation, fallen_back_approval, hand_over_continuation, handed_over, put_handed_over,
}
use dora_agent.Approval.Outboxes.{fallback_event_type, new_fallback_outbox}
use dora_agent.Approval.Recorded.{pending-IsRecorded, same-IsRecorded}
use dora_agent.Approval.Records.{
  closed_row, other_key, other_lookup, switched_decided, switched_pending,
}
use dora_agent.Approval.State.{ApprovalStore, continuation_key}
use dora_agent.Approval.Store.{put_approval}
use dora_agent.Base.{
  Codec, Option, String, WhenOk-value, add64, ap, found_before, inl, inr, insert, lookup,
  lookup-insert_self, none, ok, refl, some, subst, sym, ℕ, ◌∙◌, ◌≡◌,
}
use dora_agent.SessionRuntime.Models.Records.{Continuation}

grown-IsRecorded :
    (event : ApprovalOutbox) (s s₁ : ApprovalStore)
    → OutboxGrown event s s₁
    → event.id ≡ event.idempotency_key
    → IsRecorded s
    → IsRecorded s₁
grown-IsRecorded event s s₁ g id_is v =
    same-IsRecorded s s₁ g.approvals g.decisions g.continuations (g.outbox id_is) v

-- The approval had no decision yet.
switched-pending :
    (now : ℕ) (a : Approval) (s : ApprovalStore)
    → lookup a.id s.approvals ≡ some a
    → IsPending a
    → IsRecorded s
    → IsRecorded (put_approval (fallen_back_approval now a) s)
switched-pending now a s there p v =
    pending-IsRecorded (fallen_back_approval now a) s (put_approval (fallen_back_approval now a) s)
      (put_approval-Written (fallen_back_approval now a) s) p
      (λ b h.
        let same : a ≡ b = cc (there, h) in ap (λ x. is_pending_approval x.status) (sym same) ∙ p.0)
      v

-- The rows of an approval whose continuation was handed over, with an event for it.
switched-Complete :
    (now : ℕ) (a : Approval) (x : Continuation) (s : ApprovalStore)
    → Complete s a
    → x.approval_id ≡ a.id
    → Announced s
        (decision_outbox_key a.id a.decision_version (add64 a.execution_epoch 1) continuation_event)
        continuation_event
        a.id
    → let a' = fallen_back_approval now a in
      Complete
        (put_approval a' (put_handed_over (some (handed_over a'.execution_epoch now x)) a' s))
        a'
switched-Complete now a x s had x_id event =
    let version = had.version in
    record {
      version = version;
      closed = had.closed;
      decision = had.decision;
      continuation = (
        handed_over (add64 a.execution_epoch 1) now x,
        ap
              (λ n. lookup (continuation_key a.id n) (
                insert (continuation_key a.id a.decision_version)
                  (handed_over (add64 a.execution_epoch 1) now x) s.continuations))
              (sym version)
            ∙ lookup-insert_self (continuation_key a.id a.decision_version)
                (handed_over (add64 a.execution_epoch 1) now x) s.continuations,
        x_id,
        refl,
        refl,
        Announced-at s
            (ap (λ n. decision_outbox_key a.id n (add64 a.execution_epoch 1) continuation_event)
              version)
            refl refl event,
      );
    }

-- The approval was decided, and its continuation is handed over.
switched-decided :
    (now : ℕ) (a : Approval) (x : Continuation) (s : ApprovalStore)
    → lookup a.id s.approvals ≡ some a
    → Complete s a
    → x.approval_id ≡ a.id
    → Announced s
        (decision_outbox_key a.id a.decision_version (add64 a.execution_epoch 1) continuation_event)
        continuation_event
        a.id
    → IsRecorded s
    → let a' = fallen_back_approval now a in
      IsRecorded
        (put_approval a' (put_handed_over (some (handed_over a'.execution_epoch now x)) a' s))
switched-decided now a x s there had x_id event v =
    let a' = fallen_back_approval now a in
    let key = continuation_key a.id a.decision_version in
    let k = handed_over a'.execution_epoch now x in
    let s' = put_approval a' (put_handed_over (some k) a' s) in
    let whole : Complete s' a' = switched-Complete now a x s had x_id event in
    let at : key ≡ continuation_key a.id 1 = ap (continuation_key a.id) had.version in
    record {
      keyed = written-Keyed a' s s' refl v.keyed;
      stages = λ i b h. elim (found_before a.id i a' b s.approvals h) [
        | inl (e, q) ↦ inr (subst (Complete s') q whole)
        | inr (old, n) ↦ elim (v.stages i b old) [
          | inl idle ↦ inl idle
          | inr other ↦ inr (
              Complete-kept s s' b (λ j d f. f)
                (other_lookup key (continuation_key b.id 1) k s.continuations s.continuations refl
                  (λ same. n (other_key s a b v had other (sym at ∙ same) ∙ v.keyed i b old)))
                (λ k t g f. f) other)
        ]
      ];
      rows = λ j d h.
          let (e, q, (b, f, m)) = v.rows j d h in
          (e, q, closed_row a' s s' refl had.closed d.approval_id b f m);
      indexed = v.indexed;
    }

no_hand_over :
    (a : Approval) (now : ℕ) (k : Option Continuation)
    → hand_over_continuation none a now ≡ ok k
    → k ≡ none
unfolding hand_over_continuation
no_hand_over a now k h = cc h

grown-Complete :
    (s s₁ : ApprovalStore) (a : Approval) (event : ApprovalOutbox)
    → OutboxGrown event s s₁
    → event.id ≡ event.idempotency_key
    → IsIndexed s
    → Complete s a
    → Complete s₁ a
grown-Complete s s₁ a event g id_is v had =
    Complete-kept s s₁ a (λ k d f. ap (lookup k) g.decisions ∙ f)
      (ap (lookup (continuation_key a.id 1)) g.continuations) ((g.outbox id_is).announced v) had

pub switched-IsRecorded :
    (c : Codec) (key : String) (a : Approval) (now : ℕ) (current k : Option Continuation)
    (event : ApprovalOutbox) (s s₁ : ApprovalStore)
    → lookup key s.approvals ≡ some a
    → decided_continuation (fallen_back_approval now a) s ≡ ok current
    → hand_over_continuation current (fallen_back_approval now a) now ≡ ok k
    → new_fallback_outbox c (fallen_back_approval now a) k now ≡ ok event
    → OutboxGrown event s s₁
    → IsRecorded s
    → IsRecorded (
        put_approval
          (fallen_back_approval now a)
          (put_handed_over k (fallen_back_approval now a) s₁))
switched-IsRecorded c key a now current k event s s₁ found d h o g v =
    let a' = fallen_back_approval now a in
    let (id_is, key_is, type_is, aggregate_is) =
      WhenOk-value (FallbackEventOf a' k) _ event (new_fallback_outbox-Of c a' k now) o in
    let v₁ = grown-IsRecorded event s s₁ g id_is v in
    let there : lookup a.id s₁.approvals ≡ some a =
      ap (lookup a.id) g.approvals ∙ ap (λ i. lookup i s.approvals) (v.keyed key a found) ∙ found in
    elim (v.stages key a found) [
      | inl idle ↦
          let none_yet = switched_pending now a s current idle d in
          let k_none : k ≡ none =
            no_hand_over a' now k (ap (λ y. hand_over_continuation y a' now) (sym none_yet) ∙ h) in
          subst (λ y. IsRecorded (put_approval a' (put_handed_over y a' s₁))) (sym k_none)
            (switched-pending now a s₁ there idle v₁)
      | inr had ↦
          let (x, x_id, e) = switched_decided now a s current k had d h in
          let had₁ = grown-Complete s s₁ a event g id_is v.indexed had in
          let at =
            Announced-at s₁
              (key_is
                ∙ ap
                    (λ y.
                      decision_outbox_key a.id a.decision_version (add64 a.execution_epoch 1)
                        (fallback_event_type y))
                    e)
              (type_is ∙ ap fallback_event_type e) aggregate_is g.there in
          subst (λ y. IsRecorded (put_approval a' (put_handed_over y a' s₁))) (sym e)
            (switched-decided now a x s₁ there had₁ x_id at v₁)
    ]
