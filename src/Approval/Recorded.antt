-- ===== src/Approval/Recorded.antt =====
-- Every operation of internal/aigc/approval/memory_store.go keeps the rows of decisions.
use dora_agent.Approval.Announced.{Announced, OutboxTo, Announced-at}
use dora_agent.Approval.Commands.{DecisionRequest}
use dora_agent.Approval.Decisions.{
  decision_event_type, decision_outbox_key, effective_status, plain_decision,
}
use dora_agent.Approval.Effects.{IsPending, OutboxGrown, Written, bound_approval}
use dora_agent.Approval.Evolution.{PreparedOf}
use dora_agent.Approval.Finality.{written-Keyed}
use dora_agent.Approval.Ledger.{
  Complete, Complete-kept, ContinuationOf, DecisionEventOf, IsRecorded, Stage, new_continuation-Of,
  new_decision_outbox-Of, selected_command-closed, with_command-Same,
}
use dora_agent.Approval.Models.{Approval, is_pending_approval}
use dora_agent.Approval.Outboxes.{Prepared}
use dora_agent.Approval.State.{ApprovalStore, continuation_key}
use dora_agent.Approval.Store.{put_decision}
use dora_agent.Base.{
  Codec, String, String_discrete, WhenOk-value, add64, ap, arith, false, found_before, inl, inr,
  insert, lookup, lookup-insert, lookup-insert_self, some, subst, sym, true, ℕ, ◌∙◌, ◌≡◌,
}

pub same-Stage :
    (s s' : ApprovalStore) (a : Approval)
    → s'.decisions ≡ s.decisions
    → s'.continuations ≡ s.continuations
    → ((k t g : String) → Announced s k t g → Announced s' k t g)
    → Stage s a
    → Stage s' a
same-Stage s s' a ed ek eo (inl p) = inl p
same-Stage s s' a ed ek eo (inr v) = inr (
    Complete-kept s s' a (λ k d h. ap (lookup k) ed ∙ h) (ap (lookup (continuation_key a.id 1)) ek)
      eo v)

-- The tables of a store that changed none of its rows.
pub same-IsRecorded :
    (s s' : ApprovalStore)
    → s'.approvals ≡ s.approvals
    → s'.decisions ≡ s.decisions
    → s'.continuations ≡ s.continuations
    → OutboxTo s s'
    → IsRecorded s
    → IsRecorded s'
same-IsRecorded s s' ea ed ek eo v = record {
  keyed = λ id a h. v.keyed id a (ap (lookup id) (sym ea) ∙ h);
  stages = λ id a h.
      same-Stage s s' a ed ek (eo.announced v.indexed)
        (v.stages id a (ap (lookup id) (sym ea) ∙ h));
  rows = λ key d h.
      let (p, q, (a, f, n)) = v.rows key d (ap (lookup key) (sym ed) ∙ h) in
      (p, q, (a, ap (lookup d.approval_id) ea ∙ f, n));
  indexed = eo.indexed v.indexed;
}

-- An approval that is pending is written, new or over a pending one.
pub pending-IsRecorded :
    (x : Approval) (s s' : ApprovalStore)
    → Written x s s'
    → IsPending x
    → ((a : Approval) → lookup x.id s.approvals ≡ some a → is_pending_approval a.status ≡ true)
    → IsRecorded s
    → IsRecorded s'
pending-IsRecorded x s s' w p over v = record {
  keyed = written-Keyed x s s' w.approvals v.keyed;
  stages = λ id a h.
      elim (found_before x.id id x a s.approvals (ap (lookup id) (sym w.approvals) ∙ h)) [
        | inl (e, q) ↦ inl (subst IsPending q p)
        | inr (old, n) ↦
            same-Stage s s' a w.decisions w.continuations (w.outbox.announced v.indexed)
              (v.stages id a old)
      ];
  rows = λ key d h.
      let (e, q, (a, f, n)) = v.rows key d (ap (lookup key) (sym w.decisions) ∙ h) in
      (
        e,
        q,
        (
          a,
          ap (lookup d.approval_id) w.approvals ∙ elim (String_discrete x.id d.approval_id) [
            | yes same ↦ cc (over a (ap (λ i. lookup i s.approvals) same ∙ f), n)
            | no other ↦ ground (arith, lookup-insert x.id d.approval_id x s.approvals)
          ],
          n,
        ),
      );
  indexed = w.outbox.indexed v.indexed;
}

pub bound-IsPending :
    (s : ApprovalStore) (a : Approval) (mapping : String) (epoch now : ℕ)
    → Stage s a
    → is_pending_approval a.status ≡ true
    → IsPending (bound_approval a mapping epoch now)
bound-IsPending s a mapping epoch now (inl (p, q)) h = (p, q)
bound-IsPending s a mapping epoch now (inr v) h = let n = v.closed in cc (n, h)

-- What a decision of a pending approval consists of, by field.
pub record DecisionFacts (p : Prepared) : Type 0 where
  pub version : p.approval.decision_version ≡ 1
  pub closed : is_pending_approval p.approval.status ≡ false
  pub row_id : p.decision.approval_id ≡ p.approval.id
  pub row_version : p.decision.decision_version ≡ 1
  pub row_status : p.decision.effective_status ≡ p.approval.status
  pub continued : ContinuationOf p.approval p.continuation
  pub event : DecisionEventOf p.approval p.continuation p.outbox

pub PreparedOf-Facts :
    (c : Codec) (a : Approval) (r : DecisionRequest) (p : Prepared)
    → IsPending a
    → PreparedOf c a r p
    → DecisionFacts p
PreparedOf-Facts c a r p (live, zero_version) of =
    let (x, sel, made) = of.selected in
    let (same_id, same_version, same_status, _, _, _, _, _) =
      with_command-Same x (plain_decision a r (effective_status a r)) in
    record {
      version = ap (λ y. y.decision_version) of.updated ∙ ap (λ n. add64 n 1) zero_version;
      closed =
          ap (λ y. is_pending_approval y.status) of.updated
          ∙ selected_command-closed (effective_status a r) a x sel;
      row_id = ap (λ d. d.approval_id) made ∙ same_id ∙ sym (ap (λ y. y.id) of.updated);
      row_version =
          ap (λ d. d.decision_version) made ∙ same_version ∙ ap (λ n. add64 n 1) zero_version;
      row_status =
          ap (λ d. d.effective_status) made ∙ same_status ∙ sym (ap (λ y. y.status) of.updated);
      continued =
          WhenOk-value (ContinuationOf p.approval) _ p.continuation
            (new_continuation-Of p.approval r.now) of.continued;
      event =
          WhenOk-value (DecisionEventOf p.approval p.continuation) _ p.outbox
            (new_decision_outbox-Of c p.approval p.continuation r.now) of.announced;
    }

-- The rows of a new decision.
pub decided-Complete :
    (p : Prepared) (s s₁ : ApprovalStore)
    → DecisionFacts p
    → OutboxGrown p.outbox s s₁
    → Complete
        (put_decision (continuation_key p.approval.id p.approval.decision_version) p s₁)
        p.approval
decided-Complete p s s₁ facts g =
    let key = continuation_key p.approval.id p.approval.decision_version in
    let at : key ≡ continuation_key p.approval.id 1 =
      ap (continuation_key p.approval.id) facts.version in
    let (k_id, k_epoch, k_executor) = facts.continued in
    let (_, key_is, type_is, aggregate_is) = facts.event in
    let event : Announced s₁
        (decision_outbox_key p.approval.id 1 p.continuation.execution_epoch
          (decision_event_type p.continuation.executor))
        (decision_event_type p.continuation.executor) p.approval.id =
      Announced-at s₁
        (key_is
          ∙ ap
              (λ n.
                decision_outbox_key p.approval.id n p.continuation.execution_epoch
                  (decision_event_type p.continuation.executor))
              facts.version)
        type_is aggregate_is g.there in
    record {
      version = facts.version;
      closed = facts.closed;
      decision = (
        p.decision,
        ap (λ j. lookup j (insert key p.decision s₁.decisions)) (sym at)
            ∙ lookup-insert_self key p.decision s₁.decisions,
        facts.row_id,
        facts.row_version,
        facts.row_status,
      );
      continuation = (
        p.continuation,
        ap (λ j. lookup j (insert key p.continuation s₁.continuations)) (sym at)
            ∙ lookup-insert_self key p.continuation s₁.continuations,
        k_id,
        k_epoch,
        k_executor,
        event,
      );
    }
