-- ===== src/Approval/Again.antt =====
-- A decision sent again under its idempotency key, in internal/aigc/approval/memory_store.go.
use dora_agent.Approval.Causes.Steps.{step-Effect}
use dora_agent.Approval.Commands.{DecisionRequest}
use dora_agent.Approval.Decisions.{effective_status, plain_decision}
use dora_agent.Approval.Effects.{
  Effect, OutboxGrown, effect_bound, effect_decided, effect_opened, effect_quiet, effect_switched,
}
use dora_agent.Approval.Evolution.{PreparedOf, prepare_decision-PreparedOf}
use dora_agent.Approval.Ledger.{IsRecorded, with_command-Same}
use dora_agent.Approval.Models.{
  Approval, ApprovalDecision, VersionBinding, approval_key_conflict, approval_not_found, binding_eq,
}
use dora_agent.Approval.Modes.{fallen_back_approval, put_handed_over}
use dora_agent.Approval.Outboxes.{Prepared, prepare_decision}
use dora_agent.Approval.State.{ApprovalStore, append_outbox, continuation_key, current_outbox}
use dora_agent.Approval.Steps.{ApprovalOp, approval_step, approval_steps}
use dora_agent.Approval.Store.{
  DecisionResult, current_decision_key, decide_approval, decide_by_key, decide_request,
  decided_again, decision_result, is_missing, put_decision, same_decision_request, same_observed,
}
use dora_agent.Base.{
  Codec, List, Option, Option-cases, String, WhenOk, WhenOk-value, [], ap, arith, bind-WhenOk, inl,
  inr, insert, lookup, lookup-insert_kept, lookup-insert_self, none, or_fail, or_fail-some, refl,
  require, required, some, str_eq_refl, subst, sym, true, ℕ, ◌∙◌, ◌∷◌, ◌≡◌,
}
use dora_agent.SessionRuntime.Models.Records.{Continuation}

-- The rows of decisions and their keys stay.
pub record DecisionsKept (s s' : ApprovalStore) : Type 0 where
  pub rows :
      (k : String) (d : ApprovalDecision)
      → lookup k s.decisions ≡ some d
      → lookup k s'.decisions ≡ some d
  pub keys :
      (k id : String) → lookup k s.decision_by_key ≡ some id → lookup k s'.decision_by_key ≡ some id

same-DecisionsKept :
    (s s' : ApprovalStore)
    → s'.decisions ≡ s.decisions
    → s'.decision_by_key ≡ s.decision_by_key
    → DecisionsKept s s'
same-DecisionsKept s s' e f = record {
  rows = λ k d h. ap (lookup k) e ∙ h;
  keys = λ k id h. ap (lookup k) f ∙ h;
}

decision_key :
    (c : Codec) (a : Approval) (r : DecisionRequest) (p : Prepared)
    → PreparedOf c a r p
    → p.decision.idempotency_key ≡ r.idempotency_key
decision_key c a r p of =
    let (x, sel, made) = of.selected in
    let (_, _, _, same_key, _, _, _, _) =
      with_command-Same x (plain_decision a r (effective_status a r)) in
    ap (λ d. d.idempotency_key) made ∙ same_key

decided-DecisionsKept :
    (c : Codec) (a : Approval) (r : DecisionRequest) (p : Prepared) (s s₁ : ApprovalStore)
    → lookup r.idempotency_key s.decision_by_key ≡ none
    → PreparedOf c a r p
    → lookup (continuation_key p.approval.id p.approval.decision_version) s.decisions ≡ none
    → OutboxGrown p.outbox s s₁
    → DecisionsKept s
        (put_decision (continuation_key p.approval.id p.approval.decision_version) p s₁)
decided-DecisionsKept c a r p s s₁ fresh of absent g =
    let key = continuation_key p.approval.id p.approval.decision_version in
    record {
      rows = λ k d h.
          ap (λ m. lookup k (insert key p.decision m)) g.decisions
          ∙ lookup-insert_kept key k p.decision d s.decisions absent h;
      keys = λ k id h.
          ap (λ m. lookup k (insert p.decision.idempotency_key key m)) g.decision_keys
          ∙ lookup-insert_kept p.decision.idempotency_key k key id s.decision_by_key
              (ap (λ j. lookup j s.decision_by_key) (decision_key c a r p of) ∙ fresh) h;
    }

handed_over-decisions :
    (k : Option Continuation) (a : Approval) (s : ApprovalStore)
    → ((put_handed_over k a s).decisions ≡ s.decisions)
      × ((put_handed_over k a s).decision_by_key ≡ s.decision_by_key)
handed_over-decisions none a s = (refl, refl)
handed_over-decisions (some k) a s = (refl, refl)

pub Effect-DecisionsKept : (c : Codec) (s s' : ApprovalStore) → Effect c s s' → DecisionsKept s s'
Effect-DecisionsKept c s s' (effect_quiet q) = same-DecisionsKept s s' q.decisions q.decision_keys
Effect-DecisionsKept c s s' (effect_opened (x, absent, p, primary, w)) =
    same-DecisionsKept s s' w.decisions w.decision_keys
Effect-DecisionsKept c s s' (effect_bound (key, a, m, e, now, found, p, w)) =
    same-DecisionsKept s s' w.decisions w.decision_keys
Effect-DecisionsKept c s s' (effect_decided (a, r, p, s₁, found, k, e, d, g, q)) =
    subst (DecisionsKept s) (sym q) (
      decided-DecisionsKept c a r p s s₁ k
        (WhenOk-value (PreparedOf c a r) _ p (prepare_decision-PreparedOf c a r) e) d g)
Effect-DecisionsKept c s s'
      (effect_switched (key, a, now, current, k, event, s₁, found, i, d, h, o, g, q)) =
    let (e, f) = handed_over-decisions k (fallen_back_approval now a) s₁ in
    same-DecisionsKept s s' (ap (λ x. x.decisions) q ∙ e ∙ g.decisions)
      (ap (λ x. x.decision_by_key) q ∙ f ∙ g.decision_keys)

pub steps-DecisionsKept :
    (c : Codec) (ops : List (ℕ × ApprovalOp)) (s : ApprovalStore)
    → DecisionsKept s (approval_steps c ops s)
unfolding approval_steps
steps-DecisionsKept c [] s = same-DecisionsKept s s refl refl
steps-DecisionsKept c ((now, op) ∷ ops) s =
    let here = Effect-DecisionsKept c s (approval_step c now op s) (step-Effect c now op s) in
    let rest = steps-DecisionsKept c ops (approval_step c now op s) in
    record {
      rows = λ k d h. rest.rows k d (here.rows k d h);
      keys = λ k id h. rest.keys k id (here.keys k id h);
    }

-- The decision of a request stands under its key.
abbrev pub Answers : ApprovalStore → DecisionRequest → ApprovalDecision → Type 0
Answers s r d =
    (id : String) × (lookup r.idempotency_key s.decision_by_key ≡ some id)
    × (lookup id s.decisions ≡ some d)
    × (same_decision_request d r ≡ true)

binding_eq_refl : (b : VersionBinding) → binding_eq b b ≡ true
unfolding binding_eq
binding_eq_refl b =
    rw (str_eq_refl b.artifact_id, str_eq_refl b.storyboard_id, str_eq_refl b.target_id)
      (ground arith)

same_observed_refl : (o : Option VersionBinding) → same_observed o o ≡ true
same_observed_refl none = refl
same_observed_refl (some b) = binding_eq_refl b

new_decision-same :
    (c : Codec) (a : Approval) (r : DecisionRequest) (p : Prepared)
    → PreparedOf c a r p
    → a.id ≡ r.approval_id
    → same_decision_request p.decision r ≡ true
unfolding same_decision_request
new_decision-same c a r p of e =
    let (x, sel, made) = of.selected in
    let (same_id, _, _, _, same_word, same_actor, same_reason, same_seen) =
      with_command-Same x (plain_decision a r (effective_status a r)) in
    rw
      (
        made,
        same_id,
        same_word,
        same_actor,
        same_reason,
        same_seen,
        e,
        str_eq_refl r.approval_id,
        str_eq_refl r.requested_decision,
        str_eq_refl r.actor_id,
        str_eq_refl r.reason,
        same_observed_refl r.observed_binding,
      )
      refl

module _ (c : Codec) (s : ApprovalStore) (v : IsRecorded s) where
  -- A successful decision is answered from its row.
  abbrev pub AnsweredBy : DecisionRequest → ApprovalStore × DecisionResult → Type 0
  AnsweredBy r p = Answers p.0 r p.1.decision

  decide_approval-Answers :
      (a : Approval) (r : DecisionRequest)
      → lookup r.approval_id s.approvals ≡ some a
      → WhenOk (AnsweredBy r) (decide_approval c a r s)
  unfolding decide_approval
  decide_approval-Answers a r found = bind-WhenOk (AnsweredBy r) (prepare_decision c a r) _ λ p e.
      bind-WhenOk (AnsweredBy r)
        (require
          (is_missing
            (lookup (continuation_key p.approval.id p.approval.decision_version) s.decisions))
          approval_key_conflict)
        _
        λ u f. bind-WhenOk (AnsweredBy r) (append_outbox p.outbox s) _ λ s₁ g.
          let of = WhenOk-value (PreparedOf c a r) _ p (prepare_decision-PreparedOf c a r) e in
          let key = continuation_key p.approval.id p.approval.decision_version in
          (
            key,
            ap (λ j. lookup j (insert p.decision.idempotency_key key s₁.decision_by_key))
                  (sym (decision_key c a r p of))
                ∙ lookup-insert_self p.decision.idempotency_key key s₁.decision_by_key,
            lookup-insert_self key p.decision s₁.decisions,
            new_decision-same c a r p of (v.keyed r.approval_id a found),
          )

  decided_again-Answers :
      (id : String) (found : Option ApprovalDecision) (r : DecisionRequest)
      → lookup r.idempotency_key s.decision_by_key ≡ some id
      → lookup id s.decisions ≡ found
      → WhenOk (AnsweredBy r) (decided_again found r s)
  unfolding decided_again decision_result
  decided_again-Answers id none r e f = tt
  decided_again-Answers id (some d) r e f =
      bind-WhenOk (AnsweredBy r) (require (same_decision_request d r) approval_key_conflict) _
        λ u g.
          bind-WhenOk (AnsweredBy r)
            (current_outbox
              (current_decision_key (lookup d.approval_id s.approvals)
                (lookup (continuation_key d.approval_id d.decision_version) s.continuations))
              s)
            _ λ event h. (id, e, f, required _ _ _ g)

  pub decide_request-Answers : (r : DecisionRequest) → WhenOk (AnsweredBy r) (decide_request c r s)
  unfolding decide_request decide_by_key
  decide_request-Answers r = elim (Option-cases (lookup r.idempotency_key s.decision_by_key)) [
    | inr (id, e) ↦ rw e (decided_again-Answers id (lookup id s.decisions) r e refl)
    | inl e ↦ rw e (
        bind-WhenOk (AnsweredBy r) (or_fail (lookup r.approval_id s.approvals) approval_not_found) _
          λ a f. decide_approval-Answers a r (or_fail-some _ _ a f))
  ]
