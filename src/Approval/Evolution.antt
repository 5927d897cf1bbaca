-- ===== src/Approval/Evolution.antt =====
-- How an approval of internal/aigc/approval/memory_store.go develops: what was asked stays, and a
-- decision is final.
use dora_agent.Approval.Commands.{DecisionRequest}
use dora_agent.Approval.Decisions.{
  decided_approval, effective_status, new_continuation, plain_decision, selected_command,
  with_command,
}
use dora_agent.Approval.Effects.{
  Effect, bound_approval, effect_bound, effect_decided, effect_opened, effect_quiet,
  effect_switched,
}
use dora_agent.Approval.Models.{
  Approval, ApprovalStatus, FrozenCommand, approval_already_decided, approval_version_conflict,
  execution_fallback, is_pending_approval, is_primary_review_approval, review_eq, review_interrupt,
}
use dora_agent.Approval.Modes.{fallen_back_approval, put_handed_over}
use dora_agent.Approval.Outboxes.{Prepared, new_decision_outbox, prepare_decision}
use dora_agent.Approval.State.{ApprovalStore, find_primary_review}
use dora_agent.Base.{
  Codec, Option, String, WhenOk, WhenOk-value, ap, arith, bind-WhenOk, false, inl, inr, insert,
  lookup, nat_eq, none, ok, refl, require, required, some, subst, sym, true, ℕ, ◌∙◌, ◌≡◌, ◌⊎◌,
}
use dora_agent.SessionRuntime.Models.Records.{Continuation}

pub record ApprovalEvolves (a a' : Approval) : Type 0 where
  pub same_id : a'.id ≡ a.id
  pub same_key : a'.idempotency_key ≡ a.idempotency_key
  pub same_session : a'.session_id ≡ a.session_id
  pub same_type : a'.artifact_type ≡ a.artifact_type
  pub same_binding : a'.binding ≡ a.binding
  pub same_review : a'.review_mode ≡ a.review_mode
  pub same_approve : a'.approve_command ≡ a.approve_command
  pub same_reject : a'.reject_command ≡ a.reject_command
  pub final :
      is_pending_approval a.status ≡ false
      → (a'.status ≡ a.status)
        × (a'.decision_version ≡ a.decision_version)
        × (a'.decided_at ≡ a.decided_at)
  pub mode :
      ((a'.execution_mode ≡ a.execution_mode) × (a'.execution_epoch ≡ a.execution_epoch))
      ⊎ ((a'.execution_mode ≡ execution_fallback)
          × (review_eq a.review_mode review_interrupt ≡ true))

pub ApprovalEvolves-refl : (a : Approval) → ApprovalEvolves a a
ApprovalEvolves-refl a = record {
  same_id = refl;
  same_key = refl;
  same_session = refl;
  same_type = refl;
  same_binding = refl;
  same_review = refl;
  same_approve = refl;
  same_reject = refl;
  final = λ h. (refl, refl, refl);
  mode = inl (refl, refl);
}

pub ApprovalEvolves-trans :
    (a b x : Approval) → ApprovalEvolves a b → ApprovalEvolves b x → ApprovalEvolves a x
ApprovalEvolves-trans a b x v w = record {
  same_id = w.same_id ∙ v.same_id;
  same_key = w.same_key ∙ v.same_key;
  same_session = w.same_session ∙ v.same_session;
  same_type = w.same_type ∙ v.same_type;
  same_binding = w.same_binding ∙ v.same_binding;
  same_review = w.same_review ∙ v.same_review;
  same_approve = w.same_approve ∙ v.same_approve;
  same_reject = w.same_reject ∙ v.same_reject;
  final = λ h.
      let (p, q, r) = v.final h in
      let (p', q', r') = w.final (ap is_pending_approval p ∙ h) in (p' ∙ p, q' ∙ q, r' ∙ r);
  mode = elim w.mode [
    | inl (m', e') ↦ elim v.mode [
      | inl (m, e) ↦ inl (m' ∙ m, e' ∙ e)
      | inr (m, i) ↦ inr (m' ∙ m, i)
    ]
    | inr (m', i') ↦ inr (m', sym (ap (λ r. review_eq r review_interrupt) v.same_review) ∙ i')
  ];
}

-- Every approval stands under its id.
abbrev pub Keyed : ApprovalStore → Type 0
Keyed s = (id : String) (a : Approval) → lookup id s.approvals ≡ some a → a.id ≡ id

-- What an operation does to the approvals: nothing, a new pending one, or one developed.
abbrev pub Developed : ApprovalStore → ApprovalStore → Type 0
Developed s s' =
    (x : Approval) × (a : Approval) × (lookup x.id s.approvals ≡ some a)
    × ApprovalEvolves a x
    × (s'.approvals ≡ insert x.id x s.approvals)

abbrev pub Opening : ApprovalStore → ApprovalStore → Type 0
Opening s s' =
    (x : Approval) × (lookup x.id s.approvals ≡ none)
    × (is_primary_review_approval x ≡ true → find_primary_review x.session_id s.approvals ≡ none)
    × (s'.approvals ≡ insert x.id x s.approvals)

abbrev pub ApprovalsTo : ApprovalStore → ApprovalStore → Type 0
ApprovalsTo s s' = (s'.approvals ≡ s.approvals) ⊎ (Opening s s' ⊎ Developed s s')

bound-Evolves :
    (a : Approval) (mapping : String) (epoch now : ℕ)
    → ApprovalEvolves a (bound_approval a mapping epoch now)
bound-Evolves a mapping epoch now = record {
  same_id = refl;
  same_key = refl;
  same_session = refl;
  same_type = refl;
  same_binding = refl;
  same_review = refl;
  same_approve = refl;
  same_reject = refl;
  final = λ h. (refl, refl, refl);
  mode = inl (refl, refl);
}

fallen_back-Evolves :
    (now : ℕ) (a : Approval)
    → review_eq a.review_mode review_interrupt ≡ true
    → ApprovalEvolves a (fallen_back_approval now a)
fallen_back-Evolves now a i = record {
  same_id = refl;
  same_key = refl;
  same_session = refl;
  same_type = refl;
  same_binding = refl;
  same_review = refl;
  same_approve = refl;
  same_reject = refl;
  final = λ h. (refl, refl, refl);
  mode = inr (refl, i);
}

decided-Evolves :
    (a : Approval) (r : DecisionRequest) (status : ApprovalStatus)
    → is_pending_approval a.status ≡ true
    → ApprovalEvolves a (decided_approval a r status)
decided-Evolves a r status p = record {
  same_id = refl;
  same_key = refl;
  same_session = refl;
  same_type = refl;
  same_binding = refl;
  same_review = refl;
  same_approve = refl;
  same_reject = refl;
  final = λ h. cc (p, h);
  mode = inl (refl, refl);
}

same_number : (a b : ℕ) → nat_eq a b ≡ true → a ≡ b
same_number a b h = ground arith

-- What a prepared decision consists of.
pub record PreparedOf (c : Codec) (a : Approval) (r : DecisionRequest) (p : Prepared) : Type 0 where
  pub live : is_pending_approval a.status ≡ true
  pub version : a.decision_version ≡ r.expected_decision_version
  pub selected :
      (x : Option FrozenCommand) × (selected_command (effective_status a r) a ≡ ok x)
      × (p.decision ≡ with_command x (plain_decision a r (effective_status a r)))
  pub updated : p.approval ≡ decided_approval a r (effective_status a r)
  pub continued : new_continuation p.approval r.now ≡ ok p.continuation
  pub announced : new_decision_outbox c p.approval p.continuation r.now ≡ ok p.outbox

pub prepare_decision-PreparedOf :
    (c : Codec) (a : Approval) (r : DecisionRequest)
    → WhenOk (PreparedOf c a r) (prepare_decision c a r)
unfolding prepare_decision
prepare_decision-PreparedOf c a r =
    bind-WhenOk (PreparedOf c a r) (require (is_pending_approval a.status) approval_already_decided)
      _
      λ u e.
        bind-WhenOk (PreparedOf c a r)
          (require (nat_eq a.decision_version r.expected_decision_version)
            approval_version_conflict)
          _
          λ u f. bind-WhenOk (PreparedOf c a r) (selected_command (effective_status a r) a) _ λ x g.
            bind-WhenOk (PreparedOf c a r)
              (new_continuation (decided_approval a r (effective_status a r)) r.now) _
              λ k h.
                bind-WhenOk (PreparedOf c a r)
                  (new_decision_outbox c (decided_approval a r (effective_status a r)) k r.now) _
                  λ event i. record {
                    live = required _ _ _ e;
                    version = same_number _ _ (required _ _ _ f);
                    selected = (x, g, refl);
                    updated = refl;
                    continued = h;
                    announced = i;
                  }

pub handed_over-approvals :
    (k : Option Continuation) (a : Approval) (s : ApprovalStore)
    → (put_handed_over k a s).approvals ≡ s.approvals
handed_over-approvals none a s = refl
handed_over-approvals (some k) a s = refl

pub Effect-ApprovalsTo :
    (c : Codec) (s s' : ApprovalStore) → Keyed s → Effect c s s' → ApprovalsTo s s'
Effect-ApprovalsTo c s s' keyed (effect_quiet q) = inl q.approvals
Effect-ApprovalsTo c s s' keyed (effect_opened (x, absent, p, primary, w)) =
    inr (inl (x, absent, primary, w.approvals))
Effect-ApprovalsTo c s s' keyed (effect_bound (key, a, m, e, now, found, p, w)) = inr (
    inr (
      bound_approval a m e now,
      a,
      ap (λ i. lookup i s.approvals) (keyed key a found) ∙ found,
      bound-Evolves a m e now,
      w.approvals,
    ))
Effect-ApprovalsTo c s s' keyed (effect_decided (a, r, p, s₁, found, k, e, d, g, q)) =
    let of = WhenOk-value (PreparedOf c a r) _ p (prepare_decision-PreparedOf c a r) e in
    inr (
      inr (
        p.approval,
        a,
        ap (λ x. lookup x.id s.approvals) of.updated
            ∙ ap (λ i. lookup i s.approvals) (keyed r.approval_id a found)
            ∙ found,
        subst (ApprovalEvolves a) (sym of.updated)
            (decided-Evolves a r (effective_status a r) of.live),
        ap (λ x. x.approvals) q ∙ ap (insert p.approval.id p.approval) g.approvals,
      ))
Effect-ApprovalsTo c s s' keyed
      (effect_switched (key, a, now, current, k, event, s₁, found, i, d, h, o, g, q)) =
    inr (
      inr (
        fallen_back_approval now a,
        a,
        ap (λ j. lookup j s.approvals) (keyed key a found) ∙ found,
        fallen_back-Evolves now a i,
        ap (λ x. x.approvals) q
            ∙ ap (insert a.id (fallen_back_approval now a))
                (handed_over-approvals k (fallen_back_approval now a) s₁ ∙ g.approvals),
      ))
