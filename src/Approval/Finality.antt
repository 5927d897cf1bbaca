-- ===== src/Approval/Finality.antt =====
-- Sequences of operations on the store of internal/aigc/approval/memory_store.go: how approvals
-- develop.
use dora_agent.Approval.Causes.Steps.{step-Effect}
use dora_agent.Approval.Evolution.{
  ApprovalEvolves, ApprovalEvolves-refl, ApprovalEvolves-trans, ApprovalsTo, Effect-ApprovalsTo,
  Keyed,
}
use dora_agent.Approval.Models.{Approval}
use dora_agent.Approval.State.{ApprovalStore, new_approval_store}
use dora_agent.Approval.Steps.{ApprovalOp, approval_step, approval_steps}
use dora_agent.Base.{
  Codec, List, String, String_discrete, [], ap, arith, found_before, inl, inr, insert, lookup,
  lookup-insert, lookup-insert_kept, lookup-insert_self, some, subst, sym, ℕ, ◌∙◌, ◌∷◌, ◌≡◌,
}
use dora_agent.SessionRuntime.Store.State.{after}

EvolvedTo : ApprovalStore → ApprovalStore → Type 0
EvolvedTo s s' =
    (id : String) (a : Approval)
    → lookup id s.approvals ≡ some a
    → (a' : Approval) × (lookup id s'.approvals ≡ some a') × ApprovalEvolves a a'

-- A table of approvals with the approval x under its id.
pub written-Keyed :
    (x : Approval) (s s' : ApprovalStore)
    → s'.approvals ≡ insert x.id x s.approvals
    → Keyed s
    → Keyed s'
written-Keyed x s s' e keyed id a h =
    elim (found_before x.id id x a s.approvals (ap (lookup id) (sym e) ∙ h)) [
      | inl (p, q) ↦ sym (ap (λ y. y.id) q) ∙ p
      | inr (old, n) ↦ keyed id a old
    ]

approvals-Keyed : (s s' : ApprovalStore) → ApprovalsTo s s' → Keyed s → Keyed s'
approvals-Keyed s s' (inl e) keyed = λ id a h. keyed id a (ap (lookup id) (sym e) ∙ h)
approvals-Keyed s s' (inr (inl (x, absent, p, e))) keyed = written-Keyed x s s' e keyed
approvals-Keyed s s' (inr (inr (x, a, found, v, e))) keyed = written-Keyed x s s' e keyed

approvals-EvolvedTo : (s s' : ApprovalStore) → ApprovalsTo s s' → EvolvedTo s s'
unfolding EvolvedTo
approvals-EvolvedTo s s' (inl e) id a h = (a, ap (lookup id) e ∙ h, ApprovalEvolves-refl a)
approvals-EvolvedTo s s' (inr (inl (x, absent, p, e))) id a h = (
  a,
  ap (lookup id) e ∙ lookup-insert_kept x.id id x a s.approvals absent h,
  ApprovalEvolves-refl a,
)
approvals-EvolvedTo s s' (inr (inr (x, b, found, v, e))) id a h = elim (String_discrete x.id id) [
  | yes p ↦
      let same : b ≡ a = cc (ap (λ i. lookup i s.approvals) p, found, h) in
      (
        x,
        ap (lookup id) e
            ∙ ap (λ i. lookup i (insert x.id x s.approvals)) (sym p)
            ∙ lookup-insert_self x.id x s.approvals,
        subst (λ y. ApprovalEvolves y x) same v,
      )
  | no n ↦ (
    a,
    ap (lookup id) e ∙ ground (arith, lookup-insert x.id id x s.approvals),
    ApprovalEvolves-refl a,
  )
]

pub new_approval_store-Keyed : Keyed new_approval_store
unfolding new_approval_store lookup
new_approval_store-Keyed id a h = cc h

module _ (c : Codec) where
  pub step-ApprovalsTo :
      (now : ℕ) (op : ApprovalOp) (s : ApprovalStore)
      → Keyed s
      → ApprovalsTo s (approval_step c now op s)
  step-ApprovalsTo now op s keyed =
      Effect-ApprovalsTo c s (approval_step c now op s) keyed (step-Effect c now op s)

  pub step-Keyed :
      (now : ℕ) (op : ApprovalOp) (s : ApprovalStore) → Keyed s → Keyed (approval_step c now op s)
  step-Keyed now op s keyed =
      approvals-Keyed s (approval_step c now op s) (step-ApprovalsTo now op s keyed) keyed

  pub steps-Keyed :
      (ops : List (ℕ × ApprovalOp)) (s : ApprovalStore) → Keyed s → Keyed (approval_steps c ops s)
  unfolding approval_steps
  steps-Keyed [] s keyed = keyed
  steps-Keyed ((now, op) ∷ ops) s keyed =
      steps-Keyed ops (approval_step c now op s) (step-Keyed now op s keyed)

  steps-EvolvedTo :
      (ops : List (ℕ × ApprovalOp)) (s : ApprovalStore)
      → Keyed s
      → EvolvedTo s (approval_steps c ops s)
  unfolding approval_steps EvolvedTo
  steps-EvolvedTo [] s keyed id a h = (a, h, ApprovalEvolves-refl a)
  steps-EvolvedTo ((now, op) ∷ ops) s keyed id a h =
      let (b, f, v) =
        approvals-EvolvedTo s (approval_step c now op s) (step-ApprovalsTo now op s keyed) id a h in
      let (a', g, w) =
        steps-EvolvedTo ops (approval_step c now op s) (step-Keyed now op s keyed) id b f in
      (a', g, ApprovalEvolves-trans a b a' v w)

-- A decision is final: through any operations, at any times, on a store that only operations built,
-- every approval stays under its id, for the same session and artifact, with the same binding, review
-- mode and commands. Once it is not pending, its status, decision version and time of decision stay.
-- Its execution mode and epoch stay, or the approval of an interrupt review has fallen back.
pub steps-ApprovalEvolves :
    (c : Codec) (before after : List (ℕ × ApprovalOp)) (id : String) (a : Approval)
    → lookup id (approval_steps c before new_approval_store).approvals ≡ some a
    → (a' : Approval) × (lookup id
          (approval_steps c after (approval_steps c before new_approval_store)).approvals
        ≡ some a')
      × ApprovalEvolves a a'
unfolding EvolvedTo
steps-ApprovalEvolves c before after id a h =
    steps-EvolvedTo c after (approval_steps c before new_approval_store)
      (steps-Keyed c before new_approval_store new_approval_store-Keyed) id a h
