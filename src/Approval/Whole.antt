-- ===== src/Approval/Whole.antt =====
-- All operations of internal/aigc/approval/memory_store.go keep the rows of decisions.
use dora_agent.Approval.Causes.Steps.{step-Effect}
use dora_agent.Approval.Effects.{
  Effect, IsPending, bound_approval, effect_bound, effect_decided, effect_opened, effect_quiet,
  effect_switched,
}
use dora_agent.Approval.Evolution.{PreparedOf, prepare_decision-PreparedOf}
use dora_agent.Approval.Fallbacks.{switched-IsRecorded}
use dora_agent.Approval.Ledger.{Complete, IsRecorded, new_approval_store-IsRecorded}
use dora_agent.Approval.Models.{Approval, is_pending_approval}
use dora_agent.Approval.Recorded.{bound-IsPending, pending-IsRecorded, same-IsRecorded}
use dora_agent.Approval.Records.{decided-IsRecorded}
use dora_agent.Approval.State.{ApprovalStore, new_approval_store}
use dora_agent.Approval.Steps.{ApprovalOp, approval_step, approval_steps}
use dora_agent.Base.{
  Codec, List, String, WhenOk-value, [], ap, lookup, some, subst, sym, ℕ, ◌∙◌, ◌∷◌, ◌≡◌, ◌⊎◌,
}

pub Effect-IsRecorded :
    (c : Codec) (s s' : ApprovalStore) → Effect c s s' → IsRecorded s → IsRecorded s'
Effect-IsRecorded c s s' (effect_quiet q) v =
    same-IsRecorded s s' q.approvals q.decisions q.continuations q.outbox v
Effect-IsRecorded c s s' (effect_opened (x, absent, p, primary, w)) v =
    pending-IsRecorded x s s' w p (λ a h. cc (absent, h)) v
Effect-IsRecorded c s s' (effect_bound (key, a, m, e, now, found, p, w)) v =
    pending-IsRecorded (bound_approval a m e now) s s' w
      (bound-IsPending s a m e now (v.stages key a found) p)
      (λ b h.
        let same : a ≡ b = cc (ap (λ i. lookup i s.approvals) (v.keyed key a found), found, h) in
        ap (λ y. is_pending_approval y.status) (sym same) ∙ p)
      v
Effect-IsRecorded c s s' (effect_decided (a, r, p, s₁, found, k, e, d, g, q)) v =
    subst IsRecorded (sym q) (
      decided-IsRecorded c a r p s s₁ found
        (WhenOk-value (PreparedOf c a r) _ p (prepare_decision-PreparedOf c a r) e) d g v)
Effect-IsRecorded c s s'
      (effect_switched (key, a, now, current, k, event, s₁, found, i, d, h, o, g, q)) v =
    subst IsRecorded (sym q) (switched-IsRecorded c key a now current k event s s₁ found d h o g v)

pub steps-IsRecorded :
    (c : Codec) (ops : List (ℕ × ApprovalOp)) (s : ApprovalStore)
    → IsRecorded s
    → IsRecorded (approval_steps c ops s)
unfolding approval_steps
steps-IsRecorded c [] s v = v
steps-IsRecorded c ((now, op) ∷ ops) s v =
    steps-IsRecorded c ops (approval_step c now op s)
      (Effect-IsRecorded c s (approval_step c now op s) (step-Effect c now op s) v)

-- A decision is recorded as a whole: after any operations on a new store, an approval is pending, in
-- version 0, or it is decided, in version 1, and its decision stands there with the approval's status,
-- its continuation with the approval's execution epoch and for the runner just if the approval
-- executes an interrupt, and in the outbox a row for this approval, of the type that the executor of
-- the continuation reads, to which the key of this continuation leads.
pub decision_recorded :
    (c : Codec) (ops : List (ℕ × ApprovalOp)) (id : String) (a : Approval)
    → lookup id (approval_steps c ops new_approval_store).approvals ≡ some a
    → IsPending a ⊎ Complete (approval_steps c ops new_approval_store) a
decision_recorded c ops id a h =
    let v = steps-IsRecorded c ops new_approval_store new_approval_store-IsRecorded in
    v.stages id a h
