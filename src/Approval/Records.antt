-- ===== src/Approval/Records.antt =====
-- Decisions and fallbacks of internal/aigc/approval/memory_store.go keep the rows of decisions, and so
-- do all operations.
use dora_agent.Approval.Announced.{IsIndexed, OutboxTo}
use dora_agent.Approval.Commands.{DecisionRequest}
use dora_agent.Approval.Effects.{IsPending, OutboxGrown}
use dora_agent.Approval.Evolution.{PreparedOf}
use dora_agent.Approval.Finality.{written-Keyed}
use dora_agent.Approval.Ledger.{Complete, Complete-kept, IsRecorded, RowOf, Stage}
use dora_agent.Approval.Models.{Approval, continuation_busy, fallback_fenced, is_pending_approval}
use dora_agent.Approval.Modes.{
  decided_continuation, fallen_back_approval, hand_over_continuation, handed_over,
}
use dora_agent.Approval.Outboxes.{Prepared}
use dora_agent.Approval.Recorded.{DecisionFacts, PreparedOf-Facts, decided-Complete}
use dora_agent.Approval.State.{ApprovalStore, continuation_key}
use dora_agent.Approval.Store.{put_decision}
use dora_agent.Base.{
  Codec, Option, String, String_discrete, Table, WhenOk, WhenOk-value, ap, arith, bind-WhenOk,
  false, found_before, inl, inr, insert, lookup, lookup-insert, lookup-insert_kept,
  lookup-insert_self, none, not, ok, pos64, refl, require, some, subst, sym, true, ℕ, ◌∙◌, ◌≡◌, ◌≢◌,
}
use dora_agent.SessionRuntime.Models.Records.{Continuation}
use dora_agent.SessionRuntime.Store.Continuations.{is_applied, is_leased}

-- An approval whose decision row stands under another key.
pub other_key :
    (s : ApprovalStore) (a b : Approval)
    → IsRecorded s
    → Complete s a
    → Complete s b
    → continuation_key a.id 1 ≡ continuation_key b.id 1
    → a.id ≡ b.id
other_key s a b v ca cb e =
    let (d, f, i, j, k) = ca.decision in
    let (d', f', i', j', k') = cb.decision in
    let same : d ≡ d' = cc (ap (λ key. lookup key s.decisions) e, f, f') in
    sym i ∙ ap (λ x. x.approval_id) same ∙ i'

pub IsPending-Stage :
    (s : ApprovalStore) (a : Approval)
    → is_pending_approval a.status ≡ true
    → Stage s a
    → IsPending a
IsPending-Stage s a h (inl p) = p
IsPending-Stage s a h (inr v) = let n = v.closed in cc (n, h)

pub other_lookup :
    (key k : String) (x : Continuation) (m m' : Table Continuation)
    → m' ≡ m
    → key ≢ k
    → lookup k (insert key x m') ≡ lookup k m
other_lookup key k x m m' e n =
    ap (λ y. lookup k (insert key x y)) e ∙ ground (arith, lookup-insert key k x m)

-- A decided approval at an identity, after a decided one was written.
pub closed_row :
    (x : Approval) (s s' : ApprovalStore)
    → s'.approvals ≡ insert x.id x s.approvals
    → is_pending_approval x.status ≡ false
    → (id : String) (b : Approval) → lookup id s.approvals ≡ some b
    → is_pending_approval b.status ≡ false
    → (a : Approval) × (lookup id s'.approvals ≡ some a) × (is_pending_approval a.status ≡ false)
closed_row x s s' w closed id b f n = elim (String_discrete x.id id) [
  | yes same ↦ (
    x,
    ap (lookup id) w
        ∙ ap (λ i. lookup i (insert x.id x s.approvals)) (sym same)
        ∙ lookup-insert_self x.id x s.approvals,
    closed,
  )
  | no other ↦ (b, ap (lookup id) w ∙ ground (arith, lookup-insert x.id id x s.approvals), n)
]

-- The row of a new decision stands under its approval and version.
decided_row :
    (p : Prepared) (s' : ApprovalStore) (k : String)
    → DecisionFacts p
    → continuation_key p.approval.id p.approval.decision_version ≡ k
    → lookup p.approval.id s'.approvals ≡ some p.approval
    → RowOf s' k p.decision
decided_row p s' k facts e there = (
  sym e
      ∙ ap (continuation_key p.approval.id) facts.version
      ∙ ap (λ i. continuation_key i 1) (sym facts.row_id),
  facts.row_version,
  (p.approval, ap (λ i. lookup i s'.approvals) facts.row_id ∙ there, facts.closed),
)

-- An approval that was there before the decision of another one.
decided-Stage :
    (p : Prepared) (s s₁ : ApprovalStore) (b : Approval)
    → lookup (continuation_key p.approval.id p.approval.decision_version) s.decisions ≡ none
    → OutboxGrown p.outbox s s₁
    → OutboxTo s s₁
    → IsIndexed s
    → Stage s b
    → Stage (put_decision (continuation_key p.approval.id p.approval.decision_version) p s₁) b
decided-Stage p s s₁ b absent g to v (inl idle) = inl idle
decided-Stage p s s₁ b absent g to v (inr had) =
    let key = continuation_key p.approval.id p.approval.decision_version in
    let (d, f, i, j, k) = had.decision in
    inr (
      Complete-kept s (put_decision key p s₁) b
        (λ k d h.
          ap (λ m. lookup k (insert key p.decision m)) g.decisions
          ∙ lookup-insert_kept key k p.decision d s.decisions absent h)
        (other_lookup key (continuation_key b.id 1) p.continuation s.continuations s₁.continuations
          g.continuations (λ same. cc (ap (λ y. lookup y s.decisions) same, absent, f)))
        (to.announced v) had)

pub decided-IsRecorded :
    (c : Codec) (a : Approval) (r : DecisionRequest) (p : Prepared) (s s₁ : ApprovalStore)
    → lookup r.approval_id s.approvals ≡ some a
    → PreparedOf c a r p
    → lookup (continuation_key p.approval.id p.approval.decision_version) s.decisions ≡ none
    → OutboxGrown p.outbox s s₁
    → IsRecorded s
    → IsRecorded (put_decision (continuation_key p.approval.id p.approval.decision_version) p s₁)
decided-IsRecorded c a r p s s₁ found of absent g v =
    let key = continuation_key p.approval.id p.approval.decision_version in
    let s' = put_decision key p s₁ in
    let waiting : IsPending a = IsPending-Stage s a of.live (v.stages r.approval_id a found) in
    let facts = PreparedOf-Facts c a r p waiting of in
    let to : OutboxTo s s₁ = g.outbox facts.event.0 in
    let whole : Complete s' p.approval = decided-Complete p s s₁ facts g in
    let written : s'.approvals ≡ insert p.approval.id p.approval s.approvals =
      ap (insert p.approval.id p.approval) g.approvals in
    record {
      keyed = written-Keyed p.approval s s' written v.keyed;
      stages = λ id b h.
          elim (found_before p.approval.id id p.approval b s.approvals
            (ap (lookup id) (sym written) ∙ h)) [
              | inl (e, q) ↦ inr (subst (Complete s') q whole)
              | inr (old, n) ↦ decided-Stage p s s₁ b absent g to v.indexed (v.stages id b old)
            ];
      rows = λ k d h.
          elim (found_before key k p.decision d s.decisions
            (ap (λ m. lookup k (insert key p.decision m)) (sym g.decisions) ∙ h)) [
              | inl (e, q) ↦ subst (RowOf s' k) q (
                  decided_row p s' k facts e (
                    ap (lookup p.approval.id) written
                    ∙ lookup-insert_self p.approval.id p.approval s.approvals))
              | inr (old, n) ↦
                  let (e, q, (b, f, m)) = v.rows k d old in
                  (e, q, closed_row p.approval s s' written facts.closed d.approval_id b f m)
            ];
      indexed = to.indexed v.indexed;
    }

-- A fallback before the decision leaves the approval pending.
pub switched_pending :
    (now : ℕ) (a : Approval) (s : ApprovalStore) (current : Option Continuation)
    → IsPending a
    → decided_continuation (fallen_back_approval now a) s ≡ ok current
    → current ≡ none
unfolding decided_continuation
switched_pending now a s current (p, zero_version) h =
    let e : pos64 a.decision_version ≡ false = ap pos64 zero_version in
    let q : ok none ≡ ok current = sym (rw e refl) ∙ h in cc q

handed_over-Ok :
    (x : Continuation) (a : Approval) (now : ℕ)
    → WhenOk
        (λ (o : Option Continuation). o ≡ some (handed_over a.execution_epoch now x))
        (hand_over_continuation (some x) a now)
unfolding hand_over_continuation
handed_over-Ok x a now =
    bind-WhenOk (λ (o : Option Continuation). o ≡ some (handed_over a.execution_epoch now x))
      (require (not (is_applied x.status)) fallback_fenced) _
      λ u e.
        bind-WhenOk (λ (o : Option Continuation). o ≡ some (handed_over a.execution_epoch now x))
          (require (not (is_leased x now)) continuation_busy) _ λ u f. refl

-- A fallback after the decision hands the continuation over.
pub switched_decided :
    (now : ℕ) (a : Approval) (s : ApprovalStore) (current k : Option Continuation)
    → Complete s a
    → decided_continuation (fallen_back_approval now a) s ≡ ok current
    → hand_over_continuation current (fallen_back_approval now a) now ≡ ok k
    → (x : Continuation) × (x.approval_id ≡ a.id)
      × (k ≡ some (handed_over (fallen_back_approval now a).execution_epoch now x))
unfolding decided_continuation hand_over_continuation
switched_decided now a s current k v h f =
    let (x, found, x_id, _, _, _) = v.continuation in
    let e : pos64 a.decision_version ≡ true = ap pos64 v.version in
    let at : lookup (continuation_key a.id a.decision_version) s.continuations ≡ some x =
      ap (λ n. lookup (continuation_key a.id n) s.continuations) v.version ∙ found in
    let q : ok (some x) ≡ ok current = sym (rw (e, at) refl) ∙ h in
    let same : current ≡ some x = cc q in
    let f' : hand_over_continuation (some x) (fallen_back_approval now a) now ≡ ok k =
      ap (λ o. hand_over_continuation o (fallen_back_approval now a) now) (sym same) ∙ f in
    (
      x,
      x_id,
      WhenOk-value
          (λ (o : Option Continuation).
            o ≡ some (handed_over (fallen_back_approval now a).execution_epoch now x))
          _ k (handed_over-Ok x (fallen_back_approval now a) now) f',
    )
