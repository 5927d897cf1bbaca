-- ===== src/Approval/Replay.antt =====
-- Decide of internal/aigc/approval/memory_store.go is idempotent.
use dora_agent.Approval.Again.{AnsweredBy, Answers, decide_request-Answers, steps-DecisionsKept}
use dora_agent.Approval.Causes.Deciding.{decide_request-Effect}
use dora_agent.Approval.Commands.{
  DecideCommand, DecisionRequest, decision_request_from_command, decision_word,
  normalize_decision_request, trimmed_request,
}
use dora_agent.Approval.Decisions.{decision_event_type, decision_outbox_key}
use dora_agent.Approval.Effects.{Effect}
use dora_agent.Approval.Ledger.{IsRecorded, new_approval_store-IsRecorded}
use dora_agent.Approval.Models.{ApprovalDecision, invalid_approval}
use dora_agent.Approval.Requests.{now_or}
use dora_agent.Approval.State.{
  ApprovalStore, continuation_key, current_outbox, new_approval_store, row_at,
}
use dora_agent.Approval.Steps.{ApprovalOp, approval_steps}
use dora_agent.Approval.Store.{
  DecisionResult, current_decision_key, decide, decide_by_key, decide_request, decided_again,
  decision_result, same_decision_request,
}
use dora_agent.Approval.Whole.{Effect-IsRecorded, steps-IsRecorded}
use dora_agent.Base.{
  >>=-eq-ok, Codec, List, String, WhenOk-value, ap, false, inl, inr, is_blank, lookup, lt64, not,
  ok, refl, require, some, sym, word, ℕ, ◌&&◌, ◌∙◌, ◌≡◌,
}
use dora_agent.SessionRuntime.Store.State.{after}

-- The request of a command at another time differs in its time.
at_time : DecisionRequest → ℕ → DecisionRequest
at_time r now = record r { now = now }

normalize_decision_request-at :
    (given r : DecisionRequest) (now now' : ℕ)
    → normalize_decision_request given now ≡ ok r
    → normalize_decision_request given now' ≡ ok (at_time r (now_or given.now now'))
unfolding normalize_decision_request at_time
normalize_decision_request-at given r now now' h =
    let (u, e, h₁) =
      >>=-eq-ok
        (require (not (is_blank given.approval_id) && not (is_blank given.idempotency_key))
          (invalid_approval "approval id and decision idempotency key are required"))
        _ h in
    let (u', e', h₂) =
      >>=-eq-ok
        (require (not (lt64 given.expected_decision_version 0))
          (invalid_approval "expected decision version cannot be negative"))
        _ h₁ in
    let same : trimmed_request given now ≡ r = cc h₂ in
    rw (e, e') (ap (λ (x : DecisionRequest). ok (record x { now = now_or given.now now' })) same)

decision_request-at :
    (q : DecideCommand) (r : DecisionRequest) (now now' : ℕ)
    → decision_request_from_command q now ≡ ok r
    → decision_request_from_command q now' ≡ ok (at_time r (now_or q.now now'))
unfolding decision_request_from_command
decision_request-at q r now now' h =
    let (word, e, h₁) = >>=-eq-ok (decision_word q.decision) _ h in
    rw e (normalize_decision_request-at _ r now now' h₁)

-- The decision's row leads to the approval, its continuation and its event.
decision_result-found :
    (s : ApprovalStore) (key : String) (d : ApprovalDecision)
    → IsRecorded s
    → lookup key s.decisions ≡ some d
    → (result : DecisionResult) × (decision_result d s ≡ ok (s, result))
      × (result.decision ≡ d)
      × (result.created ≡ false)
unfolding decision_result current_outbox current_decision_key
decision_result-found s key d v found =
    let (e, version, (a, at, closed)) = v.rows key d found in
    let a_id = v.keyed d.approval_id a at in
    elim (v.stages d.approval_id a at) [
      | inl (live, z) ↦ cc (live, closed)
      | inr had ↦
          let (k, stands, k_id, epoch, executor, (id, row, listed, _, _, _)) = had.continuation in
          let k_at : lookup (continuation_key d.approval_id d.decision_version) s.continuations
              ≡ some k =
            ap (λ n. lookup (continuation_key d.approval_id n) s.continuations) version
            ∙ ap (λ i. lookup (continuation_key i 1) s.continuations) (sym a_id)
            ∙ stands in
          let event_at : lookup
                (decision_outbox_key a.id a.decision_version k.execution_epoch
                  (decision_event_type k.executor))
                s.outbox_by_key
              ≡ some id =
            ap
              (λ n.
                lookup
                  (decision_outbox_key a.id n k.execution_epoch (decision_event_type k.executor))
                  s.outbox_by_key)
              had.version
            ∙ listed in
          (
            record {
              approval = some a;
              decision = d;
              continuation = some k;
              outbox = lookup id s.outbox;
              created = false;
            },
            rw (at, k_at, event_at) refl,
            refl,
            refl,
          )
    ]

-- A request under a known key whose decision it is.
answered_again :
    (c : Codec) (s : ApprovalStore) (r : DecisionRequest) (now : ℕ) (d : ApprovalDecision)
    → IsRecorded s
    → Answers s r d
    → (result : DecisionResult) × (decide_request c (at_time r now) s ≡ ok (s, result))
      × (result.decision ≡ d)
      × (result.created ≡ false)
unfolding decide_request decide_by_key decided_again at_time same_decision_request
answered_again c s r now d v (id, key_at, row_at, same) =
    let (result, e, p, q) = decision_result-found s id d v row_at in
    (result, rw (key_at, row_at) (rw (same) e), p, q)

-- A decision is idempotent: after a successful Decide on a store that only operations built, and any
-- further operations, among them fallbacks, the same command at any time succeeds, returns the same
-- decision, reports that nothing was created and leaves the store as it is.
pub decide_again :
    (c : Codec) (before after : List (ℕ × ApprovalOp)) (command : DecideCommand) (now now' : ℕ)
    (s' : ApprovalStore) (result : DecisionResult)
    → decide c command now (approval_steps c before new_approval_store) ≡ ok (s', result)
    → (result' : DecisionResult) × (decide c command now' (approval_steps c after s')
        ≡ ok (approval_steps c after s', result'))
      × (result'.decision ≡ result.decision)
      × (result'.created ≡ false)
unfolding decide
decide_again c before after command now now' s' result h =
    let s = approval_steps c before new_approval_store in
    let v = steps-IsRecorded c before new_approval_store new_approval_store-IsRecorded in
    let (r, made, h₁) = >>=-eq-ok (decision_request_from_command command now) _ h in
    let (id, key_at, row_at, same) =
      WhenOk-value (AnsweredBy c s v r) _ (s', result) (decide_request-Answers c s v r) h₁ in
    let v' =
      Effect-IsRecorded c s s'
        (WhenOk-value (λ (p : ApprovalStore × DecisionResult). Effect c s p.0) _ (s', result)
          (decide_request-Effect c r s) h₁)
        v in
    let kept = steps-DecisionsKept c after s' in
    let (result', e, p, q) =
      answered_again c (approval_steps c after s') r (now_or command.now now') result.decision
        (steps-IsRecorded c after s' v')
        (id, kept.keys r.idempotency_key id key_at, kept.rows id result.decision row_at, same) in
    (result', rw (decision_request-at command r now now' made) e, p, q)
