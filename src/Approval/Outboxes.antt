-- ===== src/Approval/Outboxes.antt =====
-- prepareDecision and the events of internal/aigc/approval/store.go, and NewResumeRequested of
-- internal/aigc/sessionruntime/models.go, which the event of an interrupt carries.
use dora_agent.Approval.Commands.{DecisionRequest}
use dora_agent.Approval.Decisions.{
  continuation_event, continuation_fields, decided_approval, decision_destination,
  decision_event_id, decision_event_type, decision_outbox_key, effective_status, fallback_event,
  new_continuation, outbox_event, plain_decision, selected_command, with_command,
}
use dora_agent.Approval.Models.{
  Approval, ApprovalDecision, ApprovalError, ApprovalOutbox, approval_already_decided,
  approval_version_conflict, execution_text, invalid_approval, is_pending_approval,
}
use dora_agent.Base.{
  Codec, List, Option, Result, Scalar, String, [], decimal, if◌then◌else◌, is_blank, nat_eq, none,
  number, ok, or_fail, require, some, text, trim_space, ℕ, ◌&◌, ◌>>=◌, ◌>>◌, ◌∷◌,
}
use dora_agent.SessionRuntime.Models.Inputs.{ResumeRequested, input_fields, resume_requested}
use dora_agent.SessionRuntime.Models.Records.{Continuation}
use dora_agent.SessionRuntime.Models.Status.{deterministic, other_executor, runner_resume}

unfoldable pub new_resume_requested : String → ℕ → String → ResumeRequested
new_resume_requested id version event_id =
    let input_id = "approval:" & trim_space id & ":resume:" & decimal version in
    record {
      input_id = input_id;
      event_id = if is_blank event_id then input_id else event_id;
      approval_id = trim_space id;
      decision_version = version;
      mapping_id = "";
      mapping_epoch = 0;
      checkpoint_id = "";
      interrupt_id = "";
      content = "";
      data_json = "";
    }

-- The resumption of the interrupt that the approval's mapping names.
unfoldable pub approval_resume : Approval → ResumeRequested
unfolding new_resume_requested decision_event_id
approval_resume a =
    record (new_resume_requested a.id a.decision_version
      (decision_event_id a.id a.decision_version)) {
        mapping_id = a.checkpoint_mapping_id;
        mapping_epoch = a.mapping_epoch;
      }

unfoldable pub decision_payload : Approval → Continuation → List (String × Scalar)
unfolding input_fields approval_resume
decision_payload a k = elim k.executor [
  | runner_resume ↦ input_fields (resume_requested (approval_resume a))
  | deterministic ↦ continuation_fields a k
  | other_executor t ↦ continuation_fields a k
]

-- The fields in the order of their keys, as json.Marshal writes a map.
abbrev pub fallback_fields : Approval → List (String × Scalar)
fallback_fields a =
    ("approval_id", text a.id)
    ∷ ("decision_version", number a.decision_version)
    ∷ ("execution_epoch", number a.execution_epoch)
    ∷ ("execution_mode", text (execution_text a.execution_mode))
    ∷ []

abbrev pub fallback_event_type : Option Continuation → String
fallback_event_type none = fallback_event
fallback_event_type (some k) = continuation_event

abbrev pub fallback_payload : Approval → Option Continuation → List (String × Scalar)
fallback_payload a none = fallback_fields a
fallback_payload a (some k) = continuation_fields a k

pub record Prepared : Type 0 where
  pub approval : Approval
  pub decision : ApprovalDecision
  pub continuation : Continuation
  pub outbox : ApprovalOutbox

module _ (c : Codec) where
  unfoldable pub new_decision_outbox :
      Approval → Continuation → ℕ → Result ApprovalError ApprovalOutbox
  unfolding decision_outbox_key
  new_decision_outbox a k now = do
    payload ←
        or_fail (c.marshal (decision_payload a k))
          (invalid_approval "marshal approval decision outbox")
    let event_type = decision_event_type k.executor
    let key = decision_outbox_key a.id a.decision_version k.execution_epoch event_type
    ok (outbox_event key event_type (decision_destination k.executor) a payload now)

  unfoldable pub new_fallback_outbox :
      Approval → Option Continuation → ℕ → Result ApprovalError ApprovalOutbox
  unfolding decision_outbox_key
  new_fallback_outbox a k now = do
    payload ←
        or_fail (c.marshal (fallback_payload a k))
          (invalid_approval "marshal approval fallback outbox")
    let event_type = fallback_event_type k
    let key = decision_outbox_key a.id a.decision_version a.execution_epoch event_type
    ok (outbox_event key event_type "approval.continuations" a payload now)

  -- Only a pending approval of the expected version is decided.
  unfoldable pub prepare_decision : Approval → DecisionRequest → Result ApprovalError Prepared
  unfolding new_continuation new_decision_outbox
  prepare_decision a r = do
    require (is_pending_approval a.status) approval_already_decided
    require (nat_eq a.decision_version r.expected_decision_version) approval_version_conflict
    selected ← selected_command (effective_status a r) a
    let updated = decided_approval a r (effective_status a r)
    continuation ← new_continuation updated r.now
    outbox ← new_decision_outbox updated continuation r.now
    ok (record {
      approval = updated;
      decision = with_command selected (plain_decision a r (effective_status a r));
      continuation = continuation;
      outbox = outbox;
    })
