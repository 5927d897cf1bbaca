-- ===== src/Approval/Decisions.antt =====
-- internal/aigc/approval/store.go: what a request makes of an approval, its decision, the continuation
-- and the parts of the event.
use dora_agent.Approval.Commands.{DecisionRequest}
use dora_agent.Approval.Models.{
  Approval, ApprovalDecision, ApprovalError, ApprovalOutbox, ApprovalStatus, ExecutionMode,
  FrozenCommand, VersionBinding, approval_approved, approval_cancelled, approval_expired,
  approval_pending, approval_rejected, approval_stale, approval_transition, execution_interrupt,
  invalid_approval, matches, other_status, outbox_pending,
}
use dora_agent.Base.{
  Bool, List, Option, Result, Scalar, String, [], add64, decimal, err, false, if◌then◌else◌,
  is_empty, leb, none, not, number, ok, pos64, require, some, str_eq, text, true, ℕ, ◌&&◌, ◌&◌,
  ◌>>◌, ◌∷◌,
}
use dora_agent.SessionRuntime.Models.Records.{Continuation}
use dora_agent.SessionRuntime.Models.Status.{
  ContinuationExecutor, deterministic, other_executor, requested, runner_resume,
}

abbrev pub has_expired : Option ℕ → ℕ → Bool
has_expired none now = false
has_expired (some expires) now = leb expires now

abbrev pub matches_observed : VersionBinding → Option VersionBinding → Bool
matches_observed binding none = false
matches_observed binding (some current) = matches binding current

unfoldable pub effective_status : Approval → DecisionRequest → ApprovalStatus
unfolding matches
effective_status a r = elim r.terminal_status [
  | some status ↦ status
  | none ↦
      if has_expired a.expires_at r.now
      then approval_expired
      else if not (matches_observed a.binding r.observed_binding)
      then approval_stale
      else if str_eq r.requested_decision "approved"
      then approval_approved
      else approval_rejected
]

-- The command that the status selects; the closed statuses select none.
unfoldable pub selected_command :
    ApprovalStatus → Approval → Result ApprovalError (Option FrozenCommand)
selected_command approval_approved a = ok (some a.approve_command)
selected_command approval_rejected a = ok (some a.reject_command)
selected_command approval_stale a = ok none
selected_command approval_expired a = ok none
selected_command approval_cancelled a = ok none
selected_command approval_pending a = err approval_transition
selected_command (other_status t) a = err approval_transition

-- A command without a kind is none.
abbrev pub with_command : Option FrozenCommand → ApprovalDecision → ApprovalDecision
with_command none d = d
with_command (some x) d = if is_empty x.kind then d else record d {
  command_kind = x.kind;
  command_idempotency_key = x.idempotency_key;
  command_payload = x.payload;
}

abbrev pub plain_decision : Approval → DecisionRequest → ApprovalStatus → ApprovalDecision
plain_decision a r status = record {
  approval_id = a.id;
  decision_version = add64 a.decision_version 1;
  idempotency_key = r.idempotency_key;
  requested_decision = r.requested_decision;
  effective_status = status;
  actor_id = r.actor_id;
  reason = r.reason;
  observed_binding = r.observed_binding;
  command_kind = "";
  command_idempotency_key = "";
  command_payload = "";
  created_at = r.now;
}

abbrev pub decided_approval : Approval → DecisionRequest → ApprovalStatus → Approval
decided_approval a r status = record a {
  status = status;
  decision_version = add64 a.decision_version 1;
  updated_at = r.now;
  decided_at = some r.now;
}

abbrev pub runs_interrupt : ExecutionMode → Bool
runs_interrupt execution_interrupt = true
runs_interrupt _ = false

abbrev pub continuation_of : Approval → ContinuationExecutor → ℕ → Continuation
continuation_of a executor now = record {
  approval_id = a.id;
  decision_version = a.decision_version;
  session_id = a.session_id;
  executor = executor;
  execution_epoch = a.execution_epoch;
  status = requested;
  lease_owner = "";
  lease_until = none;
  error_code = "";
  error_message = "";
  created_at = now;
  updated_at = now;
  applied_at = none;
}

unfoldable pub new_continuation : Approval → ℕ → Result ApprovalError Continuation
new_continuation a now =
    if runs_interrupt a.execution_mode
    then (do
      require (not (is_empty a.checkpoint_mapping_id) && pos64 a.mapping_epoch) (
          invalid_approval
            "interrupt approval requires a persisted checkpoint mapping before decision")
      ok (continuation_of a runner_resume now))
    else ok (continuation_of a deterministic now)

unfoldable pub decision_event_id : String → ℕ → String
decision_event_id id version = "approval:" & id & ":decision:" & decimal version

unfoldable pub decision_outbox_key : String → ℕ → ℕ → String → String
decision_outbox_key id version epoch event_type =
    "approval:" & id & ":decision:" & decimal version & ":epoch:" & decimal epoch & ":" & event_type

abbrev pub session_input_event : String
session_input_event = "session.input_requested"

abbrev pub continuation_event : String
continuation_event = "approval.continuation_requested"

abbrev pub fallback_event : String
fallback_event = "approval.fallback_enabled"

abbrev pub executor_text : ContinuationExecutor → String
executor_text runner_resume = "runner_resume"
executor_text deterministic = "deterministic_continuation"
executor_text (other_executor t) = t

-- The fields of ApprovalContinuationRequested.
abbrev pub continuation_fields : Approval → Continuation → List (String × Scalar)
continuation_fields a k =
    ("approval_id", text a.id)
    ∷ ("decision_version", number a.decision_version)
    ∷ ("executor", text (executor_text k.executor))
    ∷ ("execution_epoch", number k.execution_epoch)
    ∷ []

-- The event of a decision: its type, its destination and its payload.
abbrev pub decision_event_type : ContinuationExecutor → String
decision_event_type runner_resume = session_input_event
decision_event_type _ = continuation_event

abbrev pub decision_destination : ContinuationExecutor → String
decision_destination runner_resume = "session.inputs"
decision_destination _ = "approval.continuations"

abbrev pub outbox_event : String → String → String → Approval → String → ℕ → ApprovalOutbox
outbox_event key event_type destination a payload now = record {
  id = key;
  idempotency_key = key;
  event_type = event_type;
  destination = destination;
  aggregate_type = "approval";
  aggregate_id = a.id;
  aggregate_version = a.decision_version;
  session_id = a.session_id;
  payload = payload;
  status = outbox_pending;
  attempts = 0;
  available_at = now;
  created_at = now;
  published_at = none;
}
