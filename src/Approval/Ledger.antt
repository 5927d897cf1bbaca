-- ===== src/Approval/Ledger.antt =====
-- The rows that a decision leaves in the store of internal/aigc/approval/memory_store.go: the
-- invariant, and what it rests on.
use dora_agent.Approval.Announced.{Announced, IsIndexed}
use dora_agent.Approval.Decisions.{
  decision_event_type, decision_outbox_key, new_continuation, runs_interrupt, selected_command,
  with_command,
}
use dora_agent.Approval.Effects.{IsPending}
use dora_agent.Approval.Evolution.{Keyed}
use dora_agent.Approval.Finality.{new_approval_store-Keyed}
use dora_agent.Approval.Models.{
  Approval, ApprovalDecision, ApprovalOutbox, ApprovalStatus, ExecutionMode, FrozenCommand,
  approval_approved, approval_cancelled, approval_expired, approval_pending, approval_rejected,
  approval_stale, execution_durable, execution_fallback, execution_interrupt, invalid_approval,
  is_pending_approval, other_execution, other_status,
}
use dora_agent.Approval.Outboxes.{
  decision_payload, fallback_event_type, fallback_payload, new_decision_outbox, new_fallback_outbox,
}
use dora_agent.Approval.State.{ApprovalStore, continuation_key, new_approval_store}
use dora_agent.Base.{
  Bool-cases, Codec, Option, String, WhenOk, bind-WhenOk, false, if-WhenOk, inl, inr, is_empty,
  lookup, none, not, ok, or_fail, pos64, refl, require, some, true, ℕ, ◌&&◌, ◌∙◌, ◌≡◌, ◌⊎◌,
}
use dora_agent.SessionRuntime.Models.Records.{Continuation}
use dora_agent.SessionRuntime.Models.Status.{ContinuationExecutor, deterministic, runner_resume}

abbrev pub executor_of : ExecutionMode → ContinuationExecutor
executor_of execution_interrupt = runner_resume
executor_of execution_durable = deterministic
executor_of execution_fallback = deterministic
executor_of (other_execution t) = deterministic

-- The decision of an approval, its continuation for the approval's epoch, and in the outbox an event
-- for the continuation, of the type that the executor reads and for this approval, are there.
pub record Complete (s : ApprovalStore) (a : Approval) : Type 0 where
  pub version : a.decision_version ≡ 1
  pub closed : is_pending_approval a.status ≡ false
  pub decision :
      (d : ApprovalDecision) × (lookup (continuation_key a.id 1) s.decisions ≡ some d)
      × (d.approval_id ≡ a.id)
      × (d.decision_version ≡ 1)
      × (d.effective_status ≡ a.status)
  pub continuation :
      (k : Continuation) × (lookup (continuation_key a.id 1) s.continuations ≡ some k)
      × (k.approval_id ≡ a.id)
      × (k.execution_epoch ≡ a.execution_epoch)
      × (k.executor ≡ executor_of a.execution_mode)
      × Announced s
          (decision_outbox_key a.id 1 k.execution_epoch (decision_event_type k.executor))
          (decision_event_type k.executor)
          a.id

abbrev pub Stage : ApprovalStore → Approval → Type 0
Stage s a = IsPending a ⊎ Complete s a

-- A row of a decision stands under its approval and version, and the approval is decided.
abbrev pub RowOf : ApprovalStore → String → ApprovalDecision → Type 0
RowOf s key d =
    (key ≡ continuation_key d.approval_id 1)
    × (d.decision_version ≡ 1)
    × ((a : Approval) × (lookup d.approval_id s.approvals ≡ some a)
        × (is_pending_approval a.status ≡ false))

pub record IsRecorded (s : ApprovalStore) : Type 0 where
  pub keyed : Keyed s
  pub stages : (id : String) (a : Approval) → lookup id s.approvals ≡ some a → Stage s a
  pub rows : (key : String) (d : ApprovalDecision) → lookup key s.decisions ≡ some d → RowOf s key d
  pub indexed : IsIndexed s

pub new_approval_store-IsRecorded : IsRecorded new_approval_store
unfolding new_approval_store lookup
new_approval_store-IsRecorded = record {
  keyed = new_approval_store-Keyed;
  stages = λ id a h. cc h;
  rows = λ key d h. cc h;
  indexed = λ id e h. cc h;
}

-- The rows of an approval in another store that has kept them.
pub Complete-kept :
    (s s' : ApprovalStore) (a : Approval)
    → ((k : String) (d : ApprovalDecision)
        → lookup k s.decisions ≡ some d
        → lookup k s'.decisions ≡ some d)
    → lookup (continuation_key a.id 1) s'.continuations
      ≡ lookup (continuation_key a.id 1) s.continuations
    → ((k t g : String) → Announced s k t g → Announced s' k t g)
    → Complete s a
    → Complete s' a
Complete-kept s s' a ds ks os v =
    let (d, e, f, g', h) = v.decision in
    let (k, g, p, q, r, o) = v.continuation in
    record {
      version = v.version;
      closed = v.closed;
      decision = (d, ds _ d e, f, g', h);
      continuation = (k, ks ∙ g, p, q, r, os _ _ _ o);
    }

-- The facts about the rows of a decision.
abbrev pub ContinuationOf : Approval → Continuation → Type 0
ContinuationOf a k =
    (k.approval_id ≡ a.id)
    × (k.execution_epoch ≡ a.execution_epoch)
    × (k.executor ≡ executor_of a.execution_mode)

executor_of-interrupt :
    (m : ExecutionMode) → runs_interrupt m ≡ true → runner_resume ≡ executor_of m
executor_of-interrupt execution_interrupt h = refl
executor_of-interrupt execution_durable h = cc h
executor_of-interrupt execution_fallback h = cc h
executor_of-interrupt (other_execution t) h = cc h

executor_of-other : (m : ExecutionMode) → runs_interrupt m ≡ false → deterministic ≡ executor_of m
executor_of-other execution_interrupt h = cc h
executor_of-other execution_durable h = refl
executor_of-other execution_fallback h = refl
executor_of-other (other_execution t) h = refl

pub new_continuation-Of :
    (a : Approval) (now : ℕ) → WhenOk (ContinuationOf a) (new_continuation a now)
unfolding new_continuation
new_continuation-Of a now =
    if-WhenOk (ContinuationOf a) (runs_interrupt a.execution_mode) _ _
      (λ e.
        bind-WhenOk (ContinuationOf a)
          (require (not (is_empty a.checkpoint_mapping_id) && pos64 a.mapping_epoch) (
            invalid_approval
              "interrupt approval requires a persisted checkpoint mapping before decision"))
          _ λ u f. (refl, refl, executor_of-interrupt a.execution_mode e))
      (λ e. (refl, refl, executor_of-other a.execution_mode e))

-- An event of an approval under its key, which is its id too.
abbrev pub EventOf : Approval → String → String → ApprovalOutbox → Type 0
EventOf a key event_type e =
    (e.id ≡ e.idempotency_key)
    × (e.idempotency_key ≡ key)
    × (e.event_type ≡ event_type)
    × (e.aggregate_id ≡ a.id)

abbrev pub DecisionEventOf : Approval → Continuation → ApprovalOutbox → Type 0
DecisionEventOf a k =
    EventOf a
      (decision_outbox_key a.id a.decision_version k.execution_epoch
        (decision_event_type k.executor))
      (decision_event_type k.executor)

pub new_decision_outbox-Of :
    (c : Codec) (a : Approval) (k : Continuation) (now : ℕ)
    → WhenOk (DecisionEventOf a k) (new_decision_outbox c a k now)
unfolding new_decision_outbox
new_decision_outbox-Of c a k now =
    bind-WhenOk (DecisionEventOf a k)
      (or_fail (c.marshal (decision_payload a k))
        (invalid_approval "marshal approval decision outbox"))
      _ λ payload e. (refl, refl, refl, refl)

abbrev pub FallbackEventOf : Approval → Option Continuation → ApprovalOutbox → Type 0
FallbackEventOf a k =
    EventOf a
      (decision_outbox_key a.id a.decision_version a.execution_epoch (fallback_event_type k))
      (fallback_event_type k)

pub new_fallback_outbox-Of :
    (c : Codec) (a : Approval) (k : Option Continuation) (now : ℕ)
    → WhenOk (FallbackEventOf a k) (new_fallback_outbox c a k now)
unfolding new_fallback_outbox
new_fallback_outbox-Of c a k now =
    bind-WhenOk (FallbackEventOf a k)
      (or_fail (c.marshal (fallback_payload a k))
        (invalid_approval "marshal approval fallback outbox"))
      _ λ payload e. (refl, refl, refl, refl)

-- A status that selects a command is not pending.
pub selected_command-closed :
    (status : ApprovalStatus) (a : Approval) (x : Option FrozenCommand)
    → selected_command status a ≡ ok x
    → is_pending_approval status ≡ false
unfolding selected_command
selected_command-closed approval_pending a x h = cc h
selected_command-closed approval_approved a x h = refl
selected_command-closed approval_rejected a x h = refl
selected_command-closed approval_stale a x h = refl
selected_command-closed approval_expired a x h = refl
selected_command-closed approval_cancelled a x h = refl
selected_command-closed (other_status t) a x h = cc h

-- A command changes nothing else of a decision.
abbrev pub SameDecision : ApprovalDecision → ApprovalDecision → Type 0
SameDecision d d' =
    (d'.approval_id ≡ d.approval_id)
    × (d'.decision_version ≡ d.decision_version)
    × (d'.effective_status ≡ d.effective_status)
    × (d'.idempotency_key ≡ d.idempotency_key)
    × (d'.requested_decision ≡ d.requested_decision)
    × (d'.actor_id ≡ d.actor_id)
    × (d'.reason ≡ d.reason)
    × (d'.observed_binding ≡ d.observed_binding)

pub with_command-Same :
    (x : Option FrozenCommand) (d : ApprovalDecision) → SameDecision d (with_command x d)
with_command-Same none d = (refl, refl, refl, refl, refl, refl, refl, refl)
with_command-Same (some x) d = elim (Bool-cases (is_empty x.kind)) [
  | inl e ↦ rw e (refl, refl, refl, refl, refl, refl, refl, refl)
  | inr e ↦ rw e (refl, refl, refl, refl, refl, refl, refl, refl)
]
