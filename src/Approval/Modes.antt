-- ===== src/Approval/Modes.antt =====
-- BindInterruptMapping and SwitchToDurableFallback of internal/aigc/approval/memory_store.go.
use dora_agent.Approval.Decisions.{decision_outbox_key}
use dora_agent.Approval.Models.{
  Approval, ApprovalError, ApprovalOutbox, ExecutionMode, approval_not_found, approval_transition,
  continuation_busy, execution_eq, execution_fallback, execution_interrupt, fallback_fenced,
  invalid_approval, is_pending_approval, other_execution, review_eq, review_interrupt,
  review_mode_immutable,
}
use dora_agent.Approval.Outboxes.{fallback_event_type, new_fallback_outbox}
use dora_agent.Approval.Requests.{now_or}
use dora_agent.Approval.State.{ApprovalStore, append_outbox, continuation_key, current_outbox}
use dora_agent.Approval.Store.{put_approval}
use dora_agent.Base.{
  Bool, Codec, Option, Result, String, add64, false, if◌then◌else◌, insert, is_blank, is_empty,
  lookup, lt64, nat_eq, none, not, ok, or_fail, pos64, require, some, str_eq, trim_space, true, ℕ,
  ◌&&◌, ◌>>=◌, ◌>>◌,
}
use dora_agent.SessionRuntime.Models.Records.{Continuation}
use dora_agent.SessionRuntime.Models.Status.{deterministic, requested}
use dora_agent.SessionRuntime.Store.Continuations.{is_applied, is_leased}

pub record MappingCommand : Type 0 where
  pub approval_id : String
  pub expected_execution_epoch : ℕ
  pub checkpoint_mapping_id : String
  pub mapping_epoch : ℕ

pub record FallbackCommand : Type 0 where
  pub approval_id : String
  pub expected_execution_mode : ExecutionMode
  pub expected_execution_epoch : ℕ
  pub expected_decision_version : ℕ
  pub now : ℕ

abbrev pub same_mapping : Approval → MappingCommand → Bool
same_mapping a q =
    str_eq a.checkpoint_mapping_id (trim_space q.checkpoint_mapping_id)
    && nat_eq a.mapping_epoch q.mapping_epoch

-- A mapping is bound once; the same mapping again changes nothing.
unfoldable pub bind_free :
    Approval → MappingCommand → ℕ → ApprovalStore → Result ApprovalError (ApprovalStore × Approval)
bind_free a q now s =
    if not (is_empty a.checkpoint_mapping_id)
    then (do require (same_mapping a q) fallback_fenced; ok (s, a))
    else (let bound : Approval = record a {
      checkpoint_mapping_id = trim_space q.checkpoint_mapping_id;
      mapping_epoch = q.mapping_epoch;
      updated_at = now;
    } in
        ok (put_approval bound s, bound))

unfoldable pub check_mapping : MappingCommand → Result ApprovalError (Unit {0})
check_mapping q =
    require
      (not (is_blank q.approval_id)
        && not (is_blank q.checkpoint_mapping_id)
        && pos64 q.expected_execution_epoch
        && pos64 q.mapping_epoch)
      (invalid_approval "approval id, mapping id, and positive epochs are required")

unfoldable pub bind_interrupt_mapping :
    MappingCommand → ℕ → ApprovalStore → Result ApprovalError (ApprovalStore × Approval)
unfolding bind_free check_mapping
bind_interrupt_mapping q now s = do
  check_mapping q
  a ← or_fail (lookup (trim_space q.approval_id) s.approvals) approval_not_found
  require (review_eq a.review_mode review_interrupt) approval_transition
  require (is_pending_approval a.status && execution_eq a.execution_mode execution_interrupt)
      approval_transition
  require (nat_eq a.execution_epoch q.expected_execution_epoch) fallback_fenced
  bind_free a q now s

pub record FallbackResult : Type 0 where
  pub approval : Approval
  pub continuation : Option Continuation
  pub outbox : Option ApprovalOutbox
  pub switched : Bool

-- The continuation of a decided approval; a pending one has none.
unfoldable pub decided_continuation :
    Approval → ApprovalStore → Result ApprovalError (Option Continuation)
unfolding continuation_key
decided_continuation a s =
    if pos64 a.decision_version
    then (do
      k ←
          or_fail (lookup (continuation_key a.id a.decision_version) s.continuations)
            approval_not_found
      ok (some k))
    else ok none

unfoldable pub fallback_result :
    Approval → ApprovalStore → Result ApprovalError (ApprovalStore × FallbackResult)
unfolding decided_continuation decision_outbox_key
fallback_result a s = do
  k ← decided_continuation a s
  event ←
      current_outbox
        (decision_outbox_key a.id a.decision_version a.execution_epoch (fallback_event_type k)) s
  ok (s, record { approval = a; continuation = k; outbox = event; switched = false })

abbrev pub fallen_back_approval : ℕ → Approval → Approval
fallen_back_approval now a = record a {
  execution_mode = execution_fallback;
  execution_epoch = add64 a.execution_epoch 1;
  updated_at = now;
}

abbrev pub handed_over : ℕ → ℕ → Continuation → Continuation
handed_over epoch now k = record k {
  executor = deterministic;
  execution_epoch = epoch;
  status = requested;
  lease_owner = "";
  lease_until = none;
  error_code = "";
  error_message = "";
  updated_at = now;
}

-- The continuation is handed to the deterministic executor, unless it is applied or leased.
unfoldable pub hand_over_continuation :
    Option Continuation → Approval → ℕ → Result ApprovalError (Option Continuation)
hand_over_continuation none a now = ok none
hand_over_continuation (some k) a now = do
  require (not (is_applied k.status)) fallback_fenced
  require (not (is_leased k now)) continuation_busy
  ok (some (handed_over a.execution_epoch now k))

abbrev pub put_handed_over : Option Continuation → Approval → ApprovalStore → ApprovalStore
put_handed_over none a s = s
put_handed_over (some k) a s = record s {
  continuations = insert (continuation_key a.id a.decision_version) k s.continuations;
}

unfoldable pub switch_approval :
    Codec → Approval → ℕ → ApprovalStore → Result ApprovalError (ApprovalStore × FallbackResult)
unfolding continuation_key decided_continuation hand_over_continuation
switch_approval c given now s = do
  let a = fallen_back_approval now given
  current ← decided_continuation a s
  k ← hand_over_continuation current a now
  event ← new_fallback_outbox c a k now
  s' ← append_outbox event s
  ok (
    put_approval a (put_handed_over k a s'),
    record { approval = a; continuation = k; outbox = some event; switched = true },
  )

abbrev pub expected_mode : ExecutionMode → ExecutionMode
expected_mode (other_execution t) = if is_empty t then execution_interrupt else other_execution t
expected_mode mode = mode

abbrev pub has_switched : Approval → FallbackCommand → Bool
has_switched a q =
    execution_eq a.execution_mode execution_fallback
    && nat_eq a.execution_epoch (add64 q.expected_execution_epoch 1)
    && nat_eq a.decision_version q.expected_decision_version

unfoldable pub check_fallback : FallbackCommand → Result ApprovalError (Unit {0})
check_fallback q =
    require
      (not (is_blank q.approval_id)
        && pos64 q.expected_execution_epoch
        && not (lt64 q.expected_decision_version 0))
      (invalid_approval "approval id, positive execution epoch, and decision version are required")

abbrev pub may_switch : Approval → FallbackCommand → Bool
may_switch a q =
    execution_eq a.execution_mode (expected_mode q.expected_execution_mode)
    && nat_eq a.execution_epoch q.expected_execution_epoch
    && nat_eq a.decision_version q.expected_decision_version

unfoldable pub switch_to_durable_fallback :
    Codec
    → FallbackCommand
    → ℕ
    → ApprovalStore
    → Result ApprovalError (ApprovalStore × FallbackResult)
unfolding fallback_result switch_approval check_fallback
switch_to_durable_fallback c q clock s = do
  check_fallback q
  a ← or_fail (lookup (trim_space q.approval_id) s.approvals) approval_not_found
  require (review_eq a.review_mode review_interrupt) review_mode_immutable
  if has_switched a q
      then fallback_result a s
      else (do require (may_switch a q) fallback_fenced; switch_approval c a (now_or q.now clock) s)
