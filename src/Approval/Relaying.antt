-- ===== src/Approval/Relaying.antt =====
-- The outbox of internal/aigc/approval/memory_store.go as its relay uses it: MarkOutboxPublished and
-- MarkOutboxFailed.
use dora_agent.Approval.Models.{
  ApprovalError, ApprovalOutbox, ApprovalOutboxStatus, approval_not_found, approval_transition,
  invalid_approval, outbox_dead, outbox_pending, outbox_published,
}
use dora_agent.Approval.Requests.{now_or}
use dora_agent.Approval.State.{ApprovalStore}
use dora_agent.Base.{
  Bool, Result, String, add64, err, false, if◌then◌else◌, insert, is_blank, lookup, lt64, not, ok,
  or_fail, pos64, require, some, trim_space, true, ℕ, ◌&&◌, ◌*◌, ◌+◌, ◌-◌, ◌>>=◌, ◌>>◌, ◌^◌,
}

unfoldable pub publish_outbox :
    ApprovalOutbox → String → ℕ → ApprovalStore → Result ApprovalError ApprovalStore
publish_outbox event id at s = elim event.status [
  | outbox_published ↦ ok s
  | outbox_dead ↦ err approval_transition
  | outbox_pending ↦ ok (record s {
    outbox =
        insert id (record event { status = outbox_published; published_at = some at }) s.outbox;
  })
]

unfoldable pub mark_outbox_published :
    String → ℕ → ℕ → ApprovalStore → Result ApprovalError ApprovalStore
unfolding publish_outbox
mark_outbox_published event_id at clock s = do
  require (not (is_blank event_id)) (invalid_approval "outbox event id is required")
  event ← or_fail (lookup (trim_space event_id) s.outbox) approval_not_found
  publish_outbox event (trim_space event_id) (now_or at clock) s

-- 1, 2, 4 up to 128 seconds.
unfoldable pub approval_outbox_backoff : ℕ → ℕ
approval_outbox_backoff attempt =
    let counted = if lt64 attempt 1 then 1 else if lt64 8 attempt then 8 else attempt in
    2 ^ (counted - 1) * 1000000000

abbrev pub attempted : ApprovalOutbox → ApprovalOutbox
attempted event = record event { attempts = add64 event.attempts 1 }

unfoldable pub failed_outbox : ℕ → ℕ → ApprovalOutbox → ApprovalOutbox
unfolding approval_outbox_backoff
failed_outbox at max_attempts event =
    if pos64 max_attempts && not (lt64 event.attempts max_attempts)
    then record event { status = outbox_dead }
    else record event { available_at = at + approval_outbox_backoff event.attempts }

abbrev pub is_pending_outbox : ApprovalOutboxStatus → Bool
is_pending_outbox outbox_pending = true
is_pending_outbox _ = false

unfoldable pub mark_outbox_failed :
    String → ℕ → ℕ → ℕ → ApprovalStore → Result ApprovalError ApprovalStore
unfolding failed_outbox
mark_outbox_failed event_id at max_attempts clock s = do
  event ← or_fail (lookup (trim_space event_id) s.outbox) approval_not_found
  if not (is_pending_outbox event.status)
      then ok s
      else (let event' = failed_outbox (now_or at clock) max_attempts (attempted event) in
          ok (record s { outbox = insert event'.id event' s.outbox }))
