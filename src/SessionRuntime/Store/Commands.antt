-- ===== src/SessionRuntime/Store/Commands.antt =====
-- The commands of an applied continuation in internal/aigc/sessionruntime/memory_store.go:
-- ApplyContinuation and GetCommand.
use dora_agent.Base.{
  Bool, Codec, List, Option, Result, String, [], decimal, if◌then◌else◌, insert, is_blank, is_empty,
  lookup, nat_eq, none, not, ok, or_fail, require, some, str_eq, trim_space, true, zero_byte, ℕ,
  ◌&&◌, ◌&◌, ◌>>=◌, ◌>>◌, ◌∷◌,
}
use dora_agent.SessionRuntime.Models.Records.{CommandLedger, Continuation, ContinuationClaim}
use dora_agent.SessionRuntime.Models.Status.{
  Error, applied, continuation_not_found, fence_rejected, idempotency_conflict, invalid,
}
use dora_agent.SessionRuntime.Store.Continuations.{
  claim_identity, find_continuation, is_applied, put_continuation, validate_continuation_claim,
  validate_continuation_lease,
}
use dora_agent.SessionRuntime.Store.State.{Clock, Store, json_equal}

unfoldable pub command_identity : String → ℕ → String → String
command_identity approval_id version kind =
    trim_space approval_id & zero_byte & decimal version & zero_byte & trim_space kind

abbrev pub ledger_key : CommandLedger → String
ledger_key x = command_identity x.approval_id x.decision_version x.command_kind

abbrev pub number_or : ℕ → ℕ → ℕ
number_or value default = if nat_eq value 0 then default else value

abbrev pub payload_or_object : String → String
payload_or_object payload = if is_empty payload then "{}" else payload

-- The command with the claim's identity where it has none of its own.
unfoldable pub completed_command : CommandLedger → ContinuationClaim → CommandLedger
completed_command x q = record x {
  approval_id = trim_space (if is_blank x.approval_id then q.approval_id else x.approval_id);
  decision_version = number_or x.decision_version q.decision_version;
  execution_epoch = number_or x.execution_epoch q.execution_epoch;
  command_kind = trim_space x.command_kind;
  idempotency_key = trim_space x.idempotency_key;
  command_payload = payload_or_object x.command_payload;
  result_payload = payload_or_object x.result_payload;
}

module _ (c : Codec) where
  unfoldable pub normalize_command : CommandLedger → ContinuationClaim → Result Error CommandLedger
  unfolding completed_command
  normalize_command command q = do
    let x = completed_command command q
    require
        (str_eq x.approval_id q.approval_id
          && nat_eq x.decision_version q.decision_version
          && nat_eq x.execution_epoch q.execution_epoch)
        fence_rejected
    require (not (is_empty x.command_kind) && not (is_empty x.idempotency_key))
        (invalid "command kind and idempotency key are required")
    require (c.valid x.command_payload && c.valid x.result_payload)
        (invalid "command and result payloads must be valid JSON")
    ok x

  unfoldable pub same_command : CommandLedger → CommandLedger → Bool
  same_command left right =
      str_eq left.approval_id right.approval_id
      && nat_eq left.decision_version right.decision_version
      && str_eq left.command_kind right.command_kind
      && nat_eq left.execution_epoch right.execution_epoch
      && str_eq left.idempotency_key right.idempotency_key
      && json_equal c left.command_payload right.command_payload
      && json_equal c left.result_payload right.result_payload

  -- No command stands under the key, or the same one.
  abbrev pub fits_row : Option CommandLedger → CommandLedger → Bool
  fits_row none x = true
  fits_row (some existing) x = same_command existing x

  -- The idempotency key is free, or stands for this very key.
  abbrev pub fits_key : Option String → String → Bool
  fits_key none key = true
  fits_key (some other) key = str_eq other key

  unfoldable pub check_command :
      CommandLedger → ContinuationClaim → Store → Result Error CommandLedger
  check_command command q s = do
    x ← normalize_command command q
    require (fits_row (lookup (ledger_key x) s.commands) x) idempotency_conflict
    require (fits_key (lookup x.idempotency_key s.command_keys) (ledger_key x)) idempotency_conflict
    ok x

  -- Every command is checked against the store before the first is written.
  unfoldable pub check_commands :
      List CommandLedger → ContinuationClaim → Store → Result Error (List CommandLedger)
  unfolding check_command
  check_commands [] q s = ok []
  check_commands (command ∷ commands) q s = do
    x ← check_command command q s
    rest ← check_commands commands q s
    ok (x ∷ rest)

-- The command as it is written, with a time if it had none.
abbrev pub timed : ℕ → CommandLedger → CommandLedger
timed now x = record x { created_at = if nat_eq x.created_at 0 then now else x.created_at }

unfoldable pub write_commands : List CommandLedger → ℕ → Store → Store
write_commands [] now s = s
write_commands (x ∷ xs) now s = write_commands xs now (record s {
  commands = insert (ledger_key x) (timed now x) s.commands;
  command_keys = insert x.idempotency_key (ledger_key x) s.command_keys;
})

abbrev pub applied_continuation : ℕ → Continuation → Continuation
applied_continuation now r = record r {
  status = applied;
  lease_until = none;
  updated_at = now;
  applied_at = some now;
}

module _ (c : Codec) where
  unfoldable pub finish_apply :
      ContinuationClaim
      → List CommandLedger
      → Continuation
      → Clock
      → Store
      → Result Error (Store × Continuation)
  finish_apply q commands r clock s = do
    lease ← validate_continuation_lease r q clock.recheck
    xs ← check_commands c commands q s
    let r' = applied_continuation clock.now r
    ok (put_continuation (claim_identity q) r' (write_commands xs clock.now s), r')

  -- An applied continuation is returned as it is, whoever asks.
  unfoldable pub apply_continuation :
      ContinuationClaim → List CommandLedger → Clock → Store → Result Error (Store × Continuation)
  unfolding finish_apply
  apply_continuation q commands clock s = do
    valid ← validate_continuation_claim q
    r ← find_continuation (claim_identity q) s
    if is_applied r.status then ok (s, r) else finish_apply q commands r clock s

unfoldable pub get_command : String → ℕ → String → Store → Result Error CommandLedger
get_command approval_id version kind s =
    or_fail (lookup (command_identity approval_id version kind) s.commands) continuation_not_found
