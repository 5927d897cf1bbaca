-- ===== src/SessionRuntime/Store/Claims.antt =====
-- ClaimNext of internal/aigc/sessionruntime/memory_store.go with startedHeadLocked,
-- inputHasFrozenOutputLocked and deadExhaustedInputLocked.
use dora_agent.Base.{
  Bool, Codec, Option, Result, String, Table, [], add64, err, false, if◌then◌else◌, is_blank,
  is_empty, le64, length, lookup, lt64, nat_eq, none, not, ok, pos64, some, str_eq, suc, trim_space,
  true, zero, ℕ, ◌&&◌, ◌∷◌,
}
use dora_agent.SessionRuntime.Models.Records.{ClaimOptions, InputRecord, RuntimeLease, TurnRun}
use dora_agent.SessionRuntime.Models.Status.{
  Error, claimed, dead, invalid, is_terminal_input_status, is_terminal_turn_status, is_waiting,
  no_input_available, turn_dead,
}
use dora_agent.SessionRuntime.Store.Fencing.{validate_fence}
use dora_agent.SessionRuntime.Store.State.{
  Clock, Store, after, capped_lease_until, put_input, put_turn, record_terminal_failure,
  text_or_empty,
}

-- record.Attempts > 0 and the status is not terminal.
unfoldable pub is_started : InputRecord → Bool
is_started r = pos64 r.attempts && not (is_terminal_input_status r.status)

abbrev pub earlier : Option InputRecord → InputRecord → Bool
earlier none r = true
earlier (some head) r = lt64 r.enqueue_seq head.enqueue_seq

-- The started input with the least sequence number, from the best one so far.
unfoldable pub started_head_from :
    String → Option InputRecord → Table InputRecord → Option InputRecord
started_head_from session_id head [] = head
started_head_from session_id head ((k, r) ∷ m) =
    started_head_from session_id
      (if str_eq r.session_id session_id && is_started r && earlier head r then some r else head) m

unfoldable pub started_head : String → Store → Option InputRecord
started_head session_id s = started_head_from session_id none s.inputs

-- Never started, available, and waiting.
unfoldable pub is_candidate : String → ℕ → InputRecord → Bool
is_candidate session_id now r =
    str_eq r.session_id session_id
    && nat_eq r.attempts 0
    && not (after r.available_at now)
    && is_waiting r.status

-- The comparison that sort.Slice is given.
unfoldable pub goes_before : InputRecord → InputRecord → Bool
goes_before a b =
    if not (nat_eq a.priority b.priority)
    then lt64 b.priority a.priority
    else lt64 a.enqueue_seq b.enqueue_seq

abbrev pub goes_before_best : InputRecord → Option InputRecord → Bool
goes_before_best r none = true
goes_before_best r (some best) = goes_before r best

-- candidates[0] after the sort: a candidate that goes before the others.
unfoldable pub first_candidate_from :
    String → ℕ → Option InputRecord → Table InputRecord → Option InputRecord
first_candidate_from session_id now best [] = best
first_candidate_from session_id now best ((k, r) ∷ m) =
    first_candidate_from session_id now
      (if is_candidate session_id now r && goes_before_best r best then some r else best) m

unfoldable pub input_turn_id : InputRecord → Store → String
input_turn_id input s =
    let turn_id = trim_space input.turn_id in
    if is_empty turn_id then text_or_empty (lookup input.input_id s.turn_by_input) else turn_id

abbrev pub has_output : Option TurnRun → Bool
has_output none = false
has_output (some turn) = not (is_empty turn.output_payload)

unfoldable pub has_frozen_output : InputRecord → Store → Bool
has_frozen_output input s = has_output (lookup (input_turn_id input s) s.turns)

-- The turn of a dead input dies with it, unless it has ended.
unfoldable pub dead_turn_of : InputRecord → Option TurnRun → ℕ → Store → Store
dead_turn_of input none now s = s
dead_turn_of input (some turn) now s =
    if is_terminal_turn_status turn.status
    then s
    else put_turn
        (record turn {
          status = turn_dead;
          error_code = input.error_code;
          error_message = input.error_message;
          updated_at = now;
        })
        s

unfoldable pub exhausted_record : InputRecord → ℕ → InputRecord
exhausted_record input now = record input {
  status = dead;
  claim_owner = "";
  claim_fence = 0;
  lease_until = none;
  error_code = "max_attempts_exceeded";
  error_message = "session input exceeded maximum attempts";
  updated_at = now;
}

unfoldable pub is_exhausted : ClaimOptions → InputRecord → Store → Bool
is_exhausted o head s =
    pos64 o.max_attempts && le64 o.max_attempts head.attempts && not (has_frozen_output head s)

abbrev pub chosen : Option InputRecord → Result Error InputRecord
chosen none = err no_input_available
chosen (some r) = ok r

unfoldable pub claimed_record : ClaimOptions → RuntimeLease → ℕ → InputRecord → InputRecord
claimed_record o lease now r = record r {
  status = claimed;
  claim_owner = o.fence.owner_id;
  claim_fence = o.fence.fence_token;
  lease_until = some (capped_lease_until now o.claim_ttl lease.lease_until);
  attempts = add64 r.attempts 1;
  updated_at = now;
  error_code = "";
  error_message = "";
}

unfoldable pub finish_claim :
    ClaimOptions
    → RuntimeLease
    → ℕ
    → Store
    → Result Error InputRecord
    → Store × Result Error InputRecord
finish_claim o lease now s (err e) = (s, err e)
finish_claim o lease now s (ok r) = let r' = claimed_record o lease now r in (put_input r' s, ok r')

module _ (c : Codec) where
  unfoldable pub dead_exhausted_input : InputRecord → ℕ → Store → Store
  unfolding dead_turn_of
  dead_exhausted_input input now s =
      let input' = exhausted_record input now in
      let s' = put_input input' (record_terminal_failure c input input.turn_id s) in
      if is_blank input.turn_id
      then s'
      else dead_turn_of input' (lookup input.turn_id s'.turns) now s'

  -- The loop of ClaimNext: the input to claim, and the store, in which exhausted heads have died.
  -- `none` means that the fuel ran out.
  unfoldable pub select_input :
      ℕ → ClaimOptions → ℕ → Store → Option (Store × Result Error InputRecord)
  select_input zero o now s = none
  select_input (suc fuel) o now s = elim (started_head o.fence.session_id s) [
    | none ↦ some (s, chosen (first_candidate_from o.fence.session_id now none s.inputs))
    | some head ↦
        let again = select_input fuel o now (dead_exhausted_input head now s) in
        if not (is_waiting head.status)
        then some (s, err no_input_available)
        else if after head.available_at now
        then some (s, err no_input_available)
        else if is_exhausted o head s
        then again
        else some (s, ok head)
  ]

  unfoldable pub claim_with :
      ClaimOptions
      → Result Error RuntimeLease
      → ℕ
      → Store
      → Option (Store × Result Error InputRecord)
  unfolding finish_claim
  claim_with o (err e) now s = some (s, err e)
  claim_with o (ok lease) now s = elim (select_input (suc (length s.inputs)) o now s) [
    | none ↦ none
    | some (s', r) ↦ some (finish_claim o lease now s' r)
  ]

  -- An error may come with a changed store: heads that ran out of attempts are dead by then.
  unfoldable pub claim_next :
      ClaimOptions → Clock → Store → Option (Store × Result Error InputRecord)
  unfolding claim_with
  claim_next o clock s =
      if not (pos64 o.claim_ttl)
      then some (s, err (invalid "claim ttl must be positive"))
      else claim_with o (validate_fence o.fence clock.now s) clock.now s
