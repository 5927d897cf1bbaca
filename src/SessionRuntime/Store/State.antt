-- ===== src/SessionRuntime/Store/State.antt =====
-- The state of MemoryStore in internal/aigc/sessionruntime/memory_store.go and its pure helpers.
-- Clones of a record are the record, since values are not shared here.
use dora_agent.Base.{
  Bool, Codec, Option, String, Table, [], false, flag, if◌then◌else◌, insert, is_empty, lookup, ltb,
  nat_eq, none, parsed_eq, some, str_eq, text, trim_space, zero_byte, ℕ, ◌&&◌, ◌&◌, ◌+◌, ◌||◌, ◌∷◌,
}
use dora_agent.SessionRuntime.Models.Records.{
  CommandLedger, Continuation, InputRecord, RuntimeLease, TerminalEvent, TurnRun,
}
use dora_agent.SessionRuntime.Models.Status.{InputType, input_type_eq, input_type_text}

pub record Store : Type 0 where
  pub input_counters : Table ℕ
  pub inputs : Table InputRecord
  pub input_sources : Table String
  pub leases : Table RuntimeLease
  pub turns : Table TurnRun
  pub turn_by_input : Table String
  pub continuations : Table Continuation
  pub commands : Table CommandLedger
  pub command_keys : Table String
  pub terminal_events : Table TerminalEvent

unfoldable pub new_store : Store
new_store = record {
  input_counters = [];
  inputs = [];
  input_sources = [];
  leases = [];
  turns = [];
  turn_by_input = [];
  continuations = [];
  commands = [];
  command_keys = [];
  terminal_events = [];
}

-- The readings of the clock that an operation makes: `now` by itself, `recheck` in
-- claimedInputLocked, which asks the clock again.
pub record Clock : Type 0 where
  pub now : ℕ
  pub recheck : ℕ

-- time.Time.After.
abbrev pub after : ℕ → ℕ → Bool
after t u = ltb u t

-- until != nil && until.After(now).
abbrev pub unexpired : Option ℕ → ℕ → Bool
unexpired none now = false
unexpired (some until) now = after until now

-- Reading a map whose values default to "" or 0.
abbrev pub text_or_empty : Option String → String
text_or_empty none = ""
text_or_empty (some s) = s

unfoldable pub input_source_identity : String → InputType → String → String
input_source_identity session_id input_type source_id =
    session_id & zero_byte & input_type_text input_type & zero_byte & source_id

unfoldable pub capped_lease_until : ℕ → ℕ → ℕ → ℕ
capped_lease_until now ttl runtime_until =
    let until = now + ttl in if ltb runtime_until until then runtime_until else until

unfoldable pub json_equal : Codec → String → String → Bool
json_equal c left right = parsed_eq (c.parse left) (c.parse right)

unfoldable pub same_input : Codec → InputRecord → InputRecord → Bool
same_input c existing wanted =
    str_eq existing.input_id wanted.input_id
    && str_eq existing.session_id wanted.session_id
    && input_type_eq existing.input_type wanted.input_type
    && str_eq existing.source_id wanted.source_id
    && str_eq existing.event_id wanted.event_id
    && nat_eq existing.priority wanted.priority
    && nat_eq existing.context_message_seq wanted.context_message_seq
    && json_equal c existing.payload wanted.payload

-- s.inputs[record.InputID] = record, and so for turns and leases.
abbrev pub put_input : InputRecord → Store → Store
put_input r s = record s { inputs = insert r.input_id r s.inputs }

abbrev pub put_turn : TurnRun → Store → Store
put_turn t s = record s { turns = insert t.turn_id t s.turns }

-- record.ClaimOwner, record.ClaimFence, record.LeaseUntil = "", 0, nil.
abbrev pub unclaim : InputRecord → InputRecord
unclaim r = record r { claim_owner = ""; claim_fence = 0; lease_until = none }

-- availableAt.IsZero() || availableAt.Before(now).
unfoldable pub not_before : ℕ → ℕ → ℕ
not_before available_at now =
    if nat_eq available_at 0 || ltb available_at now then now else available_at

module _ (c : Codec) where
  -- The payload's json.Marshal cannot fail, and the code drops its error.
  unfoldable pub terminal_failure_event : InputRecord → String → TerminalEvent
  terminal_failure_event input turn =
      let turn_id = trim_space turn in
      let identity =
        if is_empty turn_id
        then "input:" & trim_space input.input_id & ":dead"
        else "turn:" & turn_id & ":dead" in
      record {
        session_id = input.session_id;
        event_id = "runtime_dead_" & c.sum_hex 12 identity;
        event_type = "a2ui.error";
        producer_kind = "session_runtime";
        source_key = identity;
        payload = text_or_empty (
            c.marshal (
              ("code", text "session_turn_failed")
              ∷ ("message", text "创作处理未能完成，请重新提交或稍后重试。")
              ∷ ("input_id", text input.input_id)
              ∷ ("turn_id", text turn_id)
              ∷ ("input_type", text (input_type_text input.input_type))
              ∷ ("retryable", flag false)
              ∷ []));
      }

  -- The first event under a source key is kept.
  unfoldable pub record_terminal_failure : InputRecord → String → Store → Store
  record_terminal_failure input turn_id s =
      let event = terminal_failure_event input turn_id in
      elim (lookup event.source_key s.terminal_events) [
        | some existing ↦ s
        | none ↦ record s { terminal_events = insert event.source_key event s.terminal_events }
      ]
