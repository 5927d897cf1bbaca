-- ===== src/Events/Tests.antt =====
-- Runs of the event log and its relay on concrete events, and the theorems at them.
use dora_agent.Base.{
  Bool, Codec, List, Result, String, String_discrete, [], arith, decimal, erase, err, false, inl,
  insert, length, lookup, map, nat_eq, neg64, none, not, ok, refl, some, take, trim_space, true, ℕ,
  ◌++◌, ◌∷◌, ◌≡◌,
}
use dora_agent.Events.Deliveries.{relay_catches_up, relay_delivers, taking_polls}
use dora_agent.Events.Hub.{
  NotificationHub, cancel_subscription, channels_of, new_notification_hub, notify, subscribe_hub,
}
use dora_agent.Events.Models.{
  EventError, SessionEvent, check_columns, check_event, equal_json, event_conflict, normalize_event,
  same_identity, source_identity, trimmed_event,
}
use dora_agent.Events.Numbers.{count_up, one_place, rows_numbered, tail_exact}
use dora_agent.Events.Once.{append_once}
use dora_agent.Events.Relay.{
  RelayMove, RelayState, appends, consume_rows, new_tail_relay, polls, relay_events, relay_poll,
  run_relay, started_at,
}
use dora_agent.Events.Runs.{append_event, append_events}
use dora_agent.Events.Store.{
  EventStore, append_by_event, append_by_source, append_session_event_once, counter_of, current_seq,
  log_of, new_event_store, normalize_tail_limit, numbered_event, put_event, replay_event, replayed,
  search, search_from, tail, tail_rows,
}
use dora_agent.Events.Tailing.{rows_after}
use dora_agent.SessionRuntime.Continuation.Steps.{moves}

abbrev plain_codec : Codec
plain_codec = record {
  valid = λ s. true;
  parse = λ s. some s;
  marshal = λ fields. some "{}";
  sum_hex = λ n s. s;
}

abbrev event_of : String → String → SessionEvent
event_of session id = record {
  session_id = session;
  seq = 77;
  event_id = id;
  event_type = "a2ui";
  producer_kind = "agent_action";
  source_key = id;
  projection_index = 0;
  surface_id = "";
  data_model_key = "";
  payload = "";
  created_at = 0;
}

-- Two events of one session, the first of them twice, and one of another session.
abbrev sent : List (SessionEvent × ℕ)
sent =
    (event_of "s" "e1", 10)
    ∷ (event_of "s" "e2", 20)
    ∷ (event_of " s " "e1", 30)
    ∷ (event_of "t" "e3", 40)
    ∷ []

sent_store : EventStore
unfolding append_events append_event append_session_event_once normalize_event check_event
    check_columns trimmed_event append_by_event append_by_source replay_event same_identity
    equal_json numbered_event counter_of log_of put_event source_identity new_event_store lookup
    insert erase trim_space String_discrete decimal
sent_store = append_events plain_codec sent new_event_store

sent_ids : map (λ e. e.event_id) (log_of sent_store "s") ≡ "e1" ∷ "e2" ∷ []
unfolding sent_store log_of lookup String_discrete
sent_ids = refl

tailed : map (λ e. e.event_id) (tail_rows (log_of sent_store "s") 1 100) ≡ "e2" ∷ []
unfolding sent_store log_of lookup String_discrete tail_rows search search_from
tailed = refl

-- The log of a session that nothing was sent to is empty, and a negative cursor reads from the start.
tailed_negative : map (λ e. e.event_id) (tail_rows (log_of sent_store "s") (neg64 1) 1) ≡ "e1" ∷ []
unfolding sent_store log_of lookup String_discrete tail_rows search search_from
tailed_negative = refl

append_once_example :
    append_session_event_once plain_codec (event_of "s" "e1") 50 (
      append_events plain_codec sent (
        put_event
          (numbered_event (trimmed_event (event_of "s" "e1")) 5 new_event_store)
          new_event_store))
    ≡ ok (
      append_events plain_codec sent (
          put_event
            (numbered_event (trimmed_event (event_of "s" "e1")) 5 new_event_store)
            new_event_store),
      replayed (numbered_event (trimmed_event (event_of "s" "e1")) 5 new_event_store),
    )
unfolding append_events append_session_event_once normalize_event check_event check_columns
    trimmed_event append_by_event append_by_source new_event_store lookup trim_space
append_once_example = append_once plain_codec [] sent (event_of "s" "e1") 5 50 _ _ refl

-- A codec that decodes nothing, as encoding/json does with 1e999.
abbrev undecoding : Codec
undecoding = record {
  valid = λ s. true;
  parse = λ s. none;
  marshal = λ fields. none;
  sum_hex = λ n s. s;
}

undecodable_conflicts :
    append_session_event_once undecoding (event_of "s" "e1") 50 (
      put_event
        (numbered_event (trimmed_event (event_of "s" "e1")) 5 new_event_store)
        new_event_store)
    ≡ err (event_conflict "event_id")
unfolding append_events append_session_event_once normalize_event check_event check_columns
    trimmed_event append_by_event append_by_source new_event_store lookup trim_space
undecodable_conflicts = append_once undecoding [] [] (event_of "s" "e1") 5 50 _ _ refl

rows_numbered_example :
    (map (λ r. r.seq) (log_of (append_events plain_codec sent new_event_store) (trim_space "s"))
      ≡ count_up 1
          (length (log_of (append_events plain_codec sent new_event_store) (trim_space "s"))))
    × (current_seq "s" (append_events plain_codec sent new_event_store)
        ≡ ok (length (log_of (append_events plain_codec sent new_event_store) (trim_space "s"))))
unfolding trim_space
rows_numbered_example = rows_numbered plain_codec sent "s" refl (omega arith)

tail_exact_example :
    tail "s" (record { after_seq = 1; limit = 0 }) (append_events plain_codec sent new_event_store)
    ≡ ok (
        take
          (normalize_tail_limit 0)
          (rows_after 1 (log_of (append_events plain_codec sent new_event_store) (trim_space "s"))))
unfolding trim_space
tail_exact_example =
    tail_exact plain_codec sent "s" (record { after_seq = 1; limit = 0 }) refl (omega arith)
      (omega arith)

one_place_example : (◌≡◌ {A = String} "s" "s") × (◌≡◌ {A = ℕ} 1 1)
unfolding append_events append_event append_session_event_once normalize_event check_event
    check_columns trimmed_event append_by_event append_by_source replay_event same_identity
    equal_json numbered_event counter_of log_of put_event source_identity new_event_store lookup
    insert erase trim_space String_discrete decimal
one_place_example =
    one_place plain_codec sent "s" "s" 1 1
      (record (trimmed_event (event_of "s" "e2")) { seq = 2; created_at = 20 })
      (record (trimmed_event (event_of "s" "e2")) { seq = 2; created_at = 20 }) (omega arith) refl
      refl (inl refl)

-- The consumer refuses the row with the number 3.
abbrev takes_two : SessionEvent → Bool
takes_two row = not (nat_eq row.seq 3)

abbrev relayed : List RelayMove
relayed =
    appends (event_of "s" "e1") 10
    ∷ polls takes_two
    ∷ appends (event_of "t" "e3") 20
    ∷ appends (event_of "s" "e2") 30
    ∷ polls takes_two
    ∷ []

abbrev refused : List RelayMove
refused = relayed ++ appends (event_of "s" "e4") 40 ∷ polls takes_two ∷ []

relay_end : List RelayMove → EventStore × RelayState
unfolding new_event_store run_relay
relay_end moves =
    run_relay plain_codec (new_tail_relay 0 1) "s" moves (new_event_store, started_at 0)

relayed_ids : map (λ e. e.event_id) (relay_end relayed).1.consumed ≡ "e1" ∷ "e2" ∷ []
unfolding relay_end run_relay relay_poll consume_rows new_tail_relay normalize_tail_limit tail
    tail_rows search search_from append_event append_session_event_once normalize_event check_event
    check_columns trimmed_event append_by_event append_by_source replay_event same_identity
    equal_json numbered_event counter_of log_of put_event source_identity new_event_store lookup
    insert erase trim_space String_discrete decimal
relayed_ids = refl

refused_stops : (relay_end refused).1.stopped ≡ true
unfolding relay_end run_relay relay_poll consume_rows new_tail_relay normalize_tail_limit tail
    tail_rows search search_from append_event append_session_event_once normalize_event check_event
    check_columns trimmed_event append_by_event append_by_source replay_event same_identity
    equal_json numbered_event counter_of log_of put_event source_identity new_event_store lookup
    insert erase trim_space String_discrete decimal
refused_stops = refl

relay_delivers_example :
    (relay_end refused).1.consumed
      ++ rows_after (relay_end refused).1.cursor (log_of (relay_end refused).0 (trim_space "s"))
    ≡ rows_after 0 (log_of (relay_end refused).0 (trim_space "s"))
unfolding relay_end relay_events trim_space
relay_delivers_example =
    relay_delivers plain_codec (new_tail_relay 0 1) "s" 0 refused (relay_end refused).0
      (relay_end refused).1 (omega arith) (omega arith) refl

relayed_live : (relay_end relayed).1.stopped ≡ false
unfolding relay_end run_relay relay_poll consume_rows new_tail_relay normalize_tail_limit tail
    tail_rows search search_from append_event append_session_event_once normalize_event check_event
    check_columns trimmed_event append_by_event append_by_source replay_event same_identity
    equal_json numbered_event counter_of log_of put_event source_identity new_event_store lookup
    insert erase trim_space String_discrete decimal
relayed_live = refl

relayed-length : length (log_of (relay_end relayed).0 (trim_space "s")) ≡ 2
unfolding relay_end run_relay relay_poll consume_rows new_tail_relay normalize_tail_limit tail
    tail_rows search search_from append_event append_session_event_once normalize_event check_event
    check_columns trimmed_event append_by_event append_by_source replay_event same_identity
    equal_json numbered_event counter_of log_of put_event source_identity new_event_store lookup
    insert erase trim_space String_discrete decimal
relayed-length = refl

relay_catches_up_example :
    (run_relay plain_codec
      (new_tail_relay 0 1)
      (trim_space "s")
      (taking_polls 2)
      (relay_end relayed)).1.consumed
    ≡ rows_after 0 (log_of (relay_end relayed).0 (trim_space "s"))
unfolding relay_end relay_events trim_space
relay_catches_up_example =
    relay_catches_up plain_codec (new_tail_relay 0 1) "s" 0 2 relayed (relay_end relayed).0
      (relay_end relayed).1 (omega arith) (omega arith) refl relayed_live
      (let l = relayed-length in omega arith)

hub_of : Result EventError (NotificationHub × ℕ) → NotificationHub
hub_of (ok p) = p.0
hub_of (err e) = record { next_id = 0; subscribers = [] }

-- Two subscribers of one session, of which the first has left before the session is notified.
hub_channels :
    (notify " s" (
      cancel_subscription "s" 1 (
        hub_of (subscribe_hub "s" (hub_of (subscribe_hub "s " new_notification_hub)))))).subscribers
    ≡ ("s", (2, true) ∷ []) ∷ []
unfolding notify cancel_subscription hub_of subscribe_hub channels_of new_notification_hub lookup
    insert erase trim_space String_discrete
hub_channels = refl
