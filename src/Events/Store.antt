-- ===== src/Events/Store.antt =====
-- MemoryStore of internal/aigc/events/memory_store.go.
use dora_agent.Base.{
  Bool, Codec, List, Option, Result, String, Table, [], add64, drop, false, get_elem?,
  if◌then◌else◌, insert, is_blank, le64, length, lookup, lt64, ltb, none, not, number_or_zero, ok,
  or_fail, require, some, suc, take, trim_space, true, zero, ℕ, ◌++◌, ◌+◌, ◌/◌, ◌>>=◌, ◌>>◌, ◌∷◌,
}
use dora_agent.Events.Models.{
  AppendResult, EventError, SessionEvent, TailOptions, event_conflict, event_not_found,
  invalid_event, normalize_event, same_identity, source_identity,
}
use dora_agent.SessionRuntime.Store.State.{after}

pub record EventStore : Type 0 where
  pub counters : Table ℕ
  pub by_event : Table SessionEvent
  pub by_source : Table SessionEvent
  pub by_session : Table (List SessionEvent)

unfoldable pub new_event_store : EventStore
new_event_store = record { counters = []; by_event = []; by_source = []; by_session = [] }

abbrev pub rows_or_none : Option (List SessionEvent) → List SessionEvent
rows_or_none none = []
rows_or_none (some rows) = rows

-- s.bySession[sessionID] and s.counters[sessionID].
unfoldable pub log_of : EventStore → String → List SessionEvent
log_of s session = rows_or_none (lookup session s.by_session)

unfoldable pub counter_of : EventStore → String → ℕ
counter_of s session = number_or_zero (lookup session s.counters)

-- The row of a new event: the next number of its session, and the time of the store.
unfoldable pub numbered_event : SessionEvent → ℕ → EventStore → SessionEvent
unfolding counter_of
numbered_event event now s = record event {
  seq = add64 (counter_of s event.session_id) 1;
  created_at = now;
}

unfoldable pub put_event : SessionEvent → EventStore → EventStore
unfolding log_of
put_event row s = record {
  counters = insert row.session_id row.seq s.counters;
  by_event = insert row.event_id row s.by_event;
  by_source = insert (source_identity row) row s.by_source;
  by_session = insert row.session_id (log_of s row.session_id ++ row ∷ []) s.by_session;
}

abbrev pub replayed : SessionEvent → AppendResult
replayed row = record { event = row; appended = false }

abbrev pub newly_appended : SessionEvent → AppendResult
newly_appended row = record { event = row; appended = true }

-- A row that stands under the event's id or source already.
unfoldable pub replay_event :
    Codec
    → SessionEvent
    → SessionEvent
    → String
    → EventStore
    → Result EventError (EventStore × AppendResult)
replay_event c existing event conflict s = do
  require (same_identity c existing event) (event_conflict conflict)
  ok (s, replayed existing)

unfoldable pub append_by_source :
    Codec
    → Option SessionEvent
    → SessionEvent
    → ℕ
    → EventStore
    → Result EventError (EventStore × AppendResult)
append_by_source c (some existing) event now s = replay_event c existing event "source_key" s
append_by_source c none event now s =
    let row = numbered_event event now s in ok (put_event row s, newly_appended row)

unfoldable pub append_by_event :
    Codec
    → Option SessionEvent
    → SessionEvent
    → ℕ
    → EventStore
    → Result EventError (EventStore × AppendResult)
append_by_event c (some existing) event now s = replay_event c existing event "event_id" s
append_by_event c none event now s =
    append_by_source c (lookup (source_identity event) s.by_source) event now s

unfoldable pub append_session_event_once :
    Codec → SessionEvent → ℕ → EventStore → Result EventError (EventStore × AppendResult)
append_session_event_once c wanted now s = do
  event ← normalize_event c wanted
  append_by_event c (lookup event.event_id s.by_event) event now s

unfoldable pub get_by_event_id : String → EventStore → Result EventError SessionEvent
get_by_event_id event_id s = or_fail (lookup (trim_space event_id) s.by_event) event_not_found

unfoldable pub normalize_tail_limit : ℕ → ℕ
normalize_tail_limit limit = if le64 limit 0 then 100 else if lt64 1000 limit then 1000 else limit

abbrev pub seq_after : Option SessionEvent → ℕ → Bool
seq_after none after = false
seq_after (some row) after = lt64 after row.seq

-- sort.Search on the positions from low up to high: each turn of its loop halves what is left, so
-- fuel for every position is enough.
unfoldable pub search_from : ℕ → (ℕ → Bool) → ℕ → ℕ → ℕ
search_from zero found low high = low
search_from (suc fuel) found low high =
    let middle = (low + high) / 2 in
    let rest =
      search_from fuel found (if found middle then low else suc middle)
        (if found middle then middle else high) in
    if ltb low high then rest else low

unfoldable pub search : ℕ → (ℕ → Bool) → ℕ
search n found = search_from n found 0 n

-- rows[start:min(len(rows), start+limit)].
unfoldable pub tail_rows : List SessionEvent → ℕ → ℕ → List SessionEvent
tail_rows rows after limit =
    take limit (drop (search (length rows) (λ i. seq_after (get_elem? rows i) after)) rows)

unfoldable pub tail : String → TailOptions → EventStore → Result EventError (List SessionEvent)
unfolding log_of
tail session_id options s = do
  require (not (is_blank session_id)) (invalid_event "session id is required")
  ok (
      tail_rows (log_of s (trim_space session_id)) options.after_seq
        (normalize_tail_limit options.limit))

unfoldable pub current_seq : String → EventStore → Result EventError ℕ
unfolding counter_of
current_seq session_id s = do
  require (not (is_blank session_id)) (invalid_event "session id is required")
  ok (counter_of s (trim_space session_id))
