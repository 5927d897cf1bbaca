-- ===== src/Events/Once.antt =====
-- An event appended again to the log of internal/aigc/events/memory_store.go.
use dora_agent.Base.{
  Bool-cases, Codec, List, String, [], arith, decodes, err, if◌then◌else◌, inl, inr, lookup,
  lookup-insert_kept, lookup-insert_self, ok, parsed_eq-decodes, parsed_eq_self, refl, some,
  str_eq_refl, sym, true, ℕ, ◌∙◌, ◌∷◌, ◌≡◌,
}
use dora_agent.Events.Log.{IsEventLog, append-cases, new_event_store-IsEventLog}
use dora_agent.Events.Models.{
  AppendResult, SessionEvent, equal_json, event_conflict, normalize_event, same_identity,
  source_identity, trimmed_event,
}
use dora_agent.Events.Runs.{
  append-IsEventLog, append_event, append_event-IsEventLog, append_event-keeps, append_events,
  append_events-IsEventLog,
}
use dora_agent.Events.Store.{
  EventStore, append_by_event, append_session_event_once, new_event_store, numbered_event,
  put_event, replay_event, replayed,
}
use dora_agent.SessionRuntime.Store.State.{after}

module _ (c : Codec) where
  -- The row of an event is the same event, if its payload decodes.
  same_identity-numbered_event :
      (e : SessionEvent) (now : ℕ) (s : EventStore)
      → same_identity c (numbered_event e now s) e ≡ decodes c e.payload
  unfolding same_identity numbered_event equal_json
  same_identity-numbered_event e now s =
      rw
        (
          str_eq_refl e.session_id,
          str_eq_refl e.event_id,
          str_eq_refl e.event_type,
          str_eq_refl e.producer_kind,
          str_eq_refl e.source_key,
          str_eq_refl e.surface_id,
          str_eq_refl e.data_model_key,
          parsed_eq_self c e.payload,
        )
        (ground arith)

  same_identity-decodes :
      (existing e : SessionEvent)
      → same_identity c existing e ≡ true
      → same_identity c existing e ≡ decodes c existing.payload
  unfolding same_identity equal_json
  same_identity-decodes existing e h =
      h ∙ sym (parsed_eq-decodes c existing.payload e.payload (ground arith))

  same_identity-event_id :
      (existing e : SessionEvent)
      → same_identity c existing e ≡ true
      → existing.event_id ≡ e.event_id
  unfolding same_identity
  same_identity-event_id existing e h = ground arith

  -- What an append leaves behind: a row under the event's id that is the same event.
  append-found :
      (wanted : SessionEvent) (now : ℕ) (s s' : EventStore) (r : AppendResult)
      → IsEventLog s
      → append_session_event_once c wanted now s ≡ ok (s', r)
      → (lookup (trimmed_event wanted).event_id s'.by_event ≡ some r.event)
        × (same_identity c r.event (trimmed_event wanted) ≡ decodes c r.event.payload)
  unfolding put_event numbered_event trimmed_event
  append-found wanted now s s' r log h =
      let e = trimmed_event wanted in
      let (valid, did) = append-cases c wanted now s s' r h in
      elim did [
        | inl (x, (same, inl f), p, q) ↦ rw (p, q) (f, same_identity-decodes x e same)
        | inl (x, (same, inr (n, f)), p, q) ↦
            let (i, g) = log.by_identity (source_identity e) x f in
            cc (same_identity-event_id x e same, n, g)
        | inr ((n, m), p, q) ↦
            rw (p, q)
              (
                lookup-insert_self e.event_id (numbered_event e now s) s.by_event,
                same_identity-numbered_event e now s,
              )
      ]

  append_event-stays :
      (id : String) (row : SessionEvent) (s : EventStore) (event : SessionEvent) (now : ℕ)
      → IsEventLog s
      → lookup id s.by_event ≡ some row
      → lookup id (append_event c event now s).by_event ≡ some row
  unfolding put_event
  append_event-stays id row s event now log h =
      append_event-keeps c (λ x. lookup id x.by_event ≡ some row) s event now log
        (λ y n m e. lookup-insert_kept y.event_id id y row s.by_event n h) h

  pub append_events-stays :
      (events : List (SessionEvent × ℕ)) (id : String) (row : SessionEvent) (s : EventStore)
      → IsEventLog s
      → lookup id s.by_event ≡ some row
      → lookup id (append_events c events s).by_event ≡ some row
  unfolding append_events
  append_events-stays [] id row s log h = h
  append_events-stays ((event, now) ∷ more) id row s log h =
      append_events-stays more id row (append_event c event now s)
        (append_event-IsEventLog c s event now log) (append_event-stays id row s event now log h)

  append-again :
      (wanted row : SessionEvent) (now : ℕ) (s : EventStore)
      → normalize_event c wanted ≡ ok (trimmed_event wanted)
      → lookup (trimmed_event wanted).event_id s.by_event ≡ some row
      → same_identity c row (trimmed_event wanted) ≡ decodes c row.payload
      → append_session_event_once c wanted now s
        ≡ (if decodes c row.payload then ok (s, replayed row) else err (event_conflict "event_id"))
  unfolding append_session_event_once append_by_event replay_event
  append-again wanted row now s valid found same = elim (Bool-cases (decodes c row.payload)) [
    | inl y ↦ rw valid (rw found (rw (same, y) refl))
    | inr n ↦ rw valid (rw found (rw (same, n) refl))
  ]

-- An event is appended once: after a successful append to a store that only appends built, and any
-- further appends, the same event at any time gets the same row, with the same number, reports that
-- nothing was appended and leaves the store as it is, if json.Unmarshal decodes the payload of the
-- row; if it does not, which valid JSON allows, the same event is a conflict.
pub append_once :
    (c : Codec) (before after : List (SessionEvent × ℕ)) (wanted : SessionEvent) (now now' : ℕ)
    (s' : EventStore) (r : AppendResult)
    → append_session_event_once c wanted now (append_events c before new_event_store) ≡ ok (s', r)
    → append_session_event_once c wanted now' (append_events c after s') ≡ (
        if decodes c r.event.payload
        then ok (append_events c after s', replayed r.event)
        else err (event_conflict "event_id"))
append_once c before after wanted now now' s' r h =
    let s = append_events c before new_event_store in
    let log = append_events-IsEventLog c before new_event_store new_event_store-IsEventLog in
    let (valid, did) = append-cases c wanted now s s' r h in
    let (found, same) = append-found c wanted now s s' r log h in
    let log' = append-IsEventLog c wanted now s s' r log h in
    append-again c wanted r.event now' (append_events c after s') valid
      (append_events-stays c after (trimmed_event wanted).event_id r.event s' log' found) same
