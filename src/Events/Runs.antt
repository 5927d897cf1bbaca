-- ===== src/Events/Runs.antt =====
-- Sequences of appends to the event log of internal/aigc/events/memory_store.go.
use dora_agent.Base.{
  Codec, List, Result, Result-cases, [], add64, err, inl, inr, lookup, none, ok, refl, subst, sym,
  ℕ, ◌∷◌, ◌≡◌,
}
use dora_agent.Events.Log.{IsEventLog, append-cases}
use dora_agent.Events.Models.{
  AppendResult, EventError, SessionEvent, source_identity, trimmed_event,
}
use dora_agent.Events.Puts.{put-IsEventLog}
use dora_agent.Events.Store.{
  EventStore, append_session_event_once, counter_of, numbered_event, put_event,
}

-- An error leaves the store.
abbrev pub appended_store :
    {A : Type 0} → EventStore → Result EventError (EventStore × A) → EventStore
appended_store s (err e) = s
appended_store s (ok p) = p.0

unfoldable pub append_event : Codec → SessionEvent → ℕ → EventStore → EventStore
append_event c event now s = appended_store s (append_session_event_once c event now s)

-- AppendSessionEventOnce for each event, at its time.
unfoldable pub append_events : Codec → List (SessionEvent × ℕ) → EventStore → EventStore
append_events c [] s = s
append_events c ((event, now) ∷ more) s = append_events c more (append_event c event now s)

numbered-new_id :
    (event : SessionEvent) (now : ℕ) (s : EventStore)
    → lookup (trimmed_event event).event_id s.by_event ≡ none
    → lookup (numbered_event (trimmed_event event) now s).event_id s.by_event ≡ none
unfolding numbered_event
numbered-new_id event now s n = n

numbered-new_source :
    (event : SessionEvent) (now : ℕ) (s : EventStore)
    → lookup (source_identity (trimmed_event event)) s.by_source ≡ none
    → lookup (source_identity (numbered_event (trimmed_event event) now s)) s.by_source ≡ none
unfolding numbered_event source_identity
numbered-new_source event now s n = n

numbered-next :
    (event : SessionEvent) (now : ℕ) (s : EventStore)
    → let row = numbered_event (trimmed_event event) now s in
      row.seq ≡ add64 (counter_of s row.session_id) 1
unfolding numbered_event
numbered-next event now s = refl

module _ (c : Codec) where
  -- A property of stores that an append of a new row keeps.
  pub append-keeps :
      (P : EventStore → Type 0) (s s' : EventStore) (event : SessionEvent) (now : ℕ)
      (r : AppendResult)
      → IsEventLog s
      → ((row : SessionEvent)
          → lookup row.event_id s.by_event ≡ none
          → lookup (source_identity row) s.by_source ≡ none
          → row.seq ≡ add64 (counter_of s row.session_id) 1
          → P (put_event row s))
      → P s
      → append_session_event_once c event now s ≡ ok (s', r)
      → P s'
  append-keeps P s s' event now r log new old h =
      let (valid, did) = append-cases c event now s s' r h in
      elim did [
        | inl (existing, found, p, q) ↦ subst P (sym p) old
        | inr ((n, m), p, q) ↦
            let row = numbered_event (trimmed_event event) now s in
            subst P (sym p) (
              new row (numbered-new_id event now s n) (numbered-new_source event now s m)
                (numbered-next event now s))
      ]

  pub append-IsEventLog :
      (wanted : SessionEvent) (now : ℕ) (s s' : EventStore) (r : AppendResult)
      → IsEventLog s
      → append_session_event_once c wanted now s ≡ ok (s', r)
      → IsEventLog s'
  append-IsEventLog wanted now s s' r log h =
      append-keeps IsEventLog s s' wanted now r log (λ row n m e. put-IsEventLog row s log n m e)
        log h

  pub append_event-keeps :
      (P : EventStore → Type 0) (s : EventStore) (event : SessionEvent) (now : ℕ)
      → IsEventLog s
      → ((row : SessionEvent)
          → lookup row.event_id s.by_event ≡ none
          → lookup (source_identity row) s.by_source ≡ none
          → row.seq ≡ add64 (counter_of s row.session_id) 1
          → P (put_event row s))
      → P s
      → P (append_event c event now s)
  unfolding append_event
  append_event-keeps P s event now log new old =
      elim (Result-cases (append_session_event_once c event now s)) [
        | inl (x, e) ↦ rw e old
        | inr ((s', r), e) ↦ rw e (append-keeps P s s' event now r log new old e)
      ]

  pub append_event-IsEventLog :
      (s : EventStore) (event : SessionEvent) (now : ℕ)
      → IsEventLog s
      → IsEventLog (append_event c event now s)
  append_event-IsEventLog s event now log =
      append_event-keeps IsEventLog s event now log (λ row n m e. put-IsEventLog row s log n m e)
        log

  pub append_events-IsEventLog :
      (events : List (SessionEvent × ℕ)) (s : EventStore)
      → IsEventLog s
      → IsEventLog (append_events c events s)
  unfolding append_events
  append_events-IsEventLog [] s log = log
  append_events-IsEventLog ((event, now) ∷ more) s log =
      append_events-IsEventLog more (append_event c event now s)
        (append_event-IsEventLog s event now log)
