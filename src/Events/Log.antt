-- ===== src/Events/Log.antt =====
-- The invariant of the event log in internal/aigc/events/memory_store.go, through every append.
use dora_agent.Base.{
  >>=-eq-ok, Among, Codec, List, Option, Result-cases, String, [], err, inl, inr, length, lookup,
  none, ok, refl, require, required, some, suc, sym, true, word, ℕ, ◌%◌, ◌∙◌, ◌∷◌, ◌≡◌, ◌⊎◌,
}
use dora_agent.Events.Models.{
  AppendResult, SessionEvent, check_event, event_conflict, normalize_event, same_identity,
  source_identity, trimmed_event,
}
use dora_agent.Events.Store.{
  EventStore, append_by_event, append_by_source, append_session_event_once, counter_of, log_of,
  new_event_store, newly_appended, numbered_event, put_event, replay_event, replayed,
}

abbrev pub NumberedFrom : ℕ → List SessionEvent → Type 0
NumberedFrom n [] = Unit {0}
NumberedFrom n (row ∷ rows) = (row.seq ≡ suc n % word) × NumberedFrom (suc n) rows

-- The rows of each session are numbered from 1 on, its counter is their number, and the two indexes
-- hold just the rows of the logs.
pub record IsEventLog (s : EventStore) : Type 0 where
  pub counted : (session : String) → counter_of s session ≡ length (log_of s session) % word
  pub numbered : (session : String) → NumberedFrom 0 (log_of s session)
  pub placed :
      (session : String) (row : SessionEvent)
      → Among row (log_of s session)
      → (row.session_id ≡ session)
        × (lookup row.event_id s.by_event ≡ some row)
        × (lookup (source_identity row) s.by_source ≡ some row)
  pub by_id :
      (id : String) (row : SessionEvent)
      → lookup id s.by_event ≡ some row
      → (row.event_id ≡ id) × Among row (log_of s row.session_id)
  pub by_identity :
      (key : String) (row : SessionEvent)
      → lookup key s.by_source ≡ some row
      → (source_identity row ≡ key) × (lookup row.event_id s.by_event ≡ some row)

pub new_event_store-IsEventLog : IsEventLog new_event_store
unfolding new_event_store counter_of log_of lookup
new_event_store-IsEventLog = record {
  counted = λ session. refl;
  numbered = λ session. tt;
  placed = λ session row h. absurd h;
  by_id = λ id row h. cc h;
  by_identity = λ key row h. cc h;
}

-- The row under which an append finds its event.
abbrev pub FoundRow : Codec → SessionEvent → SessionEvent → EventStore → Type 0
FoundRow c event existing s =
    (same_identity c existing event ≡ true)
    × ((lookup event.event_id s.by_event ≡ some existing)
        ⊎ ((lookup event.event_id s.by_event ≡ none)
            × (lookup (source_identity event) s.by_source ≡ some existing)))

abbrev pub IsNew : SessionEvent → EventStore → Type 0
IsNew event s =
    (lookup event.event_id s.by_event ≡ none) × (lookup (source_identity event) s.by_source ≡ none)

-- An append changes nothing, or puts the event's row.
abbrev pub AppendDid : Codec → SessionEvent → ℕ → EventStore → EventStore → AppendResult → Type 0
AppendDid c event now s s' r =
    ((existing : SessionEvent) × FoundRow c event existing s × (s' ≡ s) × (r ≡ replayed existing))
    ⊎ (IsNew event s
        × (s' ≡ put_event (numbered_event event now s) s)
        × (r ≡ newly_appended (numbered_event event now s)))

module _ (c : Codec) where
  replay_event-cases :
      (existing event : SessionEvent) (conflict : String) (s s' : EventStore) (r : AppendResult)
      → replay_event c existing event conflict s ≡ ok (s', r)
      → (same_identity c existing event ≡ true) × (s' ≡ s) × (r ≡ replayed existing)
  unfolding replay_event
  replay_event-cases existing event conflict s s' r h =
      let (u, e, q) =
        >>=-eq-ok (require (same_identity c existing event) (event_conflict conflict)) _ h in
      (required _ _ u e, cc q, cc q)

  append_by_source-cases :
      (found : Option SessionEvent) (event : SessionEvent) (now : ℕ) (s s' : EventStore)
      (r : AppendResult)
      → lookup event.event_id s.by_event ≡ none
      → lookup (source_identity event) s.by_source ≡ found
      → append_by_source c found event now s ≡ ok (s', r)
      → AppendDid c event now s s' r
  unfolding append_by_source
  append_by_source-cases none event now s s' r n e h = inr ((n, e), cc h, cc h)
  append_by_source-cases (some existing) event now s s' r n e h =
      let (same, p, q) = replay_event-cases existing event "source_key" s s' r h in
      inl (existing, (same, inr (n, e)), p, q)

  append_by_event-cases :
      (found : Option SessionEvent) (event : SessionEvent) (now : ℕ) (s s' : EventStore)
      (r : AppendResult)
      → lookup event.event_id s.by_event ≡ found
      → append_by_event c found event now s ≡ ok (s', r)
      → AppendDid c event now s s' r
  unfolding append_by_event
  append_by_event-cases none event now s s' r e h =
      append_by_source-cases _ event now s s' r e refl h
  append_by_event-cases (some existing) event now s s' r e h =
      let (same, p, q) = replay_event-cases existing event "event_id" s s' r h in
      inl (existing, (same, inl e), p, q)

  pub append-cases :
      (wanted : SessionEvent) (now : ℕ) (s s' : EventStore) (r : AppendResult)
      → append_session_event_once c wanted now s ≡ ok (s', r)
      → (normalize_event c wanted ≡ ok (trimmed_event wanted))
        × AppendDid c (trimmed_event wanted) now s s' r
  unfolding append_session_event_once normalize_event
  append-cases wanted now s s' r h = elim (Result-cases (check_event c (trimmed_event wanted))) [
    | inl (x, e) ↦ let q : err x ≡ ok (s', r) = sym (rw e refl) ∙ h in cc q
    | inr (u, e) ↦
        let q : append_by_event c (lookup (trimmed_event wanted).event_id s.by_event)
              (trimmed_event wanted) now s
            ≡ ok (s', r) =
          sym (rw e refl) ∙ h in
        (rw e refl, append_by_event-cases _ (trimmed_event wanted) now s s' r refl q)
  ]
