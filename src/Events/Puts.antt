-- ===== src/Events/Puts.antt =====
-- What a new row changes in the log of internal/aigc/events/memory_store.go, and that the invariant
-- of the log stays.
use dora_agent.Base.{
  Among, Among-append_last, Among-append_left, Among-of_append, List, String, String_discrete, [],
  add64, ap, arith, found_before, inl, inr, length, length-append, lookup, lookup-insert,
  lookup-insert_kept, lookup-insert_self, none, refl, some, subst, suc, sym, word, ℕ, ◌%◌, ◌++◌,
  ◌+◌, ◌∙◌, ◌∷◌, ◌≡◌, ◌≢◌,
}
use dora_agent.Events.Log.{IsEventLog, NumberedFrom}
use dora_agent.Events.Models.{SessionEvent, source_identity}
use dora_agent.Events.Store.{EventStore, counter_of, log_of, put_event}

pub log_of-put_same :
    (row : SessionEvent) (s : EventStore) (session : String)
    → row.session_id ≡ session
    → log_of (put_event row s) session ≡ log_of s session ++ row ∷ []
unfolding log_of put_event
log_of-put_same row s session e =
    subst (λ j. log_of (put_event row s) j ≡ log_of s j ++ row ∷ []) e
      (rw (lookup-insert_self row.session_id (log_of s row.session_id ++ row ∷ []) s.by_session)
        refl)

pub log_of-put_other :
    (row : SessionEvent) (s : EventStore) (session : String)
    → row.session_id ≢ session
    → log_of (put_event row s) session ≡ log_of s session
unfolding log_of put_event
log_of-put_other row s session e =
    ground (
      arith,
      lookup-insert row.session_id session (log_of s row.session_id ++ row ∷ []) s.by_session,
    )

counter_of-put_same :
    (row : SessionEvent) (s : EventStore) (session : String)
    → row.session_id ≡ session
    → counter_of (put_event row s) session ≡ row.seq
unfolding counter_of put_event
counter_of-put_same row s session e =
    ground (arith, lookup-insert row.session_id session row.seq s.counters)

counter_of-put_other :
    (row : SessionEvent) (s : EventStore) (session : String)
    → row.session_id ≢ session
    → counter_of (put_event row s) session ≡ counter_of s session
unfolding counter_of put_event
counter_of-put_other row s session e =
    ground (arith, lookup-insert row.session_id session row.seq s.counters)

NumberedFrom-append :
    (rows : List SessionEvent) (n : ℕ) (row : SessionEvent)
    → NumberedFrom n rows
    → row.seq ≡ suc (n + length rows) % word
    → NumberedFrom n (rows ++ row ∷ [])
NumberedFrom-append [] n row h e = (omega arith, tt)
NumberedFrom-append (r ∷ rows) n row (h, hs) e =
    (h, NumberedFrom-append rows (suc n) row hs (omega arith))

module _ (row : SessionEvent) (s : EventStore) (log : IsEventLog s)
    (new_id : lookup row.event_id s.by_event ≡ none)
    (new_source : lookup (source_identity row) s.by_source ≡ none)
    (next : row.seq ≡ add64 (counter_of s row.session_id) 1) where
  put-counted :
      (session : String)
      → counter_of (put_event row s) session ≡ length (log_of (put_event row s) session) % word
  put-counted session = elim (String_discrete row.session_id session) [
    | yes e ↦
        let p = counter_of-put_same row s session e in
        let q = log_of-put_same row s session e in
        let n = length-append (log_of s session) (row ∷ []) in
        let m : counter_of s row.session_id ≡ length (log_of s session) % word =
          ap (counter_of s) e ∙ log.counted session in
        rw (p, q, n, next, m) (omega arith)
    | no e ↦
        rw (counter_of-put_other row s session e, log_of-put_other row s session e)
          (log.counted session)
  ]

  put-numbered : (session : String) → NumberedFrom 0 (log_of (put_event row s) session)
  put-numbered session = elim (String_discrete row.session_id session) [
    | yes e ↦
        let m : counter_of s row.session_id ≡ length (log_of s session) % word =
          ap (counter_of s) e ∙ log.counted session in
        subst (NumberedFrom 0) (sym (log_of-put_same row s session e)) (
          NumberedFrom-append (log_of s session) 0 row (log.numbered session)
            (next ∙ rw m (omega arith)))
    | no e ↦ subst (NumberedFrom 0) (sym (log_of-put_other row s session e)) (log.numbered session)
  ]

  put-placed :
      (session : String) (x : SessionEvent)
      → Among x (log_of (put_event row s) session)
      → (x.session_id ≡ session)
        × (lookup x.event_id (put_event row s).by_event ≡ some x)
        × (lookup (source_identity x) (put_event row s).by_source ≡ some x)
  unfolding put_event
  put-placed session x h =
      let old : Among x (log_of s session)
          → (x.session_id ≡ session)
            × (lookup x.event_id (put_event row s).by_event ≡ some x)
            × (lookup (source_identity x) (put_event row s).by_source ≡ some x) =
        λ a.
          let (p, q, r) = log.placed session x a in
          (
            p,
            lookup-insert_kept row.event_id x.event_id row x s.by_event new_id q,
            lookup-insert_kept (source_identity row) (source_identity x) row x s.by_source
                new_source r,
          ) in
      elim (String_discrete row.session_id session) [
        | yes e ↦
            elim (Among-of_append x row (log_of s session)
              (subst (Among x) (log_of-put_same row s session e) h)) [
                | inl a ↦ old a
                | inr y ↦
                    subst
                      (λ z.
                        (z.session_id ≡ session)
                        × (lookup z.event_id (put_event row s).by_event ≡ some z)
                        × (lookup (source_identity z) (put_event row s).by_source ≡ some z))
                      y
                      (
                        e,
                        lookup-insert_self row.event_id row s.by_event,
                        lookup-insert_self (source_identity row) row s.by_source,
                      )
              ]
        | no e ↦ old (subst (Among x) (log_of-put_other row s session e) h)
      ]

  -- A row of a log stays in it.
  put-Among :
      (session : String) (x : SessionEvent)
      → Among x (log_of s session)
      → Among x (log_of (put_event row s) session)
  put-Among session x h = elim (String_discrete row.session_id session) [
    | yes e ↦
        subst (Among x) (sym (log_of-put_same row s session e))
          (Among-append_left x (log_of s session) (row ∷ []) h)
    | no e ↦ subst (Among x) (sym (log_of-put_other row s session e)) h
  ]

  put-by_id :
      (id : String) (x : SessionEvent)
      → lookup id (put_event row s).by_event ≡ some x
      → (x.event_id ≡ id) × Among x (log_of (put_event row s) x.session_id)
  unfolding put_event
  put-by_id id x h = elim (found_before row.event_id id row x s.by_event h) [
    | inl (e, y) ↦ (
      sym (ap (λ z. z.event_id) y) ∙ e,
      subst (λ z. Among z (log_of (put_event row s) z.session_id)) y
          (subst (Among row) (sym (log_of-put_same row s row.session_id refl))
            (Among-append_last row (log_of s row.session_id))),
    )
    | inr (q, n) ↦ let (e, a) = log.by_id id x q in (e, put-Among x.session_id x a)
  ]

  put-by_identity :
      (key : String) (x : SessionEvent)
      → lookup key (put_event row s).by_source ≡ some x
      → (source_identity x ≡ key) × (lookup x.event_id (put_event row s).by_event ≡ some x)
  unfolding put_event
  put-by_identity key x h = elim (found_before (source_identity row) key row x s.by_source h) [
    | inl (e, y) ↦ (
      sym (ap source_identity y) ∙ e,
      subst (λ z. lookup z.event_id (put_event row s).by_event ≡ some z) y
          (lookup-insert_self row.event_id row s.by_event),
    )
    | inr (q, n) ↦
        let (e, a) = log.by_identity key x q in
        (e, lookup-insert_kept row.event_id x.event_id row x s.by_event new_id a)
  ]

  pub put-IsEventLog : IsEventLog (put_event row s)
  put-IsEventLog = record {
    counted = put-counted;
    numbered = put-numbered;
    placed = put-placed;
    by_id = put-by_id;
    by_identity = put-by_identity;
  }
