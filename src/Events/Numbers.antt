-- ===== src/Events/Numbers.antt =====
-- The numbers of the rows in the log of internal/aigc/events/memory_store.go, and what Tail and
-- CurrentSeq return from it.
use dora_agent.Base.{
  Among, Codec, List, String, String_discrete, [], ap, arith, false, get_elem?, half, inl, inr,
  is_blank, length, length-append, lookup, map, ok, refl, some, suc, sym, take, trim_space, word,
  zero, ℕ, ◌+◌, ◌<◌, ◌∙◌, ◌∷◌, ◌≡◌, ◌≤◌, ◌⊎◌,
}
use dora_agent.Events.Log.{IsEventLog, NumberedFrom, new_event_store-IsEventLog}
use dora_agent.Events.Models.{SessionEvent, TailOptions, source_identity}
use dora_agent.Events.Puts.{log_of-put_other, log_of-put_same}
use dora_agent.Events.Runs.{
  append_event, append_event-IsEventLog, append_event-keeps, append_events,
  append_events-IsEventLog,
}
use dora_agent.Events.Store.{
  EventStore, current_seq, log_of, new_event_store, normalize_tail_limit, put_event, tail,
  tail_rows,
}
use dora_agent.Events.Tailing.{drop-search, rows_after}

put_event-growth :
    (row : SessionEvent) (s : EventStore) (session : String)
    → length (log_of (put_event row s) session) ≤ suc (length (log_of s session))
put_event-growth row s session = elim (String_discrete row.session_id session) [
  | yes e ↦
      let n = length-append (log_of s session) (row ∷ []) in
      rw (log_of-put_same row s session e) (omega arith)
  | no e ↦ rw (log_of-put_other row s session e) (omega arith)
]

new_event_store-length : (session : String) → length (log_of new_event_store session) ≡ 0
unfolding new_event_store log_of lookup
new_event_store-length session = refl

Among-of_get_elem? :
    (rows : List SessionEvent) (i : ℕ) (row : SessionEvent)
    → get_elem? rows i ≡ some row
    → Among row rows
Among-of_get_elem? [] i row h = cc h
Among-of_get_elem? (x ∷ rows) zero row h = inl (cc h)
Among-of_get_elem? (x ∷ rows) (suc i) row h = inr (Among-of_get_elem? rows i row h)

numbered-get_elem? :
    (rows : List SessionEvent) (n i : ℕ) (row : SessionEvent)
    → NumberedFrom n rows
    → n + length rows < half
    → get_elem? rows i ≡ some row
    → row.seq ≡ suc (n + i)
numbered-get_elem? [] n i row h b e = cc e
numbered-get_elem? (x ∷ rows) n zero row (h, hs) b e =
    let q : x ≡ row = cc e in let r : x.seq ≡ row.seq = ap (λ z. z.seq) q in omega arith
numbered-get_elem? (x ∷ rows) n (suc i) row (h, hs) b e =
    let rest = numbered-get_elem? rows (suc n) i row hs (omega arith) e in omega arith

module _ (c : Codec) where
  pub append_event-growth :
      (session : String) (s : EventStore) (event : SessionEvent) (now : ℕ)
      → IsEventLog s
      → length (log_of (append_event c event now s) session) ≤ suc (length (log_of s session))
  append_event-growth session s event now log =
      append_event-keeps c (λ x. length (log_of x session) ≤ suc (length (log_of s session))) s
        event now log (λ row n m e. put_event-growth row s session) (omega arith)

  pub append_events-growth :
      (events : List (SessionEvent × ℕ)) (session : String) (s : EventStore)
      → IsEventLog s
      → length (log_of (append_events c events s) session)
        ≤ length (log_of s session) + length events
  unfolding append_events
  append_events-growth [] session s log = omega arith
  append_events-growth ((event, now) ∷ more) session s log =
      let here = append_event-growth session s event now log in
      let rest =
        append_events-growth more session (append_event c event now s)
          (append_event-IsEventLog c s event now log) in
      omega arith

  -- The log of a new store after fewer than 2 ^ 63 appends.
  pub built-IsEventLog :
      (events : List (SessionEvent × ℕ)) → IsEventLog (append_events c events new_event_store)
  built-IsEventLog events =
      append_events-IsEventLog c events new_event_store new_event_store-IsEventLog

  pub built-length :
      (events : List (SessionEvent × ℕ)) (session : String)
      → length events < half
      → length (log_of (append_events c events new_event_store) session) < half
  built-length events session b =
      let g = append_events-growth events session new_event_store new_event_store-IsEventLog in
      let z = new_event_store-length session in omega arith

-- The numbers from n on, k of them.
abbrev pub count_up : ℕ → ℕ → List ℕ
count_up n zero = []
count_up n (suc k) = n ∷ count_up (suc n) k

numbered-count_up :
    (rows : List SessionEvent) (n : ℕ)
    → NumberedFrom n rows
    → n + length rows < half
    → map (λ r. r.seq) rows ≡ count_up (suc n) (length rows)
numbered-count_up [] n h b = refl
numbered-count_up (row ∷ rows) n (e, h) b =
    let q : row.seq ≡ suc n = e ∙ omega arith in
    rw (q, numbered-count_up rows (suc n) h (omega arith)) refl

-- The rows of a session are numbered 1, 2, 3 and so on without a gap: after fewer than 2 ^ 63 appends
-- on a new store, the numbers of a session's log are those from 1 to its length, in this order, and
-- CurrentSeq of a session id that is not blank is the length of its log.
pub rows_numbered :
    (c : Codec) (events : List (SessionEvent × ℕ)) (session : String)
    → is_blank session ≡ false
    → length events < half
    → (map (λ r. r.seq) (log_of (append_events c events new_event_store) (trim_space session))
        ≡ count_up 1
            (length (log_of (append_events c events new_event_store) (trim_space session))))
      × (current_seq session (append_events c events new_event_store)
          ≡ ok (length (log_of (append_events c events new_event_store) (trim_space session))))
unfolding current_seq
rows_numbered c events session nb b =
    let log = built-IsEventLog c events in
    let l = built-length c events (trim_space session) b in
    let n = log.counted (trim_space session) in
    (
      numbered-count_up _ 0 (log.numbered (trim_space session)) (omega arith),
      rw (nb, n) (ap ok (omega arith)),
    )

-- A row stands at one place only: after fewer than 2 ^ 63 appends on a new store, two rows in the logs
-- of any sessions that have the same event id, or the same key in the index of sources, stand at the
-- same place of the same log.
pub one_place :
    (c : Codec) (events : List (SessionEvent × ℕ)) (j k : String) (m n : ℕ) (x y : SessionEvent)
    → length events < half
    → get_elem? (log_of (append_events c events new_event_store) j) m ≡ some x
    → get_elem? (log_of (append_events c events new_event_store) k) n ≡ some y
    → (x.event_id ≡ y.event_id) ⊎ (source_identity x ≡ source_identity y)
    → (j ≡ k) × (m ≡ n)
one_place c events j k m n x y b p q same =
    let log = built-IsEventLog c events in
    let (sx, ix, rx) = log.placed j x (Among-of_get_elem? _ m x p) in
    let (sy, iy, ry) = log.placed k y (Among-of_get_elem? _ n y q) in
    let e : x ≡ y = elim same [ inl u ↦ cc (ix, iy, u) | inr u ↦ cc (rx, ry, u) ] in
    let l = built-length c events j b in
    let l' = built-length c events k b in
    let ex = numbered-get_elem? _ 0 m x (log.numbered j) (omega arith) p in
    let ey = numbered-get_elem? _ 0 n y (log.numbered k) (omega arith) q in
    let z = ap (λ r. r.seq) e in (sym sx ∙ ap (λ r. r.session_id) e ∙ sy, omega arith)

-- Tail returns what it promises: after fewer than 2 ^ 63 appends on a new store, for a session id that
-- is not blank and any cursor, the first rows of the session's log whose number is greater than the
-- cursor, in their order, as many as the normalized limit allows.
pub tail_exact :
    (c : Codec) (events : List (SessionEvent × ℕ)) (session : String) (options : TailOptions)
    → is_blank session ≡ false
    → options.after_seq < word
    → length events < half
    → tail session options (append_events c events new_event_store)
      ≡ ok (
          take (normalize_tail_limit options.limit) (
            rows_after options.after_seq
              (log_of (append_events c events new_event_store) (trim_space session))))
unfolding tail tail_rows
tail_exact c events session options nb w b =
    let log = built-IsEventLog c events in
    let l = built-length c events (trim_space session) b in
    rw nb (
      ap (λ rows. ok (take (normalize_tail_limit options.limit) rows))
        (drop-search _ options.after_seq (log.numbered (trim_space session)) l w))
