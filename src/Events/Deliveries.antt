-- ===== src/Events/Deliveries.antt =====
-- The relay of internal/aigc/events/relay.go delivers each row of a session once, in order, and all of
-- them once it is left to poll.
use dora_agent.Base.{
  >>=-eq-ok, Codec, List, String, [], ap, append_nil, arith, drop, drop_all, false, half, inl, inr,
  is_blank, is_empty, length, length-drop, lookup, not, not-true, ok, refl, require, required,
  subst, suc, sym, take, trim_space, trim_space_idem, true, zero, ℕ, ◌++◌, ◌<◌, ◌∙◌, ◌∷◌, ◌≡◌, ◌≤◌,
}
use dora_agent.Events.Delivery.{Delivered, ShortLog, taken-Delivered, waiting-Delivered}
use dora_agent.Events.Log.{new_event_store-IsEventLog}
use dora_agent.Events.Models.{SessionEvent, invalid_event}
use dora_agent.Events.Polling.{
  Relaying, cursor-bound, live_poll, poll-Delivered, rows_after-place, run_relay-Relaying,
}
use dora_agent.Events.Relay.{
  RelayMove, RelayState, TailRelay, consume_rows, polls, relay_events, relay_poll, run_relay,
  started_at, taken,
}
use dora_agent.Events.Store.{EventStore, log_of, new_event_store, normalize_tail_limit}
use dora_agent.Events.Tailing.{rows_after}
use dora_agent.SessionRuntime.Continuation.Steps.{moves}
use dora_agent.SessionRuntime.Store.State.{after}

start-Relaying :
    (after : ℕ) (lane : String) (room : ℕ)
    → room < half
    → Relaying after lane room new_event_store (started_at after)
unfolding new_event_store log_of lookup
start-Relaying after lane room b = record {
  log = new_event_store-IsEventLog;
  short = omega arith;
  delivered = record { not_before = omega arith; whole = refl; inside = inl (refl, refl) };
}

-- The state of a relay that has made some moves.
relay_events-Relaying :
    (c : Codec) (relay : TailRelay) (session : String) (after : ℕ) (moves : List RelayMove)
    (s : EventStore) (r : RelayState)
    → after < half
    → length moves < half
    → relay_events c relay session after moves new_event_store ≡ ok (s, r)
    → (is_blank session ≡ false) × Relaying after (trim_space session) 0 s r
unfolding relay_events
relay_events-Relaying c relay session after moves s r a b h =
    let (u, p, q) =
      >>=-eq-ok
        (require (not (is_blank session)) (invalid_event "session id and consumer are required")) _
        h in
    let nb : is_blank session ≡ false = not-true _ (required _ _ u p) in
    let ran =
      run_relay-Relaying after (trim_space session) a (ap is_empty (trim_space_idem session) ∙ nb)
        (trim_space_idem session) c relay moves new_event_store (started_at after)
        (start-Relaying after (trim_space session) (length moves) b) in
    let e : run_relay c relay (trim_space session) moves (new_event_store, started_at after)
        ≡ (s, r) =
      cc q in
    (nb, subst (λ x. Relaying after (trim_space session) 0 x.0 x.1) e ran)

-- The relay delivers exactly once and in order: from a cursor below 2 ^ 63, whatever its polls and the
-- appends of others, fewer than 2 ^ 63 together and in any order, from a new store on, and whatever
-- rows the consumer refuses, the rows that it has taken, followed by those of the session's log whose
-- number is greater than the relay's cursor now, are the rows whose number is greater than the cursor
-- it started from.
pub relay_delivers :
    (c : Codec) (relay : TailRelay) (session : String) (after : ℕ) (moves : List RelayMove)
    (s : EventStore) (r : RelayState)
    → after < half
    → length moves < half
    → relay_events c relay session after moves new_event_store ≡ ok (s, r)
    → r.consumed ++ rows_after r.cursor (log_of s (trim_space session))
      ≡ rows_after after (log_of s (trim_space session))
relay_delivers c relay session after moves s r a b h =
    let (nb, v) = relay_events-Relaying c relay session after moves s r a b h in
    let short = v.short in
    let n = v.log.numbered (trim_space session) in
    let cursor = cursor-bound after 0 (trim_space session) s r a v in
    ap (λ xs. r.consumed ++ xs)
      (rows_after-place (log_of s (trim_space session)) r.cursor n (omega arith) cursor)
    ∙ v.delivered.whole
    ∙ sym (rows_after-place (log_of s (trim_space session)) after n (omega arith) a)

empty_list : (xs : List SessionEvent) → length xs ≤ 0 → xs ≡ []
empty_list [] h = refl
empty_list (x ∷ xs) h = absurd (omega arith)

left_within : (n k : ℕ) (xs : List SessionEvent) → length xs ≤ k → length (drop n xs) ≤ k
left_within n k xs l = elim (length-drop n xs) [
  | inl e ↦ omega arith
  | inr m ↦ let q = drop_all n xs m in rw q (omega arith)
]

-- So many turns of the loop with a consumer that takes every row.
abbrev pub taking_polls : ℕ → List RelayMove
taking_polls zero = []
taking_polls (suc n) = polls (λ row. true) ∷ taking_polls n

-- A consumer that takes every row moves the cursor over all that the poll read.
consume_rows-all :
    (n : ℕ) (left rows : List SessionEvent) (start : ℕ) (r : RelayState)
    → ShortLog rows
    → drop r.cursor rows ≡ left
    → Delivered start rows r
    → ((consume_rows (λ row. true) (take n left) r).stopped ≡ r.stopped)
      × (drop (consume_rows (λ row. true) (take n left) r).cursor rows ≡ drop n left)
unfolding consume_rows
consume_rows-all zero left rows start r s e d = (refl, e)
consume_rows-all (suc n) [] rows start r s e d = (refl, e)
consume_rows-all (suc n) (row ∷ left) rows start r s e d =
    let (d', e') = taken-Delivered start rows row left r s e d in
    consume_rows-all n left rows start (taken row r) s e' d'

positive_limit : (n : ℕ) → 1 ≤ normalize_tail_limit n
unfolding normalize_tail_limit
positive_limit n = ground arith

shorter_left :
    (n k : ℕ) (xs : List SessionEvent) → 1 ≤ n → length xs ≤ suc k → length (drop n xs) ≤ k
shorter_left n k xs p l = elim (length-drop n xs) [
  | inl e ↦ omega arith
  | inr m ↦ let q = drop_all n xs m in rw q (omega arith)
]

module _ (start : ℕ) (lane : String) (b : start < half) (nb : is_blank lane ≡ false)
    (trimmed : trim_space lane ≡ lane) (c : Codec) (relay : TailRelay) where
  catches_up :
      (k : ℕ) (s : EventStore) (r : RelayState)
      → Relaying start lane 0 s r
      → r.stopped ≡ false
      → length (drop r.cursor (log_of s lane)) ≤ k
      → (run_relay c relay lane (taking_polls k) (s, r)).1.consumed ≡ drop start (log_of s lane)
  unfolding run_relay
  catches_up zero s r v live l =
      let done : drop r.cursor (log_of s lane) ≡ [] = empty_list _ l in
      sym (append_nil r.consumed) ∙ ap (λ xs. r.consumed ++ xs) (sym done) ∙ v.delivered.whole
  catches_up (suc k) s r v live l =
      let short = v.short in
      let (w, e) = live_poll start lane b nb trimmed relay (λ row. true) 0 s r v live in
      let (live', left) =
        consume_rows-all (normalize_tail_limit relay.batch_size) (drop r.cursor (log_of s lane))
          (log_of s lane) start (record r { waits = w }) (v.log.numbered lane, omega arith) refl
          (waiting-Delivered start (log_of s lane) r w v.delivered) in
      let r' = relay_poll relay lane (λ row. true) s r in
      let left' : drop r'.cursor (log_of s lane)
          ≡ drop (normalize_tail_limit relay.batch_size) (drop r.cursor (log_of s lane)) =
        ap (λ x. drop x.cursor (log_of s lane)) e ∙ left in
      catches_up k s r'
        (record {
          log = v.log;
          short = v.short;
          delivered = poll-Delivered start lane b nb trimmed relay (λ row. true) 0 s r v;
        })
        (ap (λ x. x.stopped) e ∙ live' ∙ live)
        (rw left' (shorter_left _ k _ (positive_limit relay.batch_size) l))

-- The relay catches up: a relay that has not returned, after any polls and appends of others that are
-- fewer than 2 ^ 63 together, from a new store and a cursor below 2 ^ 63 on, has taken every row of
-- the session whose number is greater than the cursor it started from, in order, after as many turns
-- of its loop as the log has rows, if the consumer takes the rows and nothing is appended meanwhile.
pub relay_catches_up :
    (c : Codec) (relay : TailRelay) (session : String) (after turns : ℕ) (moves : List RelayMove)
    (s : EventStore) (r : RelayState)
    → after < half
    → length moves < half
    → relay_events c relay session after moves new_event_store ≡ ok (s, r)
    → r.stopped ≡ false
    → length (log_of s (trim_space session)) ≤ turns
    → (run_relay c relay (trim_space session) (taking_polls turns) (s, r)).1.consumed
      ≡ rows_after after (log_of s (trim_space session))
relay_catches_up c relay session after turns moves s r a b h live l =
    let (nb, v) = relay_events-Relaying c relay session after moves s r a b h in
    let short = v.short in
    let n = v.log.numbered (trim_space session) in
    catches_up after (trim_space session) a (ap is_empty (trim_space_idem session) ∙ nb)
      (trim_space_idem session) c relay turns s r v live (left_within r.cursor turns _ l)
    ∙ sym (rows_after-place (log_of s (trim_space session)) after n (omega arith) a)
