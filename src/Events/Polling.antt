-- ===== src/Events/Polling.antt =====
-- The turns of the relay of internal/aigc/events/relay.go, and the appends of others between them.
use dora_agent.Base.{
  Bool, Bool-cases, Codec, List, String, String_discrete, [], ap, arith, drop, false, half,
  if◌then◌else◌, inl, inr, is_blank, length, nat_eq, not, ok, refl, subst, suc, sym, take,
  trim_space, true, ℕ, ◌+◌, ◌<◌, ◌∙◌, ◌∷◌, ◌≡◌,
}
use dora_agent.Events.Delivery.{
  Delivered, consume_rows-Delivered, longer-Delivered, waiting-Delivered,
}
use dora_agent.Events.Log.{IsEventLog, NumberedFrom}
use dora_agent.Events.Models.{SessionEvent}
use dora_agent.Events.Numbers.{append_event-growth}
use dora_agent.Events.Puts.{log_of-put_other, log_of-put_same}
use dora_agent.Events.Relay.{
  RelayMove, RelayState, TailRelay, appends, consume_rows, polled, polls, relay_poll, run_relay,
}
use dora_agent.Events.Runs.{append_event, append_event-IsEventLog, append_event-keeps}
use dora_agent.Events.Store.{EventStore, log_of, normalize_tail_limit, put_event, tail, tail_rows}
use dora_agent.Events.Tailing.{drop-search, rows_after, rows_after-drop}
use dora_agent.SessionRuntime.Continuation.Steps.{moves}
use dora_agent.SessionRuntime.Store.State.{after}

-- The state of the loop and of the log, with room for so many more moves.
pub record Relaying (start : ℕ) (lane : String) (room : ℕ) (s : EventStore) (r : RelayState)
    : Type 0 where
  pub log : IsEventLog s
  pub short : length (log_of s lane) + room < half
  pub delivered : Delivered start (log_of s lane) r

pub rows_after-place :
    (rows : List SessionEvent) (after : ℕ)
    → NumberedFrom 0 rows
    → length rows < half
    → after < half
    → rows_after after rows ≡ drop after rows
rows_after-place rows after n l b =
    ap (λ a. rows_after a rows) (omega arith)
    ∙ rows_after-drop rows 0 after n (omega arith) (omega arith)

tail-drop :
    (session : String) (s : EventStore) (after limit : ℕ)
    → is_blank session ≡ false
    → IsEventLog s
    → length (log_of s (trim_space session)) < half
    → after < half
    → tail session (record { after_seq = after; limit = limit }) s
      ≡ ok (take (normalize_tail_limit limit) (drop after (log_of s (trim_space session))))
unfolding tail tail_rows
tail-drop session s after limit nb log l b =
    let n = log.numbered (trim_space session) in
    rw nb (
      ap (λ rows. ok (take (normalize_tail_limit limit) rows))
        (drop-search (log_of s (trim_space session)) after n l (omega arith)
          ∙ rows_after-place (log_of s (trim_space session)) after n l b))

pub cursor-bound :
    (start room : ℕ) (lane : String) (s : EventStore) (r : RelayState)
    → start < half
    → Relaying start lane room s r
    → r.cursor < half
cursor-bound start room lane s r b v =
    let short = v.short in
    elim v.delivered.inside [ inl (e, n) ↦ omega arith | inr l ↦ omega arith ]

module _ (start : ℕ) (lane : String) (b : start < half) (nb : is_blank lane ≡ false)
    (trimmed : trim_space lane ≡ lane) where
  -- A turn of a loop that has not returned.
  pub live_poll :
      (relay : TailRelay) (accepts : SessionEvent → Bool) (room : ℕ) (s : EventStore)
      (r : RelayState)
      → Relaying start lane room s r
      → r.stopped ≡ false
      → (waits : Bool) × (relay_poll relay lane accepts s r
          ≡ consume_rows accepts
              (take (normalize_tail_limit relay.batch_size) (drop r.cursor (log_of s lane)))
              (record r { waits = waits }))
  unfolding relay_poll
  live_poll relay accepts room s r v live =
      let short = v.short in
      let rows = take (normalize_tail_limit relay.batch_size) (drop r.cursor (log_of s lane)) in
      let at : log_of s (trim_space lane) ≡ log_of s lane = ap (log_of s) trimmed in
      let read : tail lane (record { after_seq = r.cursor; limit = relay.batch_size }) s ≡ ok rows =
        tail-drop lane s r.cursor relay.batch_size nb v.log (rw at (omega arith))
          (cursor-bound start room lane s r b v)
        ∙ ap (λ xs. ok (take (normalize_tail_limit relay.batch_size) (drop r.cursor xs))) at in
      (not (nat_eq (length rows) relay.batch_size), rw (live, read) refl)

  stopped_poll :
      (relay : TailRelay) (accepts : SessionEvent → Bool) (s : EventStore) (r : RelayState)
      → r.stopped ≡ true
      → relay_poll relay lane accepts s r ≡ r
  unfolding relay_poll
  stopped_poll relay accepts s r done =
      ap
        (λ b.
          if b
          then r
          else polled relay.batch_size accepts
              (tail lane (record { after_seq = r.cursor; limit = relay.batch_size }) s) r)
        done

  pub poll-Delivered :
      (relay : TailRelay) (accepts : SessionEvent → Bool) (room : ℕ) (s : EventStore)
      (r : RelayState)
      → Relaying start lane room s r
      → Delivered start (log_of s lane) (relay_poll relay lane accepts s r)
  poll-Delivered relay accepts room s r v = elim (Bool-cases r.stopped) [
    | inl done ↦
        subst (Delivered start (log_of s lane)) (sym (stopped_poll relay accepts s r done))
          v.delivered
    | inr live ↦
        let short = v.short in
        let (w, e) = live_poll relay accepts room s r v live in
        subst (Delivered start (log_of s lane)) (sym e) (
          consume_rows-Delivered (normalize_tail_limit relay.batch_size)
            (drop r.cursor (log_of s lane)) accepts start (log_of s lane) (record r { waits = w })
            (v.log.numbered lane, omega arith) refl
            (waiting-Delivered start (log_of s lane) r w v.delivered))
  ]

  put-Delivered :
      (row : SessionEvent) (s : EventStore) (r : RelayState)
      → Delivered start (log_of s lane) r
      → Delivered start (log_of (put_event row s) lane) r
  put-Delivered row s r d = elim (String_discrete row.session_id lane) [
    | no e ↦ subst (λ rows. Delivered start rows r) (sym (log_of-put_other row s lane e)) d
    | yes e ↦
        subst (λ rows. Delivered start rows r) (sym (log_of-put_same row s lane e))
          (longer-Delivered start (log_of s lane) row r d)
  ]

  append-Relaying :
      (c : Codec) (event : SessionEvent) (now room : ℕ) (s : EventStore) (r : RelayState)
      → Relaying start lane (suc room) s r
      → Relaying start lane room (append_event c event now s) r
  append-Relaying c event now room s r v =
      let growth = append_event-growth c lane s event now v.log in
      let short = v.short in
      record {
        log = append_event-IsEventLog c s event now v.log;
        short = omega arith;
        delivered =
            append_event-keeps c (λ x. Delivered start (log_of x lane) r) s event now v.log
              (λ row n m e. put-Delivered row s r v.delivered) v.delivered;
      }

  pub run_relay-Relaying :
      (c : Codec) (relay : TailRelay) (moves : List RelayMove) (s : EventStore) (r : RelayState)
      → Relaying start lane (length moves) s r
      → Relaying start lane 0
          (run_relay c relay lane moves (s, r)).0
          (run_relay c relay lane moves (s, r)).1
  unfolding run_relay
  run_relay-Relaying c relay [] s r v = v
  run_relay-Relaying c relay (appends event now ∷ moves) s r v =
      run_relay-Relaying c relay moves (append_event c event now s) r
        (append-Relaying c event now (length moves) s r v)
  run_relay-Relaying c relay (polls accepts ∷ moves) s r v =
      let short = v.short in
      run_relay-Relaying c relay moves s (relay_poll relay lane accepts s r) (record {
        log = v.log;
        short = omega arith;
        delivered = poll-Delivered relay accepts (suc (length moves)) s r v;
      })
