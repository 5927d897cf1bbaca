-- ===== src/Events/Relay.antt =====
-- TailRelay of internal/aigc/events/relay.go: one loop polls the log behind its cursor and hands the
-- rows to a consumer, while others append. What the consumer answers is a parameter of each poll.
use dora_agent.Base.{
  Bool, Codec, List, Result, String, [], err, false, if◌then◌else◌, is_blank, le64, length, nat_eq,
  not, ok, require, trim_space, true, ℕ, ◌++◌, ◌>>◌, ◌∷◌,
}
use dora_agent.Events.Models.{EventError, SessionEvent, invalid_event}
use dora_agent.Events.Runs.{append_event}
use dora_agent.Events.Store.{EventStore, normalize_tail_limit, tail}
use dora_agent.SessionRuntime.Continuation.Steps.{move, moves}
use dora_agent.SessionRuntime.Store.State.{after}

pub record TailRelay : Type 0 where
  pub poll_interval : ℕ
  pub batch_size : ℕ

abbrev pub second : ℕ
second = 1000000000

unfoldable pub new_tail_relay : ℕ → ℕ → TailRelay
new_tail_relay interval size = record {
  poll_interval = if le64 interval 0 then second else interval;
  batch_size = normalize_tail_limit size;
}

-- The loop of Relay: its cursor, what the consumer has taken, whether the loop waits for the ticker or
-- a notification, and whether it has returned.
pub record RelayState : Type 0 where
  pub cursor : ℕ
  pub consumed : List SessionEvent
  pub waits : Bool
  pub stopped : Bool

abbrev pub started_at : ℕ → RelayState
started_at after = record { cursor = after; consumed = []; waits = false; stopped = false }

abbrev pub taken : SessionEvent → RelayState → RelayState
taken row r = record r { cursor = row.seq; consumed = r.consumed ++ row ∷ [] }

-- The cursor moves only once the consumer has taken the row; a row it refuses ends the loop.
unfoldable pub consume_rows : (SessionEvent → Bool) → List SessionEvent → RelayState → RelayState
consume_rows accepts [] r = r
consume_rows accepts (row ∷ rows) r =
    let rest = consume_rows accepts rows (taken row r) in
    if accepts row then rest else record r { stopped = true }

abbrev pub polled :
    ℕ → (SessionEvent → Bool) → Result EventError (List SessionEvent) → RelayState → RelayState
polled batch accepts (err e) r = record r { stopped = true }
polled batch accepts (ok rows) r =
    consume_rows accepts rows (record r { waits = not (nat_eq (length rows) batch) })

-- One turn of the loop.
unfoldable pub relay_poll :
    TailRelay → String → (SessionEvent → Bool) → EventStore → RelayState → RelayState
relay_poll relay session accepts s r =
    if r.stopped
    then r
    else polled relay.batch_size accepts
        (tail session (record { after_seq = r.cursor; limit = relay.batch_size }) s) r

pub data RelayMove : Type 0 where
  appends : SessionEvent → ℕ → RelayMove
  polls : (SessionEvent → Bool) → RelayMove

abbrev pub move_relay :
    Codec → TailRelay → String → RelayMove → EventStore × RelayState → EventStore × RelayState
move_relay c relay session (appends event now) (s, r) = (append_event c event now s, r)
move_relay c relay session (polls accepts) (s, r) = (s, relay_poll relay session accepts s r)

-- The appends of others and the turns of the loop, in any order.
unfoldable pub run_relay :
    Codec → TailRelay → String → List RelayMove → EventStore × RelayState → EventStore × RelayState
run_relay c relay session [] x = x
run_relay c relay session (move ∷ moves) x =
    run_relay c relay session moves (move_relay c relay session move x)

-- Relay, up to the moves that have happened so far.
unfoldable pub relay_events :
    Codec
    → TailRelay
    → String
    → ℕ
    → List RelayMove
    → EventStore
    → Result EventError (EventStore × RelayState)
unfolding run_relay
relay_events c relay session after moves s = do
  require (not (is_blank session)) (invalid_event "session id and consumer are required")
  ok (run_relay c relay (trim_space session) moves (s, started_at after))
