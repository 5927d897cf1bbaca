-- ===== src/SessionRuntime/Store/Runnable.antt =====
-- The reads of internal/aigc/sessionruntime/memory_store.go: GetInput, GetTurn, ValidateFence and
-- ListRunnableSessions.
use dora_agent.Base.{
  Bool, List, Option, Result, String, Table, [], if◌then◌else◌, insert, lookup, lt64, map, nat_eq,
  none, not, or_fail, pos64, some, str_eq, take, text_before, trim_space, true, ℕ, ◌&&◌, ◌||◌, ◌∷◌,
}
use dora_agent.SessionRuntime.Models.Records.{InputRecord, TurnRun}
use dora_agent.SessionRuntime.Models.Status.{
  Error, input_not_found, is_held, is_waiting, turn_not_found,
}
use dora_agent.SessionRuntime.Store.Claims.{earlier, is_started}
use dora_agent.SessionRuntime.Store.State.{Store, after, unexpired}

unfoldable pub get_input : String → Store → Result Error InputRecord
get_input input_id s = or_fail (lookup (trim_space input_id) s.inputs) input_not_found

unfoldable pub get_turn : String → Store → Result Error TurnRun
get_turn turn_id s = or_fail (lookup (trim_space turn_id) s.turns) turn_not_found

-- The map startedHeads: for each session its started input with the least sequence number.
unfoldable pub started_heads_from : Table InputRecord → Table InputRecord → Table InputRecord
started_heads_from heads [] = heads
started_heads_from heads ((k, r) ∷ m) =
    started_heads_from
      (if is_started r && earlier (lookup r.session_id heads) r
        then insert r.session_id r heads
        else heads)
      m

unfoldable pub started_heads : Store → Table InputRecord
started_heads s = started_heads_from [] s.inputs

-- The head of its session, or never claimed in a session without one.
abbrev pub may_be_next : Option InputRecord → InputRecord → Bool
may_be_next none r = not (pos64 r.attempts)
may_be_next (some head) r = str_eq r.input_id head.input_id

-- Waiting and available, or held under a claim that has run out.
abbrev pub is_due : ℕ → InputRecord → Bool
is_due now r =
    (is_waiting r.status && not (after r.available_at now))
    || (is_held r.status && not (unexpired r.lease_until now))

abbrev pub lower : ℕ → Option ℕ → Bool
lower seq none = true
lower seq (some other) = lt64 seq other

-- The map firstSeq.
unfoldable pub first_seqs_from : Table InputRecord → ℕ → Table ℕ → Table InputRecord → Table ℕ
first_seqs_from heads now seqs [] = seqs
first_seqs_from heads now seqs ((k, r) ∷ m) =
    first_seqs_from heads now
      (if may_be_next (lookup r.session_id heads) r
          && is_due now r
          && lower r.enqueue_seq (lookup r.session_id seqs)
        then insert r.session_id r.enqueue_seq seqs
        else seqs)
      m

-- The order that sort.Slice is given: by sequence number, then by session id.
unfoldable pub listed_before : String × ℕ → String × ℕ → Bool
listed_before a b = if nat_eq a.1 b.1 then text_before a.0 b.0 else lt64 a.1 b.1

unfoldable pub insert_listed : String × ℕ → Table ℕ → Table ℕ
insert_listed a [] = a ∷ []
insert_listed a (b ∷ m) =
    let rest = insert_listed a m in if listed_before b a then b ∷ rest else a ∷ b ∷ m

unfoldable pub sort_listed : Table ℕ → Table ℕ
unfolding insert_listed
sort_listed [] = []
sort_listed (a ∷ m) = insert_listed a (sort_listed m)

abbrev pub list_limit : ℕ → ℕ
list_limit limit = if not (pos64 limit) || lt64 1000 limit then 100 else limit

unfoldable pub list_runnable_sessions : ℕ → ℕ → Store → List String
unfolding sort_listed started_heads first_seqs_from
list_runnable_sessions limit now s =
    take (list_limit limit)
      (map (λ a. a.0) (sort_listed (first_seqs_from (started_heads s) now [] s.inputs)))
