-- ===== src/SessionRuntime/Continuation/Tests.antt =====
-- Runs on concrete continuations, and the theorems at them.
use dora_agent.Base.{
  Codec, Option, String, String_discrete, [], ap, arith, decimal, insert, lookup, map, ne_of_str_eq,
  none, ok, refl, some, trim_space, true, ℕ, ◌∙◌, ◌∷◌, ◌≡◌,
}
use dora_agent.SessionRuntime.Continuation.Applied.{apply_once}
use dora_agent.SessionRuntime.Continuation.Evolution.{
  ContinuationEvolves, moves-ContinuationEvolves,
}
use dora_agent.SessionRuntime.Continuation.Exclusive.{lease_excludes_others}
use dora_agent.SessionRuntime.Continuation.Executors.{fallback_closes_runner}
use dora_agent.SessionRuntime.Continuation.Ledger.{SameCommand}
use dora_agent.SessionRuntime.Continuation.Recorded.{moves-SameCommand}
use dora_agent.SessionRuntime.Continuation.Steps.{applies, falls_back, move, moves, requests, takes}
use dora_agent.SessionRuntime.Models.Records.{CommandLedger, Continuation, ContinuationClaim}
use dora_agent.SessionRuntime.Models.Status.{requested, runner_resume}
use dora_agent.SessionRuntime.Store.Commands.{
  apply_continuation, check_command, check_commands, command_identity, completed_command,
  finish_apply, normalize_command, same_command, write_commands,
}
use dora_agent.SessionRuntime.Store.Continuations.{
  admit_continuation, claim_continuation, continuation_identity, fall_back, fallback_continuation,
  find_continuation, hand_over, normalize_continuation, request_continuation, take_continuation,
  validate_continuation_claim, validate_continuation_lease,
}
use dora_agent.SessionRuntime.Store.State.{Clock, Store, json_equal, new_store}

-- A codec for tests: a text is its own value.
abbrev plain : Codec
plain = record {
  valid = λ s. true;
  parse = λ s. some s;
  marshal = λ fields. some "{}";
  sum_hex = λ n s. s;
}

abbrev at : ℕ → Clock
at t = record { now = t; recheck = t }

abbrev asked : Continuation
asked = record {
  approval_id = "a1";
  decision_version = 1;
  session_id = "s1";
  executor = runner_resume;
  execution_epoch = 1;
  status = requested;
  lease_owner = "";
  lease_until = none;
  error_code = "";
  error_message = "";
  created_at = 0;
  updated_at = 0;
  applied_at = none;
}

abbrev by_runner : ContinuationClaim
by_runner = record {
  approval_id = "a1";
  decision_version = 1;
  executor = runner_resume;
  execution_epoch = 1;
  lease_owner = "o1";
}

abbrev by_other : ContinuationClaim
by_other = record {
  approval_id = "a1";
  decision_version = 1;
  executor = runner_resume;
  execution_epoch = 1;
  lease_owner = "o2";
}

abbrev command : String → String → CommandLedger
command kind payload = record {
  approval_id = "";
  decision_version = 0;
  command_kind = kind;
  execution_epoch = 0;
  idempotency_key = "key1";
  command_payload = payload;
  result_payload = "";
  created_at = 0;
}

abbrev key : String
key = continuation_identity "a1" 1

the_continuation : Option Continuation → Continuation
the_continuation none = asked
the_continuation (some r) = r

-- Asked for at 10, claimed by o1 at 11 until 61.
claimed_store : Store
unfolding moves move request_continuation normalize_continuation admit_continuation
    continuation_identity claim_continuation validate_continuation_claim find_continuation
    take_continuation lookup insert trim_space decimal String_discrete new_store
claimed_store = moves plain ((at 10, requests asked) ∷ (at 11, takes by_runner 50) ∷ []) new_store

claimed_row : Continuation
unfolding claimed_store the_continuation
claimed_row = the_continuation (lookup key claimed_store.continuations)

claimed_here : lookup key claimed_store.continuations ≡ some claimed_row
unfolding claimed_store claimed_row
claimed_here = refl

moves-ContinuationEvolves_example :
    (r' : Continuation) × (lookup key
        (moves plain ((at 12, applies by_runner []) ∷ []) claimed_store).continuations
      ≡ some r')
    × ContinuationEvolves claimed_row r'
moves-ContinuationEvolves_example =
    moves-ContinuationEvolves plain ((at 12, applies by_runner []) ∷ []) claimed_store key
      claimed_row claimed_here

-- Applied by o1 at 12, with two commands of one kind and key that differ.
applied_store : Store
unfolding claimed_store apply_continuation finish_apply validate_continuation_lease check_commands
    check_command normalize_command completed_command same_command json_equal write_commands
    command_identity
applied_store =
    move plain (at 12) (applies by_runner (command "publish" "1" ∷ command "publish" "2" ∷ []))
      claimed_store

applied_row : Continuation
unfolding applied_store the_continuation
applied_row = the_continuation (lookup key applied_store.continuations)

-- Both commands pass, since each is checked against the store before the first is written.
conflicting_commands_pass : map (λ p. p.1.command_payload) applied_store.commands ≡ "2" ∷ []
unfolding applied_store
conflicting_commands_pass = refl

apply_once_example :
    apply_continuation plain by_other []
      (at 90)
      (moves plain ((at 80, requests asked) ∷ []) applied_store)
    ≡ ok (moves plain ((at 80, requests asked) ∷ []) applied_store, applied_row)
unfolding applied_store applied_row
apply_once_example =
    apply_once plain by_runner (command "publish" "1" ∷ command "publish" "2" ∷ []) (at 12)
      claimed_store applied_store applied_row refl ((at 80, requests asked) ∷ []) by_other []
      (at 90) refl refl

-- The lease of o1 runs out, and the deterministic executor takes over at 70.
fallen_store : Store
unfolding claimed_store fallback_continuation fall_back hand_over
fallen_store = move plain (at 70) (falls_back "a1" 1 1) claimed_store

fallen_row : Continuation
unfolding fallen_store the_continuation
fallen_row = the_continuation (lookup key fallen_store.continuations)

fallback_closes_runner_example :
    move plain
      (at 80)
      (applies by_runner [])
      (moves plain ((at 75, takes by_other 50) ∷ []) fallen_store)
    ≡ moves plain ((at 75, takes by_other 50) ∷ []) fallen_store
unfolding fallen_store fallen_row
fallback_closes_runner_example =
    fallback_closes_runner plain "a1" 1 1 (at 70) claimed_store fallen_store fallen_row refl
      ((at 75, takes by_other 50) ∷ []) (applies by_runner []) by_runner (at 80) refl refl refl

lease_excludes_others_example :
    lookup key
      (moves plain
        ((at 20, takes by_other 50) ∷ (at 30, falls_back "a1" 1 1) ∷ [])
        claimed_store).continuations
    ≡ some claimed_row
unfolding claimed_store claimed_row
lease_excludes_others_example =
    lease_excludes_others plain ((at 20, takes by_other 50) ∷ (at 30, falls_back "a1" 1 1) ∷ [])
      claimed_store key claimed_row 61 claimed_here refl refl
      (
        omega arith,
        omega arith,
        (λ q e same owner.
            ne_of_str_eq "o2" "o1" refl
              (let by : by_other ≡ q = cc e in ap (λ x. x.lease_owner) by ∙ owner)),
        (omega arith, omega arith, (λ q e. cc e), tt),
      )

recorded_row : Option CommandLedger → CommandLedger
recorded_row none = command "" ""
recorded_row (some x) = x

moves-SameCommand_example :
    (y : CommandLedger) × (lookup
        (command_identity "a1" 1 "publish")
        (moves plain
          ((at 95, applies by_other (command "publish" "3" ∷ [])) ∷ [])
          applied_store).commands
      ≡ some y)
    × SameCommand plain
        (recorded_row (lookup (command_identity "a1" 1 "publish") applied_store.commands))
        y
unfolding applied_store recorded_row
moves-SameCommand_example =
    moves-SameCommand plain ((at 95, applies by_other (command "publish" "3" ∷ [])) ∷ [])
      applied_store (command_identity "a1" 1 "publish") _ refl
