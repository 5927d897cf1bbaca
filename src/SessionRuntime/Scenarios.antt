-- ===== src/SessionRuntime/Scenarios.antt =====
-- Runs of the store on concrete inputs, and the theorems at them.
use dora_agent.Base.{
  Codec, Has, List, Option, String, String_discrete, Table, [], add64, arith, err, false, half,
  if◌then◌else◌, inl, insert, lookup, lt64, ltb, map, ne_of_str_eq, none, ok, refl, some, subst,
  sym, trim_space, true, ℕ, ◌+◌, ◌<◌, ◌∷◌, ◌≡◌, ◌≢◌, ◌≤◌, ◌⊎◌,
}
use dora_agent.SessionRuntime.Entry.Replay.{enqueue_idempotent}
use dora_agent.SessionRuntime.Fences.Acquisition.{
  acquired_fence_valid, padded_release_keeps_fence, takeover_fences_out,
}
use dora_agent.SessionRuntime.Fences.Stale.{run-fence_token_grows, stale_fence_changes_nothing}
use dora_agent.SessionRuntime.Lifecycle.Claim.{claim_next_returns, claim_next_takes_head}
use dora_agent.SessionRuntime.Lifecycle.Deaths.{InputsStay}
use dora_agent.SessionRuntime.Lifecycle.Evolution.{TurnEvolves}
use dora_agent.SessionRuntime.Lifecycle.Keeps.{Keeps, Keyed}
use dora_agent.SessionRuntime.Lifecycle.OneStarted.{run_one_active}
use dora_agent.SessionRuntime.Lifecycle.Rows.{new_store-Keyed, run-Keyed, run-TurnEvolves}
use dora_agent.SessionRuntime.Models.Inputs.{
  SessionInput, encode_input, input_fields, input_identity, user_message, validate_typed_input,
}
use dora_agent.SessionRuntime.Models.Records.{
  ClaimOptions, Fence, InputRecord, RuntimeLease, TurnRun, TurnSpec, fence_of,
}
use dora_agent.SessionRuntime.Models.Status.{
  InputStatus, claimed, fence_rejected, input_type_text, is_waiting, pending, resolved,
  user_message_type,
}
use dora_agent.SessionRuntime.Steps.{
  Op, acquires, begins, claims, commits, enqueues, gets_turn, kills_turn, releases, resolves, run,
  saves_output, step,
}
use dora_agent.SessionRuntime.Store.Claims.{
  claim_next, claim_with, claimed_record, first_candidate_from, goes_before, is_candidate,
  is_exhausted, is_started, select_input, started_head, started_head_from,
}
use dora_agent.SessionRuntime.Store.Endings.{commit_turn}
use dora_agent.SessionRuntime.Store.Fencing.{claimed_input, turn_and_claimed_input, validate_fence}
use dora_agent.SessionRuntime.Store.Lane.{admit_input, enqueue_input, requested_record}
use dora_agent.SessionRuntime.Store.Leases.{acquire_lease, handoff_lease, release_lease}
use dora_agent.SessionRuntime.Store.Outputs.{save_turn_output, write_output}
use dora_agent.SessionRuntime.Store.State.{
  Clock, Store, capped_lease_until, input_source_identity, json_equal, new_store, put_input,
  same_input,
}
use dora_agent.SessionRuntime.Store.Turns.{begin_turn, get_or_create_turn, prepared_turn}

-- A codec for tests: a text is its own value, every object is written "{}", and a digest is its text.
abbrev pub plain_codec : Codec
plain_codec = record {
  valid = λ s. true;
  parse = λ s. some s;
  marshal = λ fields. some "{}";
  sum_hex = λ n s. s;
}

abbrev at : ℕ → Clock
at t = record { now = t; recheck = t }

abbrev hello : Option SessionInput
hello = some (
    user_message (record {
      input_id = "message:m1";
      event_id = "message:m1";
      message_id = "m1";
      context_message_seq = 1;
    }))

abbrev again : Option SessionInput
again = some (
    user_message (record {
      input_id = "message:m2";
      event_id = "message:m2";
      message_id = "m2";
      context_message_seq = 2;
    }))

abbrev fence_one : Fence
fence_one = record { session_id = "s1"; owner_id = "o1"; fence_token = 1 }

abbrev claim_one : ClaimOptions
claim_one = record { fence = fence_one; claim_ttl = 50; max_attempts = 3 }

abbrev no_spec : TurnSpec
no_spec = record {
  turn_id = "t1";
  runner_run_id = "";
  parent_turn_id = "";
  runner_checkpoint_id = "";
}

-- Owner o1 takes the lease; two messages come in; the first is claimed.
abbrev opening : List (Clock × Op)
opening =
    (at 10, acquires " s1 " "o1" 100)
    ∷ (at 11, enqueues "s1" hello)
    ∷ (at 12, enqueues "s1" again)
    ∷ (at 13, claims claim_one)
    ∷ []

-- Its turn runs and is committed.
abbrev turn_ops : List (Clock × Op)
turn_ops =
    (at 14, gets_turn fence_one "message:m1" no_spec)
    ∷ (at 15, begins fence_one "t1")
    ∷ (at 16, saves_output fence_one "t1" "[1]" "d1")
    ∷ (at 17, commits fence_one "t1" "d1")
    ∷ []

unfoldable pub opened : Store
unfolding run step new_store acquire_lease enqueue_input encode_input input_identity
    validate_typed_input input_fields requested_record admit_input same_input json_equal claim_next
    select_input claim_with claimed_record is_exhausted started_head started_head_from is_started
    first_candidate_from is_candidate goes_before validate_fence input_source_identity
    input_type_text capped_lease_until lookup insert trim_space String_discrete
opened = run plain_codec opening new_store

done_store : Store
unfolding opened get_or_create_turn begin_turn save_turn_output commit_turn claimed_input
    turn_and_claimed_input prepared_turn write_output
done_store = run plain_codec turn_ops opened

input_statuses : Store → List (String × InputStatus)
input_statuses s = map (λ p. (p.0, p.1.status)) s.inputs

opened_status : input_statuses opened ≡ ("message:m1", claimed) ∷ ("message:m2", pending) ∷ []
unfolding opened input_statuses
opened_status = refl

done_status : input_statuses done_store ≡ ("message:m1", resolved) ∷ ("message:m2", pending) ∷ []
unfolding done_store input_statuses
done_status = refl

opened-Keyed : Keyed opened
unfolding opened
opened-Keyed = run-Keyed plain_codec opening new_store new_store-Keyed

abbrev no_row : InputRecord
no_row =
    requested_record ""
      (record {
        input_id = "";
        event_id = "";
        input_type = user_message_type;
        source_id = "";
        priority = 0;
      })
      "" 0

abbrev first_of_rows : Table InputRecord → InputRecord
first_of_rows [] = no_row
first_of_rows (p ∷ m) = p.1

abbrev the_lease : Option RuntimeLease → RuntimeLease
the_lease none = record {
  session_id = "";
  owner_id = "";
  fence_token = 0;
  lease_until = 0;
  updated_at = 0;
}
the_lease (some l) = l

-- The row of the first message once it is claimed.
first_row : InputRecord
unfolding opened
first_row = first_of_rows opened.inputs

run_one_active_example : ◌≡◌ {A = String} "message:m1" "message:m1"
unfolding opened first_row
run_one_active_example =
    run_one_active plain_codec opening (omega arith) "message:m1" "message:m1" first_row first_row
      (inl (refl, refl)) (inl (refl, refl)) (inl refl) (inl refl) refl

-- Owner o2 takes over once the lease of o1 has run out.
taken_over : Store
unfolding opened handoff_lease
taken_over = step plain_codec (at 200) (acquires "s1" "o2" 100) opened

lease_at : String → Store → RuntimeLease
unfolding lookup String_discrete
lease_at k s = the_lease (lookup k s.leases)

taken_over-Keyed : Keyed taken_over
unfolding taken_over
taken_over-Keyed = run-Keyed plain_codec ((at 200, acquires "s1" "o2" 100) ∷ []) opened opened-Keyed

stale_fence_changes_nothing_example :
    step plain_codec
      (at 205)
      (resolves fence_one "message:m1")
      (run plain_codec ((at 201, enqueues "s1" hello) ∷ []) taken_over)
    ≡ run plain_codec ((at 201, enqueues "s1" hello) ∷ []) taken_over
unfolding taken_over lease_at
stale_fence_changes_nothing_example =
    stale_fence_changes_nothing plain_codec ((at 201, enqueues "s1" hello) ∷ []) taken_over
      fence_one (lease_at "s1" taken_over) taken_over-Keyed refl refl (omega arith) (omega arith)
      (at 205) (resolves fence_one "message:m1") refl

run-fence_token_grows_example :
    (l' : RuntimeLease) × (lookup "s1" (run plain_codec turn_ops opened).leases ≡ some l')
    × (1 ≤ l'.fence_token)
unfolding opened lease_at
run-fence_token_grows_example =
    run-fence_token_grows plain_codec turn_ops opened "s1" (lease_at "s1" opened) opened-Keyed refl
      refl (omega arith)

takeover_fences_out_example :
    let l = lease_at "s1" opened in
    (l.lease_until ≤ 200)
    × ((lease_at "s1" taken_over).fence_token ≡ l.fence_token + 1)
    × (validate_fence fence_one 210 taken_over ≡ err fence_rejected)
unfolding taken_over lease_at
takeover_fences_out_example =
    takeover_fences_out "s1" "o2" 100 (at 200) opened taken_over (lease_at "s1" opened)
      (lease_at "s1" taken_over) refl (ne_of_str_eq "o1" "o2" refl) (omega arith) refl 210 fence_one
      refl refl

acquired_fence_valid_example :
    validate_fence (fence_of (lease_at "s1" taken_over)) 250 taken_over
    ≡ (if ltb 250 300 then ok (lease_at "s1" taken_over) else err fence_rejected)
unfolding taken_over lease_at
acquired_fence_valid_example =
    acquired_fence_valid "s1" "o2" 100 (at 200) opened taken_over (lease_at "s1" taken_over)
      (λ q e.
        let p : q ≡ lease_at "s1" opened = cc e in
        subst (λ x. (0 < x.fence_token) × (x.fence_token + 1 < half)) (sym p)
          (omega arith, omega arith))
      refl 250

-- The lease of o1, given back: under its session id, and under one with a space behind it.
released : Store
unfolding opened release_lease
released = step plain_codec (at 20) (releases fence_one) opened

abbrev padded_fence : Fence
padded_fence = record { session_id = "s1 "; owner_id = "o1"; fence_token = 1 }

padded_released : Store
unfolding opened release_lease
padded_released = step plain_codec (at 20) (releases padded_fence) opened

padded_release_keeps_fence_example :
    validate_fence padded_fence 30 padded_released ≡ validate_fence padded_fence 30 opened
unfolding padded_released
padded_release_keeps_fence_example =
    padded_release_keeps_fence padded_fence (at 20) opened padded_released tt
      (ne_of_str_eq "s1 " "s1" refl) refl 30

hello_row : InputRecord
unfolding opened
hello_row = first_of_rows (step plain_codec (at 11) (enqueues "s1" hello) new_store).inputs

enqueue_idempotent_example :
    enqueue_input plain_codec "s1" hello
      (at 12)
      (step plain_codec (at 11) (enqueues "s1" hello) new_store)
    ≡ ok (
      step plain_codec (at 11) (enqueues "s1" hello) new_store,
      record { input = hello_row; enqueued = false },
    )
unfolding opened hello_row
enqueue_idempotent_example =
    enqueue_idempotent plain_codec "s1" hello (at 11) (at 12) new_store _
      (record { input = hello_row; enqueued = true }) refl

unfoldable pub before_claim : Store
unfolding opened
before_claim =
    run plain_codec
      ((at 10, acquires " s1 " "o1" 100)
        ∷ (at 11, enqueues "s1" hello)
        ∷ (at 12, enqueues "s1" again)
        ∷ [])
      new_store

before_claim-Keyed : Keyed before_claim
unfolding before_claim
before_claim-Keyed =
    run-Keyed plain_codec
      ((at 10, acquires " s1 " "o1" 100)
        ∷ (at 11, enqueues "s1" hello)
        ∷ (at 12, enqueues "s1" again)
        ∷ [])
      new_store new_store-Keyed

claim_next_returns_example : claim_next plain_codec claim_one (at 13) before_claim ≢ none
claim_next_returns_example =
    claim_next_returns plain_codec claim_one (at 13) before_claim before_claim-Keyed

claim_next_takes_head_example :
    (t : Store) × (r : InputRecord) × (lease : RuntimeLease) × Keeps before_claim t
    × InputsStay claim_one before_claim t
    × (validate_fence claim_one.fence 13 before_claim ≡ ok lease)
    × Has t.inputs r.input_id r
    × (is_waiting r.status ≡ true)
    × (r.available_at ≤ 13)
    × (r.session_id ≡ "s1")
    × (first_row ≡ record r {
      status = claimed;
      claim_owner = "o1";
      claim_fence = 1;
      lease_until = some (capped_lease_until 13 claim_one.claim_ttl lease.lease_until);
      attempts = add64 r.attempts 1;
      updated_at = 13;
      error_code = "";
      error_message = "";
    })
    × (opened ≡ put_input first_row t)
    × ((is_started r ≡ true)
        ⊎ ((k : String) (q : InputRecord)
            → Has t.inputs k q
            → q.session_id ≡ "s1"
            → (is_started q ≡ false)
              × (is_candidate "s1" 13 q ≡ true
                  → (lt64 r.priority q.priority ≡ false)
                    × (q.priority ≡ r.priority → lt64 q.enqueue_seq r.enqueue_seq ≡ false))))
unfolding before_claim first_row
claim_next_takes_head_example =
    claim_next_takes_head plain_codec claim_one (at 13) before_claim opened first_row
      before_claim-Keyed refl

done_store-Keyed : Keyed done_store
unfolding done_store
done_store-Keyed = run-Keyed plain_codec turn_ops opened opened-Keyed

abbrev no_turn : TurnRun
no_turn = prepared_turn plain_codec fence_one no_spec "" 0 no_row

abbrev first_of_turns : Table TurnRun → TurnRun
first_of_turns [] = no_turn
first_of_turns (p ∷ m) = p.1

first_turn : TurnRun
unfolding done_store
first_turn = first_of_turns done_store.turns

run-TurnEvolves_example :
    (t' : TurnRun) × (lookup "t1"
        (run plain_codec
          ((at 18, kills_turn fence_one "t1" (record { code = "x"; message = "y" })) ∷ [])
          done_store).turns
      ≡ some t')
    × TurnEvolves first_turn t'
unfolding done_store first_turn
run-TurnEvolves_example =
    run-TurnEvolves plain_codec
      ((at 18, kills_turn fence_one "t1" (record { code = "x"; message = "y" })) ∷ []) done_store
      done_store-Keyed "t1" first_turn refl
