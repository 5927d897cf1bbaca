-- ===== src/SessionRuntime/Entry/Replay.antt =====
-- EnqueueInput is idempotent.
use mathlib.Core.Option
use dora_agent.Base.{
  >>=-eq-ok, Bool-cases, Codec, Option, Option-cases, String, add64, ap, arith, decodes, err, false,
  if◌then◌else◌, inl, inr, is_blank, lookup, lookup-insert_self, none, not, number_or_zero, ok,
  parsed_eq-decodes, parsed_eq_self, refl, require, some, subst, sym, trim_space, true, ℕ, ◌∙◌, ◌≡◌,
}
use dora_agent.SessionRuntime.Models.Inputs.{SessionInput, encode_input, input_context_message_seq}
use dora_agent.SessionRuntime.Models.Records.{EnqueueResult, InputRecord}
use dora_agent.SessionRuntime.Models.Status.{
  InputType, approval_continuation_type, batch_continuation_type, idempotency_conflict,
  input_type_eq, pending, resume_requested_type, user_message_type,
}
use dora_agent.SessionRuntime.Store.Lane.{
  admit_input, append_input, enqueue_input, replay_input, replay_source, requested_record,
}
use dora_agent.SessionRuntime.Store.State.{
  Clock, Store, input_source_identity, json_equal, same_input,
}

json_equal_self : (c : Codec) (s : String) → json_equal c s s ≡ decodes c s
unfolding json_equal
json_equal_self c s = parsed_eq_self c s

-- The same input as another has a payload that decodes.
same_input-decodes :
    (c : Codec) (existing wanted : InputRecord)
    → same_input c existing wanted ≡ true
    → same_input c existing wanted ≡ decodes c existing.payload
unfolding same_input json_equal
same_input-decodes c existing wanted h =
    h ∙ sym (parsed_eq-decodes c existing.payload wanted.payload (ground arith))

input_type_eq_refl : (t : InputType) → input_type_eq t t ≡ true
input_type_eq_refl user_message_type = refl
input_type_eq_refl resume_requested_type = refl
input_type_eq_refl approval_continuation_type = refl
input_type_eq_refl batch_continuation_type = refl

-- The row that EnqueueInput wrote is the same input as the one that was asked for, if its payload
-- decodes.
same_input_appended :
    (c : Codec) (wanted : InputRecord) (seq now : ℕ)
    → same_input c
        (record wanted {
          enqueue_seq = seq;
          status = pending;
          available_at = now;
          created_at = now;
          updated_at = now;
        })
        wanted
      ≡ decodes c wanted.payload
unfolding same_input
same_input_appended c wanted seq now =
    ground (arith, json_equal_self c wanted.payload, input_type_eq_refl wanted.input_type)

-- A second admission finds what the first one left, and accepts it if its payload decodes.
Readmitted : Codec → InputRecord → Store → EnqueueResult → Type 0
Readmitted c wanted s' r =
    (now : ℕ)
    → admit_input c wanted now s' ≡ (
        if decodes c r.input.payload
        then ok (s', record { input = r.input; enqueued = false })
        else err idempotency_conflict)

replay-Readmitted :
    (c : Codec) (wanted existing : InputRecord) (s : Store)
    → same_input c existing wanted ≡ decodes c existing.payload
    → replay_input c existing wanted s ≡ (
        if decodes c existing.payload
        then ok (s, record { input = existing; enqueued = false })
        else err idempotency_conflict)
unfolding replay_input
replay-Readmitted c wanted existing s same = rw same refl

known_input-Readmitted :
    (c : Codec) (wanted existing : InputRecord) (s : Store)
    → lookup wanted.input_id s.inputs ≡ some existing
    → same_input c existing wanted ≡ decodes c existing.payload
    → (r : EnqueueResult) → r.input ≡ existing
    → Readmitted c wanted s r
unfolding Readmitted admit_input replay_input
known_input-Readmitted c wanted existing s found same r e now =
    rw (found, admit_input) (rw e (replay-Readmitted c wanted existing s same))

known_source-Readmitted :
    (c : Codec) (wanted existing : InputRecord) (id : String) (s : Store)
    → lookup wanted.input_id s.inputs ≡ none
    → lookup
        (input_source_identity wanted.session_id wanted.input_type wanted.source_id)
        s.input_sources
      ≡ some id
    → lookup id s.inputs ≡ some existing
    → same_input c existing wanted ≡ decodes c existing.payload
    → (r : EnqueueResult) → r.input ≡ existing
    → Readmitted c wanted s r
unfolding Readmitted admit_input replay_source replay_input
known_source-Readmitted c wanted existing id s absent source found same r e now =
    rw (absent, source, found, admit_input) (rw e (replay-Readmitted c wanted existing s same))

replay_facts :
    (c : Codec) (existing wanted : InputRecord) (s s' : Store) (r : EnqueueResult)
    → replay_input c existing wanted s ≡ ok (s', r)
    → (same_input c existing wanted ≡ true) × (s ≡ s') × (r.input ≡ existing)
unfolding replay_input
replay_facts c existing wanted s s' r h = elim (Bool-cases (same_input c existing wanted)) [
  | inl e ↦
      let q : ok (s, record { input = existing; enqueued = false }) ≡ ok (s', r) = rw e at h in
      (e, cc q, cc q)
  | inr e ↦ let q : err idempotency_conflict ≡ ok (s', r) = rw e at h in cc q
]

appended_row : InputRecord → ℕ → ℕ → InputRecord
appended_row wanted seq now = record wanted {
  enqueue_seq = seq;
  status = pending;
  available_at = now;
  created_at = now;
  updated_at = now;
}

append_input-Readmitted :
    (c : Codec) (key : String) (wanted : InputRecord) (now : ℕ) (s s' : Store) (r : EnqueueResult)
    → append_input key wanted now s ≡ (s', r)
    → Readmitted c wanted s' r
unfolding append_input appended_row
append_input-Readmitted c key wanted now s s' r h =
    known_input-Readmitted c wanted row s' found (same_input_appended c wanted seq now) r
      (ap (λ p. p.1.input) (sym h))
  where
    seq : ℕ
    seq = add64 (number_or_zero (lookup wanted.session_id s.input_counters)) 1

    row : InputRecord
    row = appended_row wanted seq now

    found : lookup wanted.input_id s'.inputs ≡ some row
    found =
        subst (λ m. lookup wanted.input_id m ≡ some row) (ap (λ p. p.0.inputs) h)
          (lookup-insert_self wanted.input_id row s.inputs)

source_key_of : InputRecord → String
source_key_of wanted = input_source_identity wanted.session_id wanted.input_type wanted.source_id

replay_source-Readmitted :
    (c : Codec) (wanted : InputRecord) (id : String) (o : Option InputRecord) (s s' : Store)
    (r : EnqueueResult)
    → lookup wanted.input_id s.inputs ≡ none
    → lookup (source_key_of wanted) s.input_sources ≡ some id
    → lookup id s.inputs ≡ o
    → replay_source c o wanted s ≡ ok (s', r)
    → Readmitted c wanted s' r
unfolding replay_source source_key_of
replay_source-Readmitted c wanted id none s s' r absent source found h = cc h
replay_source-Readmitted c wanted id (some existing) s s' r absent source found h =
    let (same, st, i) = replay_facts c existing wanted s s' r h in
    subst (λ x. Readmitted c wanted x r) st
      (known_source-Readmitted c wanted existing id s absent source found
        (same_input-decodes c existing wanted same) r i)

admit_input-Readmitted :
    (c : Codec) (wanted : InputRecord) (now : ℕ) (s s' : Store) (r : EnqueueResult)
    → admit_input c wanted now s ≡ ok (s', r)
    → Readmitted c wanted s' r
unfolding admit_input source_key_of
admit_input-Readmitted c wanted now s s' r h =
    elim (Option-cases (lookup wanted.input_id s.inputs)) [
      | inr (existing, e) ↦
          let (same, st, i) = replay_facts c existing wanted s s' r (rw (e, admit_input) at h) in
          subst (λ x. Readmitted c wanted x r) st
            (known_input-Readmitted c wanted existing s e
              (same_input-decodes c existing wanted same) r i)
      | inl e ↦ elim (Option-cases (lookup (source_key_of wanted) s.input_sources)) [
        | inr (id, f) ↦
            replay_source-Readmitted c wanted id (lookup id s.inputs) s s' r e f refl
              (rw (e, f, admit_input) at h)
        | inl f ↦
            let q : ok (append_input (source_key_of wanted) wanted now s) ≡ ok (s', r) =
              rw (e, f, admit_input) at h in
            append_input-Readmitted c (source_key_of wanted) wanted now s s' r (cc q)
      ]
    ]

-- EnqueueInput once more with the same input finds the row of the first time: whatever the first
-- call did, if it succeeded, a second one at any time returns the same row, says that nothing was
-- enqueued, and leaves the store as it is, if json.Unmarshal decodes the payload of the row; if it
-- does not, which valid JSON allows, the second call is a conflict.
pub enqueue_idempotent :
    (c : Codec) (session : String) (input : Option SessionInput) (t t' : Clock) (s s' : Store)
    (r : EnqueueResult)
    → enqueue_input c session input t s ≡ ok (s', r)
    → enqueue_input c session input t' s' ≡ (
        if decodes c r.input.payload
        then ok (s', record { input = r.input; enqueued = false })
        else err idempotency_conflict)
unfolding enqueue_input Readmitted requested_record
enqueue_idempotent c session input t t' s s' r h =
    let (u, a, h1) = >>=-eq-ok (require (not (is_blank session)) _) _ h in
    let (p, e, h2) = >>=-eq-ok (encode_input c input) _ h1 in
    let again =
      admit_input-Readmitted c
        (requested_record (trim_space session) p.0 p.1
          (number_or_zero (Option.map input_context_message_seq input)))
        t.now s s' r h2 t'.now in
    rw (a, e) again
