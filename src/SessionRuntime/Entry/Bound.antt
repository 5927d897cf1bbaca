-- ===== src/SessionRuntime/Entry/Bound.antt =====
-- The row that EnqueueInput leaves of an input which WithContextMessageSeq has bound to a message.
use dora_agent.Base.{
  >>=-eq-ok, Codec, Option, Option-cases, Result, String, WhenOk, WhenOk-value, ap, arith,
  if-WhenOk, inl, inr, is_blank, lookup, none, not, ok, refl, require, some, str_eq_sound, sym,
  trim_space, true, ℕ, ◌∙◌, ◌≡◌, ◌≢◌,
}
use dora_agent.SessionRuntime.Models.Building.{
  bound_identity, bound_input, with_context_message_seq,
}
use dora_agent.SessionRuntime.Models.Inputs.{
  InputIdentity, SessionInput, approval_continuation, batch_continuation, encode_input,
  input_context_message_seq, input_identity, negative, resume_requested, user_message,
}
use dora_agent.SessionRuntime.Models.Records.{EnqueueResult, InputRecord}
use dora_agent.SessionRuntime.Models.Status.{Error, resume_requested_type}
use dora_agent.SessionRuntime.Store.Lane.{
  admit_input, append_input, enqueue_input, replay_input, replay_source, requested_record,
}
use dora_agent.SessionRuntime.Store.State.{Clock, Store, input_source_identity, same_input}

-- The row of an input: what was asked for, under the same ids.
record FitsRequest (wanted row : InputRecord) : Type 0 where
  input_id : row.input_id ≡ wanted.input_id
  session_id : row.session_id ≡ wanted.session_id
  source_id : row.source_id ≡ wanted.source_id
  event_id : row.event_id ≡ wanted.event_id
  seq : row.context_message_seq ≡ wanted.context_message_seq

same_input-FitsRequest :
    (c : Codec) (existing wanted : InputRecord)
    → same_input c existing wanted ≡ true
    → FitsRequest wanted existing
unfolding same_input
same_input-FitsRequest c existing wanted h = record {
  input_id = str_eq_sound _ _ (ground arith);
  session_id = str_eq_sound _ _ (ground arith);
  source_id = str_eq_sound _ _ (ground arith);
  event_id = str_eq_sound _ _ (ground arith);
  seq = ground arith;
}

Admits : InputRecord → Result Error (Store × EnqueueResult) → Type 0
Admits wanted = WhenOk λ p. FitsRequest wanted p.1.input

replay_input-Admits :
    (c : Codec) (existing wanted : InputRecord) (s : Store)
    → Admits wanted (replay_input c existing wanted s)
unfolding Admits replay_input
replay_input-Admits c existing wanted s =
    if-WhenOk _ (same_input c existing wanted) _ _ (λ e. same_input-FitsRequest c existing wanted e)
      (λ e. tt)

replay_source-Admits :
    (c : Codec) (existing : Option InputRecord) (wanted : InputRecord) (s : Store)
    → Admits wanted (replay_source c existing wanted s)
unfolding Admits replay_source
replay_source-Admits c none wanted s = tt
replay_source-Admits c (some existing) wanted s = replay_input-Admits c existing wanted s

admit_input-Admits :
    (c : Codec) (wanted : InputRecord) (now : ℕ) (s : Store)
    → Admits wanted (admit_input c wanted now s)
unfolding Admits admit_input append_input
admit_input-Admits c wanted now s = elim (Option-cases (lookup wanted.input_id s.inputs)) [
  | inr (existing, e) ↦ rw (e, admit_input) (replay_input-Admits c existing wanted s)
  | inl e ↦
      let key = input_source_identity wanted.session_id wanted.input_type wanted.source_id in
      elim (Option-cases (lookup key s.input_sources)) [
        | inr (id, f) ↦
            rw (e, f, admit_input) (replay_source-Admits c (lookup id s.inputs) wanted s)
        | inl f ↦
            rw (e, f, admit_input)
              record {
                input_id = refl;
                session_id = refl;
                source_id = refl;
                event_id = refl;
                seq = refl;
              }
      ]
]

bound_seq :
    (input : SessionInput) (seq : ℕ)
    → (input_identity input).input_type ≢ resume_requested_type
    → input_context_message_seq (bound_input input seq) ≡ seq
unfolding input_identity bound_input input_context_message_seq
bound_seq (user_message v) seq h = refl
bound_seq (resume_requested v) seq h = ground arith
bound_seq (approval_continuation v) seq h = refl
bound_seq (batch_continuation v) seq h = refl

-- An input that is encoded has the trimmed ids of its identity.
encoded_identity :
    (c : Codec) (input : SessionInput) (p : InputIdentity × String)
    → encode_input c (some input) ≡ ok p
    → (p.0.input_id ≡ trim_space (input_identity input).input_id)
      × (p.0.source_id ≡ trim_space (input_identity input).source_id)
      × (p.0.event_id ≡ trim_space (input_identity input).event_id)
unfolding encode_input
encoded_identity c input p h = ground arith

-- Where EnqueueInput succeeds with an input that WithContextMessageSeq has bound to a message of the
-- history, and that is not a resumption, the row it returns, new or old, has this message's number
-- and the trimmed session id and the trimmed ids of the unbound input.
pub bound_row :
    (c : Codec) (session : String) (input bound : SessionInput) (seq : ℕ) (t : Clock) (s s' : Store)
    (r : EnqueueResult)
    → (input_identity input).input_type ≢ resume_requested_type
    → with_context_message_seq input seq ≡ ok bound
    → enqueue_input c session (some bound) t s ≡ ok (s', r)
    → (r.input.context_message_seq ≡ seq)
      × (r.input.session_id ≡ trim_space session)
      × (r.input.input_id ≡ trim_space (input_identity input).input_id)
      × (r.input.source_id ≡ trim_space (input_identity input).source_id)
      × (r.input.event_id ≡ trim_space (input_identity input).event_id)
unfolding enqueue_input requested_record Admits with_context_message_seq
bound_row c session input bound seq t s s' r other w h =
    let (u, a, w1) = >>=-eq-ok (require (not (negative seq)) _) _ w in
    let (u', a', h1) = >>=-eq-ok (require (not (is_blank session)) _) _ h in
    let (p, e, h2) = >>=-eq-ok (encode_input c (some bound)) _ h1 in
    let same : bound_input input seq ≡ bound = cc w1 in
    let row = WhenOk-value _ _ (s', r) (admit_input-Admits c _ t.now s) h2 in
    let (i, src, ev) = encoded_identity c bound p e in
    let ids : input_identity bound ≡ input_identity input =
      ap input_identity (sym same) ∙ bound_identity input seq in
    (
      row.seq ∙ ap input_context_message_seq (sym same) ∙ bound_seq input seq other,
      row.session_id,
      row.input_id ∙ i ∙ ap (λ x. trim_space x.input_id) ids,
      row.source_id ∙ src ∙ ap (λ x. trim_space x.source_id) ids,
      row.event_id ∙ ev ∙ ap (λ x. trim_space x.event_id) ids,
    )
