-- ===== src/SessionRuntime/Lifecycle/Evolution.antt =====
-- How one record of an input or of a turn may develop in a step, other than by a claim.
use dora_agent.Base.{
  Bool-cases, arith, false, inl, inr, is_empty, not, pos64, subst, sym, true, ◌&&◌, ◌∙◌, ◌≡◌,
}
use dora_agent.SessionRuntime.Models.Records.{InputRecord, TurnRun}
use dora_agent.SessionRuntime.Models.Status.{
  is_held, is_terminal_input_status, is_terminal_turn_status,
}
use dora_agent.SessionRuntime.Store.Claims.{is_started}

-- The identity and the attempts stay, an ended input stays as it is, and none becomes claimed or
-- running.
pub record InputEvolves (r r' : InputRecord) : Type 0 where
  pub same_id : r'.input_id ≡ r.input_id
  pub same_session : r'.session_id ≡ r.session_id
  pub same_seq : r'.enqueue_seq ≡ r.enqueue_seq
  pub same_attempts : r'.attempts ≡ r.attempts
  pub ended : is_terminal_input_status r.status ≡ true → r' ≡ r
  pub held : is_held r'.status ≡ true → is_held r.status ≡ true

pub InputEvolves-refl : (r : InputRecord) → InputEvolves r r
InputEvolves-refl r = ground arith

pub InputEvolves-trans :
    {q r t : InputRecord} → InputEvolves q r → InputEvolves r t → InputEvolves q t
InputEvolves-trans {q} {r} {t} a b = record {
  same_id = b.same_id ∙ a.same_id;
  same_session = b.same_session ∙ a.same_session;
  same_seq = b.same_seq ∙ a.same_seq;
  same_attempts = b.same_attempts ∙ a.same_attempts;
  ended = λ h.
      b.ended (subst (λ x. is_terminal_input_status x.status ≡ true) (sym (a.ended h)) h)
      ∙ a.ended h;
  held = λ h. a.held (b.held h);
}

-- An input that is started after such a step was started before.
pub InputEvolves-is_started :
    {r r' : InputRecord} → InputEvolves r r' → is_started r' ≡ true → is_started r ≡ true
unfolding is_started
InputEvolves-is_started {r} {r'} e h = elim (Bool-cases (is_terminal_input_status r.status)) [
  | inl t ↦
      subst (λ x. (pos64 x.attempts && not (is_terminal_input_status x.status)) ≡ true) (e.ended t)
        h
  | inr t ↦ ground (arith, e.same_attempts)
]

-- A turn keeps its identity; an ended one stays as it is; an output receipt and a frozen context,
-- once written, stay.
pub record TurnEvolves (t t' : TurnRun) : Type 0 where
  pub same_id : t'.turn_id ≡ t.turn_id
  pub same_input : t'.input_id ≡ t.input_id
  pub same_session : t'.session_id ≡ t.session_id
  pub ended : is_terminal_turn_status t.status ≡ true → t' ≡ t
  pub receipt :
      is_empty t.output_payload ≡ false
      → (t'.output_payload ≡ t.output_payload) × (t'.output_digest ≡ t.output_digest)
  pub context :
      t.context_seq_frozen ≡ true
      → (t'.context_seq_frozen ≡ true) × (t'.context_message_seq ≡ t.context_message_seq)

pub TurnEvolves-refl : (t : TurnRun) → TurnEvolves t t
TurnEvolves-refl t = ground arith

pub TurnEvolves-trans : {q r t : TurnRun} → TurnEvolves q r → TurnEvolves r t → TurnEvolves q t
TurnEvolves-trans {q} {r} {t} a b = record {
  same_id = b.same_id ∙ a.same_id;
  same_input = b.same_input ∙ a.same_input;
  same_session = b.same_session ∙ a.same_session;
  ended = λ h.
      b.ended (subst (λ x. is_terminal_turn_status x.status ≡ true) (sym (a.ended h)) h)
      ∙ a.ended h;
  receipt = λ h.
      let (p, d) = a.receipt h in
      let (p', d') = b.receipt (subst (λ x. is_empty x ≡ false) (sym p) h) in (p' ∙ p, d' ∙ d);
  context = λ h. let (f, n) = a.context h in let (f', n') = b.context f in (f', n' ∙ n);
}
