-- ===== src/SessionRuntime/Lifecycle/TurnSteps.antt =====
-- The operations on turns keep the rows of a store.
use dora_agent.Base.{
  Codec, Has, Option-cases, String, arith, inl, inr, insert, is_empty, lookup, lt64, none, not,
  or_fail, some, str_eq, trim_space, true, ℕ, ◌&&◌, ◌||◌, ◌≡◌,
}
use dora_agent.SessionRuntime.Lifecycle.Keeps.{
  Keeps, Keeps-new_turn, Keeps-put_input, Keeps-put_turn, Keeps-refl, Keeps-trans, Keyed,
}
use dora_agent.SessionRuntime.Lifecycle.Rules.{
  Keeps-index, KeepsOk, KeepsOk-bind, KeepsOk-if, KeepsOk-require, claimed_input-found, found_turn,
  put_both, turn_and_claimed_input-found,
}
use dora_agent.SessionRuntime.Models.Records.{Fence, InputRecord, TurnRun, TurnSpec}
use dora_agent.SessionRuntime.Models.Status.{is_held, turn_not_found}
use dora_agent.SessionRuntime.Store.Fencing.{validate_fence}
use dora_agent.SessionRuntime.Store.Outputs.{
  checkpoint_turn, output_turn, save_turn_checkpoint, save_turn_output, write_output,
}
use dora_agent.SessionRuntime.Store.State.{Clock, Store, json_equal, put_turn, text_or_empty}
use dora_agent.SessionRuntime.Store.Turns.{
  begin_turn, begun_record, begun_turn, can_begin, can_write, context_turn, create_turn,
  freeze_context, freeze_turn_context_from_inputs, freeze_turn_context_message_seq,
  get_or_create_turn, known_turn, or_default, prepared_turn, stable_turn_id, terminal_user_seq,
  turned_record,
}

module _ (c : Codec) (clock : Clock) (s : Store) (v : Keyed s) (fence : Fence) where
  new_turn-Keeps :
      (spec : TurnSpec) (input : InputRecord) (turn_id : String)
      → lookup turn_id s.turns ≡ none
      → Has s.inputs input.input_id input
      → is_held input.status ≡ true
      → Keeps s (record s {
        inputs = insert input.input_id (turned_record turn_id clock.now input) s.inputs;
        turns = insert turn_id (prepared_turn c fence spec turn_id clock.now input) s.turns;
        turn_by_input = insert input.input_id turn_id s.turn_by_input;
      })
  unfolding prepared_turn
  new_turn-Keeps spec input turn_id fresh here held =
      let turn = prepared_turn c fence spec turn_id clock.now input in
      let first = Keeps-new_turn s turn v fresh in
      let second =
        Keeps-put_input (put_turn turn s) input (turned_record turn_id clock.now input) first.keyed
          here (ground (arith, held)) in
      Keeps-index s _ (insert input.input_id turn_id s.turn_by_input) (Keeps-trans first second)

  pub create_turn-Keeps :
      (spec : TurnSpec) (input : InputRecord)
      → Has s.inputs input.input_id input
      → is_held input.status ≡ true
      → KeepsOk s (create_turn c fence spec input clock.now s)
  unfolding create_turn
  create_turn-Keeps spec input here held = elim (Option-cases (lookup turn_id s.turns)) [
    | inr (t, e) ↦ rw (e, create_turn) tt
    | inl e ↦ rw (e, create_turn) (new_turn-Keeps spec input turn_id e here held)
  ]
    where
      turn_id : String
      turn_id =
          or_default (trim_space spec.turn_id) (stable_turn_id c input.session_id input.input_id)

  known_turn-Keeps : (turn_id : String) → KeepsOk s (known_turn turn_id s)
  unfolding known_turn
  known_turn-Keeps turn_id =
      KeepsOk-bind s (or_fail (lookup turn_id s.turns) turn_not_found) _ λ t _. Keeps-refl s v

  pub get_or_create_turn-Keeps :
      (id : String) (spec : TurnSpec) → KeepsOk s (get_or_create_turn c fence id spec clock s)
  unfolding get_or_create_turn
  get_or_create_turn-Keeps id spec = KeepsOk-bind s (validate_fence fence clock.now s) _ λ lease _.
      KeepsOk-bind s _ _ λ input e.
        let (here, held) = claimed_input-found fence id clock.recheck s input v e in
        KeepsOk-if s _ (create_turn c fence spec input clock.now s)
          (known_turn (text_or_empty (lookup input.input_id s.turn_by_input)) s)
          (λ _. create_turn-Keeps spec input here held)
          (λ _. known_turn-Keeps (text_or_empty (lookup input.input_id s.turn_by_input)))

  pub begin_turn-Keeps : (id : String) → KeepsOk s (begin_turn fence id clock s)
  unfolding begin_turn
  begin_turn-Keeps id = KeepsOk-bind s (validate_fence fence clock.now s) _ λ lease _.
      KeepsOk-bind s _ _ λ p e.
        let (t, i, held) = turn_and_claimed_input-found fence id clock.recheck s p v e in
        KeepsOk-require s (can_begin p.0.status) _ _ λ allowed.
          put_both s p.0 (begun_turn fence p.1 clock.now p.0) p.1 (begun_record clock.now p.1) v t
            (ground (arith, allowed)) i (ground (arith, held))

  pub freeze_context-Keeps :
      (turn : TurnRun) (through_seq : ℕ)
      → lookup turn.turn_id s.turns ≡ some turn
      → KeepsOk s (freeze_context turn through_seq clock.now s)
  unfolding freeze_context
  freeze_context-Keeps turn through_seq t =
      KeepsOk-if s turn.context_seq_frozen _ _ (λ _. Keeps-refl s v)
        λ open_context.
          KeepsOk-if s (can_write turn.status) _ _
            (λ allowed.
              Keeps-put_turn s turn (context_turn through_seq clock.now turn) v t
                (ground (arith, allowed, open_context)))
            (λ _. tt)

  pub freeze_turn_context_message_seq-Keeps :
      (id : String) (through_seq : ℕ)
      → KeepsOk s (freeze_turn_context_message_seq fence id through_seq clock s)
  unfolding freeze_turn_context_message_seq
  freeze_turn_context_message_seq-Keeps id through_seq =
      KeepsOk-require s (not (lt64 through_seq 0)) _ _ λ _.
        KeepsOk-bind s (validate_fence fence clock.now s) _ λ lease _. KeepsOk-bind s _ _ λ p e.
          freeze_context-Keeps p.0 through_seq
            (turn_and_claimed_input-found fence id clock.recheck s p v e).0

  pub freeze_turn_context_from_inputs-Keeps :
      (id : String) → KeepsOk s (freeze_turn_context_from_inputs fence id clock s)
  unfolding freeze_turn_context_from_inputs
  freeze_turn_context_from_inputs-Keeps id =
      KeepsOk-bind s (validate_fence fence clock.now s) _ λ lease _. KeepsOk-bind s _ _ λ p e.
        freeze_context-Keeps p.0 (terminal_user_seq fence.session_id 0 s.inputs)
          (turn_and_claimed_input-found fence id clock.recheck s p v e).0

  pub save_turn_checkpoint-Keeps :
      (id checkpoint : String) → KeepsOk s (save_turn_checkpoint fence id checkpoint clock s)
  unfolding save_turn_checkpoint
  save_turn_checkpoint-Keeps id checkpoint =
      KeepsOk-require s (not (is_empty (trim_space checkpoint))) _ _ λ _.
        KeepsOk-bind s (validate_fence fence clock.now s) _ λ lease _. KeepsOk-bind s _ _ λ p e.
          KeepsOk-require s (can_write p.0.status) _ _ λ allowed.
            Keeps-put_turn s p.0 (checkpoint_turn (trim_space checkpoint) clock.now p.0) v
              (turn_and_claimed_input-found fence id clock.recheck s p v e).0
              (ground (arith, allowed))

  write_output-Keeps :
      (turn : TurnRun) (payload digest : String)
      → lookup turn.turn_id s.turns ≡ some turn
      → can_write turn.status ≡ true
      → KeepsOk s (write_output c turn payload digest clock.now s)
  unfolding write_output
  write_output-Keeps turn payload digest t allowed =
      KeepsOk-if s (not (is_empty turn.output_payload)) _ _
        (λ _.
          KeepsOk-if s
            (not (str_eq turn.output_digest digest)
              || not (json_equal c turn.output_payload payload))
            _ _ (λ _. tt) (λ _. Keeps-refl s v))
        λ first.
          Keeps-put_turn s turn (output_turn payload digest clock.now turn) v t
            (ground (arith, allowed, first))

  pub save_turn_output-Keeps :
      (id payload digest : String) → KeepsOk s (save_turn_output c fence id payload digest clock s)
  unfolding save_turn_output
  save_turn_output-Keeps id payload digest =
      KeepsOk-require s (not (is_empty payload) && c.valid payload) _ _ λ _.
        KeepsOk-bind s (validate_fence fence clock.now s) _ λ lease _. KeepsOk-bind s _ _ λ turn e.
          KeepsOk-require s (str_eq turn.session_id fence.session_id) _ _ λ _.
            KeepsOk-require s (can_write turn.status) _ _ λ allowed. KeepsOk-bind s _ _ λ input _.
              write_output-Keeps turn payload (trim_space digest) (found_turn s id turn v e) allowed
