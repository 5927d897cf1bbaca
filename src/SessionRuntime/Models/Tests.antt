-- ===== src/SessionRuntime/Models/Tests.antt =====
-- A user message of internal/aigc/sessionruntime is encoded and decoded, by a reader and a writer of
-- JSON that know the message alone.
use dora_agent.Base.{
  Bool, Bool-cases, Codec, Scalar, String, String_discrete, Table, [], ap, arith, err, false,
  if◌then◌else◌, inl, inr, none, ok, refl, some, str_eq, str_eq_sound, subst, text, trim_space,
  true, ◌&&◌, ◌∷◌, ◌≡◌,
}
use dora_agent.SessionRuntime.Models.Decoding.{Reader, ReaderLaws, decode_input, raws_copied}
use dora_agent.SessionRuntime.Models.Inputs.{
  SessionInput, encode_input, input_fields, input_identity, user_message, validate_typed_input,
}
use dora_agent.SessionRuntime.Models.RoundTrip.{decode_encoded}
use dora_agent.SessionRuntime.Models.Status.{invalid, user_message_type}

abbrev tag : SessionInput
tag =
    user_message
      (record { input_id = "m"; event_id = "m"; message_id = "m"; context_message_seq = 0 })

-- The object of a message under one text for its three ids.
message_object : String → Table Scalar
message_object id = ("input_id", text id) ∷ ("event_id", text id) ∷ ("message_id", text id) ∷ []

is_message : Table Scalar → Bool
is_message ((a, text x) ∷ (b, text y) ∷ (c, text z) ∷ []) =
    (str_eq a "input_id" && str_eq b "event_id" && str_eq c "message_id")
    && (str_eq x z && str_eq y z)
is_message _ = false

last_text : Table Scalar → String
last_text ((a, text x) ∷ (b, text y) ∷ (c, text z) ∷ []) = z
last_text _ = ""

is_message-message_object :
    (fields : Table Scalar) → is_message fields ≡ true → message_object (last_text fields) ≡ fields
unfolding is_message last_text message_object
is_message-message_object ((a, text x) ∷ (b, text y) ∷ (c, text z) ∷ []) h =
    let a' : a ≡ "input_id" = str_eq_sound a "input_id" (ground arith) in
    let b' : b ≡ "event_id" = str_eq_sound b "event_id" (ground arith) in
    let c' : c ≡ "message_id" = str_eq_sound c "message_id" (ground arith) in
    let x' : x ≡ z = str_eq_sound x z (ground arith) in
    let y' : y ≡ z = str_eq_sound y z (ground arith) in cc
is_message-message_object _ h = cc h

message_codec : Codec
message_codec = record {
  valid = λ s. true;
  parse = λ s. some s;
  marshal = λ fields. if is_message fields then some (last_text fields) else none;
  sum_hex = λ n s. s;
}

message_reader : Reader
message_reader types s = some (message_object s)

message_laws : ReaderLaws message_codec message_reader (λ s. true)
unfolding message_codec message_reader
message_laws = record {
  read_back = λ types fields s h fit raws. elim (Bool-cases (is_message fields)) [
    | inl y ↦
        let e : some (last_text fields) ≡ some s = rw y at h in
        let e' : last_text fields ≡ s = cc e in
        ap some (subst (λ x. message_object x ≡ fields) e' (is_message-message_object fields y))
    | inr n ↦ let e : none ≡ some s = rw n at h in cc e
  ];
}

decode_encoded_example : decode_input message_reader (input_identity tag).input_type "m" ≡ ok tag
unfolding message_codec message_reader encode_input input_identity input_fields is_message last_text
    raws_copied validate_typed_input trim_space String_discrete
decode_encoded_example =
    decode_encoded message_codec message_reader (λ s. true) tag (input_identity tag, "m")
      message_laws refl refl

refused_payload :
    decode_input (λ types s. none) user_message_type "{" ≡ err (invalid "decode session input")
unfolding decode_input
refused_payload = refl
