-- ===== src/SessionRuntime/Models/RoundTrip.antt =====
-- encodeInput and DecodeInput of internal/aigc/sessionruntime/models.go together.
use dora_agent.Base.{
  Bool, Codec, Scalar, String, String_discrete, Table, ap, arith, if◌then◌else◌, is_empty, lookup,
  nat_eq, none, number, ok, raw, refl, some, str_eq, text, true, ℕ, ◌&&◌, ◌||◌, ◌∙◌, ◌≡◌,
}
use dora_agent.SessionRuntime.Models.Decoding.{
  FieldType, Reader, ReaderLaws, decode_input, field_type_eq, fits, is_unset, number_field,
  number_of, raw_field, raw_of, raws_copied, struct_fields, struct_of, text_field, text_of,
}
use dora_agent.SessionRuntime.Models.Inputs.{
  InputIdentity, SessionInput, approval_continuation, batch_continuation, encode_input,
  input_fields, input_identity, opt_number, opt_raw, opt_text, resume_identity, resume_requested,
  user_message,
}
use dora_agent.SessionRuntime.Models.Status.{
  InputType, approval_continuation_type, batch_continuation_type, resume_requested_type,
  user_message_type,
}

lookup-opt_text :
    (k j s : String) (rest : Table Scalar)
    → lookup k (opt_text j s rest) ≡ (
        if str_eq j k then (if is_empty s then lookup k rest else some (text s)) else lookup k rest)
unfolding lookup
lookup-opt_text k j s rest = ground arith

lookup-opt_number :
    (k j : String) (n : ℕ) (rest : Table Scalar)
    → lookup k (opt_number j n rest) ≡ (
        if str_eq j k
        then (if nat_eq n 0 then lookup k rest else some (number n))
        else lookup k rest)
unfolding lookup
lookup-opt_number k j n rest = ground arith

lookup-opt_raw :
    (k j s : String) (rest : Table Scalar)
    → lookup k (opt_raw j s rest)
      ≡ (if str_eq j k then (if is_empty s then lookup k rest else some (raw s)) else lookup k rest)
unfolding lookup
lookup-opt_raw k j s rest = ground arith

text_kept : (s : String) → text_of (if is_empty s then none else some (text s)) ≡ s
text_kept String.[] = refl
text_kept (String.◌∷◌ c s) = refl

raw_kept : (s : String) → raw_of (if is_empty s then none else some (raw s)) ≡ s
raw_kept String.[] = refl
raw_kept (String.◌∷◌ c s) = refl

number_kept : (n : ℕ) → number_of (if nat_eq n 0 then none else some (number n)) ≡ n
number_kept n = ground arith

-- The type of an input, which its identity has.
abbrev kind_of : SessionInput → InputType
kind_of (user_message v) = user_message_type
kind_of (resume_requested v) = resume_requested_type
kind_of (approval_continuation v) = approval_continuation_type
kind_of (batch_continuation v) = batch_continuation_type

identity_kind : (input : SessionInput) → (input_identity input).input_type ≡ kind_of input
unfolding input_identity resume_identity
identity_kind (user_message v) = refl
identity_kind (resume_requested v) = ground arith
identity_kind (approval_continuation v) = refl
identity_kind (batch_continuation v) = refl

struct_of-fields : (input : SessionInput) → struct_of (kind_of input) (input_fields input) ≡ input
unfolding struct_of input_fields lookup String_discrete
struct_of-fields (user_message v) =
    simp (lookup-opt_text, lookup-opt_number, lookup-opt_raw, text_kept, raw_kept, number_kept)
struct_of-fields (resume_requested v) =
    simp (lookup-opt_text, lookup-opt_number, lookup-opt_raw, text_kept, raw_kept, number_kept)
struct_of-fields (approval_continuation v) =
    simp (lookup-opt_text, lookup-opt_number, lookup-opt_raw, text_kept, raw_kept, number_kept)
struct_of-fields (batch_continuation v) =
    simp (lookup-opt_text, lookup-opt_number, lookup-opt_raw, text_kept, raw_kept, number_kept)

or_true : (b : Bool) → (b || true) ≡ true
or_true b = ground arith

fits-opt_text :
    (types : Table FieldType) (k s : String) (rest : Table Scalar)
    → fits types (opt_text k s rest) ≡ (
        (is_empty s || field_type_eq (lookup k types) text_field && is_unset (lookup k rest))
        && fits types rest)
unfolding fits
fits-opt_text types k s rest = ground arith

fits-opt_number :
    (types : Table FieldType) (k : String) (n : ℕ) (rest : Table Scalar)
    → fits types (opt_number k n rest) ≡ (
        (nat_eq n 0 || field_type_eq (lookup k types) number_field && is_unset (lookup k rest))
        && fits types rest)
unfolding fits
fits-opt_number types k n rest = ground arith

fits-opt_raw :
    (types : Table FieldType) (k s : String) (rest : Table Scalar)
    → fits types (opt_raw k s rest) ≡ (
        (is_empty s || field_type_eq (lookup k types) raw_field && is_unset (lookup k rest))
        && fits types rest)
unfolding fits
fits-opt_raw types k s rest = ground arith

fields-fit :
    (input : SessionInput) → fits (struct_fields (kind_of input)) (input_fields input) ≡ true
unfolding fits struct_fields input_fields lookup String_discrete
fields-fit (user_message v) = simp (
  fits-opt_text, fits-opt_number, fits-opt_raw, lookup-opt_text, lookup-opt_number, lookup-opt_raw,
  or_true,
)
fields-fit (resume_requested v) = simp (
  fits-opt_text, fits-opt_number, fits-opt_raw, lookup-opt_text, lookup-opt_number, lookup-opt_raw,
  or_true,
)
fields-fit (approval_continuation v) = simp (
  fits-opt_text, fits-opt_number, fits-opt_raw, lookup-opt_text, lookup-opt_number, lookup-opt_raw,
  or_true,
)
fields-fit (batch_continuation v) = simp (
  fits-opt_text, fits-opt_number, fits-opt_raw, lookup-opt_text, lookup-opt_number, lookup-opt_raw,
  or_true,
)

encoded_fields :
    (c : Codec) (input : SessionInput) (p : InputIdentity × String)
    → encode_input c (some input) ≡ ok p
    → (c.marshal (input_fields input) ≡ some p.1)
      × (p.0.input_type ≡ (input_identity input).input_type)
unfolding encode_input
encoded_fields c input p h = ground arith

-- DecodeInput is the inverse of encodeInput: where an input is encoded, its payload is decoded under
-- its type to the same input, if encoding/json copies its raw JSON and reads back what it wrote.
pub decode_encoded :
    (c : Codec) (unmarshal : Reader) (copied : String → Bool) (input : SessionInput)
    (p : InputIdentity × String)
    → ReaderLaws c unmarshal copied
    → raws_copied copied (input_fields input) ≡ true
    → encode_input c (some input) ≡ ok p
    → decode_input unmarshal p.0.input_type p.1 ≡ ok input
unfolding decode_input
decode_encoded c unmarshal copied input p laws raws h =
    let (written, t) = encoded_fields c input p h in
    let read =
      laws.read_back (struct_fields (kind_of input)) (input_fields input) p.1 written
        (fields-fit input) raws in
    rw (t ∙ identity_kind input, read) (ap ok (struct_of-fields input))
