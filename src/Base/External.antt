-- ===== src/Base/External.antt =====
-- What the program uses of encoding/json and crypto/sha256, as an interface. A client takes it as
-- a parameter.
use Prim.Native.Nat.{ℕ}
use Prim.Native.String.{String}
use mathlib.Core.Bool.{Bool, false, true}
use mathlib.Core.List.{List}
use mathlib.Core.Option.{Option, none, some}
use mathlib.Core.Path.{◌≡◌}
use native.Mathlib.Omega.{arith}
use dora_agent.Base.Tests.{str_eq}

-- A field of a JSON object: a text, an integer, a Boolean, or raw JSON (json.RawMessage).
pub data Scalar : Type 0 where
  text : String → Scalar
  number : ℕ → Scalar
  flag : Bool → Scalar
  raw : String → Scalar

pub record Codec : Type 0 where
  -- json.Valid, which reads the syntax alone.
  pub valid : String → Bool
  -- json.Unmarshal into `any`: the decoded value, named by one text for each value, or an error,
  -- which valid JSON can give too: a number that is out of range.
  pub parse : String → Option String
  -- json.Marshal of an object with these fields, or an error.
  pub marshal : List (String × Scalar) → Option String
  -- hex.EncodeToString of the first n bytes of the SHA-256 sum.
  pub sum_hex : ℕ → String → String

-- Whether json.Unmarshal into `any` returns a value.
abbrev pub decodes : Codec → String → Bool
decodes c s = elim (c.parse s) [ none ↦ false | some v ↦ true ]

-- reflect.DeepEqual of two decoded values, which differ where one is missing.
abbrev pub parsed_eq : Option String → Option String → Bool
parsed_eq (some a) (some b) = str_eq a b
parsed_eq _ _ = false

pub parsed_eq_self : (c : Codec) (s : String) → parsed_eq (c.parse s) (c.parse s) ≡ decodes c s
parsed_eq_self c s = ground arith

-- Texts that decode to equal values decode.
pub parsed_eq-decodes :
    (c : Codec) (s t : String) → parsed_eq (c.parse s) (c.parse t) ≡ true → decodes c s ≡ true
parsed_eq-decodes c s t h = ground arith
