-- ===== src/Events/Models.antt =====
-- internal/aigc/events/models.go: the rows of the event log, their validation and identities.
use dora_agent.Base.{
  Bool, Codec, List, Result, Scalar, String, decimal, if◌then◌else◌, is_empty, leb, lt64, nat_eq,
  not, ok, or_fail, parsed_eq, require, str_eq, suc, trim_space, zero_byte, ℕ, ◌&&◌, ◌&◌, ◌>>◌,
}

pub record SessionEvent : Type 0 where
  pub session_id : String
  pub seq : ℕ
  pub event_id : String
  pub event_type : String
  pub producer_kind : String
  pub source_key : String
  pub projection_index : ℕ
  pub surface_id : String
  pub data_model_key : String
  pub payload : String
  pub created_at : ℕ

pub data EventError : Type 0 where
  event_not_found : EventError
  event_conflict : String → EventError
  invalid_event : String → EventError

pub record AppendResult : Type 0 where
  pub event : SessionEvent
  pub appended : Bool

pub record TailOptions : Type 0 where
  pub after_seq : ℕ
  pub limit : ℕ

abbrev pub max_event_id_length : ℕ
max_event_id_length = 128

-- utf8.RuneCountInString.
abbrev pub rune_count : String → ℕ
rune_count String.[] = 0
rune_count (String.◌∷◌ c s) = suc (rune_count s)

-- What a producer passes to MarshalPayload: nil, raw JSON, or a value with these fields.
pub data PayloadValue : Type 0 where
  no_payload : PayloadValue
  raw_payload : String → PayloadValue
  object_payload : List (String × Scalar) → PayloadValue

abbrev pub object_or_text : String → String
object_or_text payload = if is_empty payload then "{}" else payload

-- The event with its texts trimmed, and the columns of the store reset.
unfoldable pub trimmed_event : SessionEvent → SessionEvent
trimmed_event e = record {
  session_id = trim_space e.session_id;
  seq = 0;
  event_id = trim_space e.event_id;
  event_type = trim_space e.event_type;
  producer_kind = trim_space e.producer_kind;
  source_key = trim_space e.source_key;
  projection_index = e.projection_index;
  surface_id = trim_space e.surface_id;
  data_model_key = trim_space e.data_model_key;
  payload = object_or_text e.payload;
  created_at = 0;
}

unfoldable pub check_columns : SessionEvent → Result EventError (Unit {0})
check_columns e = do
  require (not (is_empty e.session_id)) (invalid_event "session id is required")
  require (not (is_empty e.event_id)) (invalid_event "event id is required")
  require (leb (rune_count e.event_id) max_event_id_length)
      (invalid_event "event id cannot exceed 128 characters")
  require (not (is_empty e.event_type)) (invalid_event "event type is required")
  require (not (is_empty e.producer_kind)) (invalid_event "producer kind is required")
  require (not (is_empty e.source_key)) (invalid_event "source key is required")
  require (not (lt64 e.projection_index 0)) (invalid_event "projection index cannot be negative")

module _ (c : Codec) where
  unfoldable pub marshal_payload : PayloadValue → Result EventError String
  marshal_payload no_payload = ok "{}"
  marshal_payload (raw_payload value) = do
    require (c.valid value) (invalid_event "event payload must be valid JSON")
    ok value
  marshal_payload (object_payload fields) =
      or_fail (c.marshal fields) (invalid_event "marshal event payload")

  unfoldable pub check_event : SessionEvent → Result EventError (Unit {0})
  unfolding check_columns
  check_event e = do
    check_columns e
    require (c.valid e.payload) (invalid_event "event payload must be valid JSON")

  unfoldable pub normalize_event : SessionEvent → Result EventError SessionEvent
  normalize_event event = do check_event (trimmed_event event); ok (trimmed_event event)

  unfoldable pub equal_json : String → String → Bool
  equal_json left right = parsed_eq (c.parse left) (c.parse right)

  unfoldable pub same_identity : SessionEvent → SessionEvent → Bool
  unfolding equal_json
  same_identity existing wanted =
      str_eq existing.session_id wanted.session_id
      && str_eq existing.event_id wanted.event_id
      && str_eq existing.event_type wanted.event_type
      && str_eq existing.producer_kind wanted.producer_kind
      && str_eq existing.source_key wanted.source_key
      && nat_eq existing.projection_index wanted.projection_index
      && str_eq existing.surface_id wanted.surface_id
      && str_eq existing.data_model_key wanted.data_model_key
      && equal_json existing.payload wanted.payload

unfoldable pub source_identity : SessionEvent → String
source_identity e =
    e.session_id
    & zero_byte
    & e.producer_kind
    & zero_byte
    & e.source_key
    & zero_byte
    & decimal e.projection_index
