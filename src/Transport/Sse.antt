-- ===== src/Transport/Sse.antt =====
-- packages/transport/src/sse/parser.ts: `createMessageParser`, which assembles the lines of an event
-- stream into messages. The TextDecoder is a parameter.
pub mod FieldLines
pub mod Dispatch
pub mod Lines
pub mod Chunks
mod Tests
use go_like.Prelude.{
  ℕ, suc, ◌+◌, ◌*◌, ◌-◌, min, Bool, true, false, not, ◌&&◌, ltb, leb, ◌==◌, if◌then◌else◌, List, [],
  ◌∷◌, ◌++◌, Option, none, some, Result, ok, throw, type_error, Text, same_text, length, take, drop,
  without_last,
}
use go_like.Resilience.Limiter.{max_safe_integer}

pub record EventStreamMessage : Type 0 where
  pub id : Text
  pub event : Text
  pub content : Text

-- `validateMaxBufferSize`
unfoldable pub validate_max_buffer_size : Option ℕ → Result (Option ℕ)
validate_max_buffer_size none = ok none
validate_max_buffer_size (some size) =
    if leb 1 size && leb size max_safe_integer then ok (some size) else throw type_error

pub record Parser : Type 0 where
  pub last_event_id : Text
  pub event : Text
  pub content : Text
  pub data_bytes : ℕ
  pub has_data : Bool

abbrev pub new_parser : Parser
new_parser = record {
  last_event_id = [];
  event = [];
  content = [];
  data_bytes = 0;
  has_data = false;
}

-- What a line makes the parser do: nothing, call a callback, or throw SSEParserLimitError.
pub data Outcome : Type 0 where
  silent : Outcome
  message : EventStreamMessage → Outcome
  id : Text → Outcome
  retry : ℕ → Outcome
  limit_error : Outcome

abbrev pub colon : ℕ
colon = 58

abbrev pub space : ℕ
space = 32

-- The blank line.
unfoldable pub dispatch : Parser → Parser × Outcome
unfolding without_last
dispatch p = (
  record {
    last_event_id = p.last_event_id;
    event = [];
    content = [];
    data_bytes = 0;
    has_data = false;
  },
  if p.has_data
      then message
          (record { id = p.last_event_id; event = p.event; content = without_last p.content })
      else silent,
)

unfoldable pub starts_with_byte : ℕ → List ℕ → Bool
starts_with_byte byte [] = false
starts_with_byte byte (b ∷ bs) = b == byte

-- The bytes of the value, behind the colon and one space.
unfoldable pub value_bytes : List ℕ → ℕ → List ℕ
unfolding starts_with_byte
value_bytes line field_length =
    if starts_with_byte colon (drop field_length line)
    then if starts_with_byte space (drop (suc field_length) line)
      then drop (suc (suc field_length)) line
      else drop (suc field_length) line
    else []

-- `dataBytes > maxBufferSize`
abbrev pub exceeds : Option ℕ → ℕ → Bool
exceeds none bytes = false
exceeds (some size) bytes = ltb size bytes

unfoldable pub data_field : Option ℕ → Parser → ℕ → Text → Parser × Outcome
data_field max_buffer_size p byte_length value =
    let bytes = p.data_bytes + (byte_length + 1) in
    if exceeds max_buffer_size bytes then (record p { data_bytes = bytes }, limit_error) else (
      record p { data_bytes = bytes; has_data = true; content = p.content ++ value ++ 10 ∷ [] },
      silent,
    )

unfoldable pub has_null : Text → Bool
has_null [] = false
has_null (c ∷ cs) = let rest = has_null cs in if c == 0 then true else rest

-- `/^\d+$/`, and `Number(value)` where that holds
unfoldable pub all_digits : Text → Bool
all_digits [] = true
all_digits (c ∷ cs) = leb 48 c && leb c 57 && all_digits cs

unfoldable pub number_from : ℕ → Text → ℕ
number_from n [] = n
number_from n (c ∷ cs) = number_from (n * 10 + (c - 48)) cs

abbrev pub is_empty : Text → Bool
is_empty [] = true
is_empty _ = false

abbrev pub data_name : Text
data_name = 100 ∷ 97 ∷ 116 ∷ 97 ∷ []

abbrev pub event_name : Text
event_name = 101 ∷ 118 ∷ 101 ∷ 110 ∷ 116 ∷ []

abbrev pub id_name : Text
id_name = 105 ∷ 100 ∷ []

abbrev pub retry_name : Text
retry_name = 114 ∷ 101 ∷ 116 ∷ 114 ∷ 121 ∷ []

-- What a line does by its field; a field of another name is ignored.
unfoldable pub field_line : Option ℕ → Parser → Text → ℕ → Text → Parser × Outcome
unfolding data_field has_null all_digits number_from
field_line max_buffer_size p field byte_length value =
    if same_text field data_name
    then data_field max_buffer_size p byte_length value
    else if same_text field event_name
    then (record p { event = value }, silent)
    else if same_text field id_name
    then (if has_null value then (p, silent) else (record p { last_event_id = value }, id value))
    else if same_text field retry_name && (not (is_empty value) && all_digits value)
    then (p, retry (min (number_from 0 value) 2147483647))
    else (p, silent)

module _ (decode : List ℕ → Text) (max_buffer_size : Option ℕ) where
  -- `parseMessage`: a line and the index of its first colon, or its length without one.
  unfoldable pub parse_message : Parser → List ℕ → ℕ → Parser × Outcome
  unfolding dispatch field_line value_bytes
  parse_message p [] field_length = dispatch p
  parse_message p (b ∷ bs) field_length =
      let value = value_bytes (b ∷ bs) field_length in
      field_line max_buffer_size p (decode (take field_length (b ∷ bs))) (length value)
        (decode value)
