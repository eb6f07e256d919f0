-- ===== src/Transport/Sse/Lines.antt =====
-- packages/transport/src/sse/parser.ts: `createLineParser`, which splits chunks into lines. The buffer
-- stands as the bytes from the start of the line to the position, and the chunk as those behind it.
use go_like.Prelude.{
  ℕ, Bool, true, false, ◌&&◌, ◌==◌, if◌then◌else◌, List, [], ◌∷◌, ◌++◌, Option, none, some, length,
}
use go_like.Transport.Sse.{colon, exceeds}

pub record Line : Type 0 where
  pub bytes : List ℕ
  pub field_length : Option ℕ

-- What a chunk leaves; a field length of -1 is `none`.
pub record LineParser : Type 0 where
  pub buffer : List ℕ
  pub field_length : Option ℕ
  pub discard_trailing_newline : Bool

abbrev pub new_line_parser : LineParser
new_line_parser = record { buffer = []; field_length = none; discard_trailing_newline = false }

abbrev newline : ℕ
newline = 10

abbrev carriage_return : ℕ
carriage_return = 13

abbrev first_colon : Option ℕ → ℕ → Option ℕ
first_colon none at = some at
first_colon (some before) at = some before

-- The whole line is the field when it has a byte and no colon.
abbrev current_field_length : List ℕ → Option ℕ → Option ℕ
current_field_length [] found = found
current_field_length (b ∷ bs) (some at) = some at
current_field_length (b ∷ bs) none = some (length (b ∷ bs))

-- The state behind a byte, with the line that the byte ended; `none` is SSEParserLimitError.
abbrev pub Scanned : Type 0
Scanned = Option (LineParser × List Line)

unfoldable pub end_line : Option ℕ → LineParser → Bool → Scanned
end_line max_buffer_size s discard =
    if exceeds max_buffer_size (length s.buffer)
    then none
    else some (
      record { buffer = []; field_length = none; discard_trailing_newline = discard },
      record { bytes = s.buffer; field_length = current_field_length s.buffer s.field_length } ∷ [],
    )

-- A round of the inner loop.
unfoldable pub scan_byte : Option ℕ → LineParser → ℕ → Scanned
unfolding end_line
scan_byte max_buffer_size s current =
    if current == colon
    then some (
      record s {
        buffer = s.buffer ++ current ∷ [];
        field_length = first_colon s.field_length (length s.buffer);
      },
      [],
    )
    else if current == carriage_return
    then end_line max_buffer_size s true
    else if current == newline
    then end_line max_buffer_size s false
    else some (record s { buffer = s.buffer ++ current ∷ [] }, [])

-- The head of the outer loop takes a newline off behind a carriage return.
unfoldable pub next_byte : Option ℕ → LineParser → ℕ → Scanned
unfolding scan_byte
next_byte max_buffer_size s current =
    let ready = record s { discard_trailing_newline = false } in
    if s.discard_trailing_newline && (current == newline)
    then some (record ready { buffer = [] }, [])
    else scan_byte max_buffer_size ready current

-- The lines handed to `onLine`, and the state behind them unless the limit was passed.
abbrev pub Delivery : Type 0
Delivery = List Line × Option LineParser

unfoldable pub parse_bytes : Option ℕ → LineParser → List ℕ → Delivery
unfolding next_byte
parse_bytes max_buffer_size s [] = ([], some s)
parse_bytes max_buffer_size s (current ∷ rest) = elim (next_byte max_buffer_size s current) [
  | none ↦ ([], none)
  | some (s', ended) ↦
      let later = parse_bytes max_buffer_size s' rest in (ended ++ later.0, later.1)
]

abbrev pub within_limit : Option ℕ → Option LineParser → Option LineParser
within_limit max_buffer_size none = none
within_limit max_buffer_size (some s) =
    if exceeds max_buffer_size (length s.buffer) then none else some s

-- `parseLine`
unfoldable pub parse_line : Option ℕ → LineParser → List ℕ → Delivery
unfolding parse_bytes
parse_line max_buffer_size s chunk =
    let all = parse_bytes max_buffer_size s chunk in (all.0, within_limit max_buffer_size all.1)

-- The chunks of a stream, up to the first failure.
unfoldable pub parse_chunks : Option ℕ → LineParser → List (List ℕ) → Delivery
unfolding parse_line
parse_chunks max_buffer_size s [] = ([], some s)
parse_chunks max_buffer_size s (chunk ∷ chunks) =
    let first = parse_line max_buffer_size s chunk in
    elim first.1 [
      | none ↦ (first.0, none)
      | some s' ↦
          let later = parse_chunks max_buffer_size s' chunks in (first.0 ++ later.0, later.1)
    ]
