-- ===== src/Transport/Sse/FieldLines.antt =====
-- packages/transport/src/sse/parser.ts: the lines of an event stream that have a colon, and what
-- they and the blank line behind them should give.
use go_like.Prelude.{ℕ, not, ◌&&◌, ◌==◌, if◌then◌else◌, min, List, [], ◌∷◌, ◌++◌, Text}
use go_like.Transport.Sse.{
  Outcome, silent, message, id, retry, colon, space, data_name, event_name, id_name, retry_name,
  has_null, all_digits, number_from, is_empty,
}

-- The lines of a stream that have a colon behind a field's name, or begin with one, by the bytes
-- behind the colon.
pub data FieldLine : Type 0 where
  data_line event_line id_line retry_line comment_line : List ℕ → FieldLine

abbrev pub name_of : FieldLine → List ℕ
name_of (data_line raw) = data_name
name_of (event_line raw) = event_name
name_of (id_line raw) = id_name
name_of (retry_line raw) = retry_name
name_of (comment_line raw) = []

abbrev pub raw_of : FieldLine → List ℕ
raw_of (data_line raw) = raw
raw_of (event_line raw) = raw
raw_of (id_line raw) = raw
raw_of (retry_line raw) = raw
raw_of (comment_line raw) = raw

-- The bytes of a line.
abbrev pub bytes_of : FieldLine → List ℕ
bytes_of line = name_of line ++ colon ∷ raw_of line

-- One space behind the colon belongs to no value.
unfoldable pub unspaced : List ℕ → List ℕ
unspaced [] = []
unspaced (b ∷ bs) = if b == space then bs else b ∷ bs

-- Texts joined by newlines.
unfoldable pub joined : Text → List Text → Text
joined first [] = first
joined first (next ∷ rest) = first ++ 10 ∷ joined next rest

-- What a retry line should do.
abbrev pub retry_outcome : Text → Outcome
retry_outcome value =
    if not (is_empty value) && all_digits value
    then retry (min (number_from 0 value) 2147483647)
    else silent

-- What the blank line gives: the data values joined by newlines, if there are any.
unfoldable pub assembled : Text → Text → List Text → Outcome
unfolding joined
assembled known event [] = silent
assembled known event (first ∷ rest) =
    message (record { id = known; event = event; content = joined first rest })

module _ (decode : List ℕ → Text) where
  -- What each line should make the parser do.
  unfoldable pub expected : FieldLine → Outcome
  unfolding has_null all_digits number_from
  expected (data_line raw) = silent
  expected (event_line raw) = silent
  expected (id_line raw) =
      if has_null (decode (unspaced raw)) then silent else id (decode (unspaced raw))
  expected (retry_line raw) = retry_outcome (decode (unspaced raw))
  expected (comment_line raw) = silent

  -- What the lines have set: the values of data, the last event, the last id without a null.
  unfoldable pub data_values : List FieldLine → List Text
  data_values [] = []
  data_values (data_line raw ∷ lines) = decode (unspaced raw) ∷ data_values lines
  data_values (event_line raw ∷ lines) = data_values lines
  data_values (id_line raw ∷ lines) = data_values lines
  data_values (retry_line raw ∷ lines) = data_values lines
  data_values (comment_line raw ∷ lines) = data_values lines

  unfoldable pub last_event : Text → List FieldLine → Text
  last_event event [] = event
  last_event event (event_line raw ∷ lines) = last_event (decode (unspaced raw)) lines
  last_event event (data_line raw ∷ lines) = last_event event lines
  last_event event (id_line raw ∷ lines) = last_event event lines
  last_event event (retry_line raw ∷ lines) = last_event event lines
  last_event event (comment_line raw ∷ lines) = last_event event lines

  unfoldable pub last_id : Text → List FieldLine → Text
  unfolding has_null
  last_id known [] = known
  last_id known (id_line raw ∷ lines) =
      last_id (if has_null (decode (unspaced raw)) then known else decode (unspaced raw)) lines
  last_id known (data_line raw ∷ lines) = last_id known lines
  last_id known (event_line raw ∷ lines) = last_id known lines
  last_id known (retry_line raw ∷ lines) = last_id known lines
  last_id known (comment_line raw ∷ lines) = last_id known lines
