-- ===== src/Transport/Sse/Tests.antt =====
-- packages/transport/src/sse/parser.ts at concrete inputs, with a decoder that keeps every byte.
use go_like.Prelude.{ℕ, ◌≡◌, refl, List, [], ◌∷◌, none, some, Text, same_text}
use go_like.Transport.Sse.{
  new_parser, Outcome, silent, message, id, retry, limit_error, parse_message, field_line,
  value_bytes, starts_with_byte, data_field, all_digits, number_from, has_null,
}
use go_like.Transport.Sse.Lines.{
  Line, new_line_parser, parse_chunks, parse_line, parse_bytes, next_byte, scan_byte, end_line,
}
use go_like.Transport.Sse.FieldLines.{
  FieldLine, data_line, event_line, id_line, retry_line, comment_line, bytes_of, unspaced, joined,
  expected, data_values, last_event, last_id, assembled,
}
use go_like.Transport.Sse.Dispatch.{fed, fed-message}

abbrev keep : List ℕ → Text
keep bytes = bytes

-- `retry: 15`
retry_after :
    (parse_message keep none new_parser (114 ∷ 101 ∷ 116 ∷ 114 ∷ 121 ∷ 58 ∷ 32 ∷ 49 ∷ 53 ∷ []) 5).1
    ≡ retry 15
unfolding parse_message value_bytes starts_with_byte field_line data_field same_text all_digits
    number_from
retry_after = refl

too_much :
    (parse_message keep (some 2) new_parser (bytes_of (data_line (32 ∷ 65 ∷ 66 ∷ []))) 4).1
    ≡ limit_error
unfolding parse_message value_bytes starts_with_byte field_line data_field same_text
too_much = refl

-- `data: A`, `id:9`, `data:B`, `: C`, `event:E`, `retry:1x`
abbrev some_lines : List FieldLine
some_lines =
    data_line (32 ∷ 65 ∷ [])
    ∷ id_line (57 ∷ [])
    ∷ data_line (66 ∷ [])
    ∷ comment_line (32 ∷ 67 ∷ [])
    ∷ event_line (69 ∷ [])
    ∷ retry_line (49 ∷ 120 ∷ [])
    ∷ []

abbrev some_outcomes : List Outcome
some_outcomes = silent ∷ id (57 ∷ []) ∷ silent ∷ silent ∷ silent ∷ silent ∷ []

fed-message_example :
    let run = fed keep (λ bytes plain. refl) new_parser some_lines in
    (run.1 ≡ some_outcomes)
    × (parse_message keep none run.0 [] 0 ≡ (
      record new_parser { last_event_id = 57 ∷ [] },
      message (record { id = 57 ∷ []; event = 69 ∷ []; content = 65 ∷ 10 ∷ 66 ∷ [] }),
    ))
unfolding expected data_values last_event last_id assembled joined unspaced has_null all_digits
    number_from
fed-message_example = fed-message keep (λ bytes plain. refl) [] some_lines

-- `a:b` and `c`, cut between a carriage return and its newline.
abbrev cut_chunks : List (List ℕ)
cut_chunks = (10 ∷ 99 ∷ 10 ∷ []) ∷ []

abbrev both_lines : List Line
both_lines =
    record { bytes = 97 ∷ 58 ∷ 98 ∷ []; field_length = some 1 }
    ∷ record { bytes = 99 ∷ []; field_length = some 1 }
    ∷ []

cut_lines :
    parse_chunks (some 3) new_line_parser ((97 ∷ 58 ∷ 98 ∷ 13 ∷ []) ∷ cut_chunks)
    ≡ (both_lines, some new_line_parser)
unfolding parse_chunks parse_line parse_bytes next_byte scan_byte end_line
cut_lines = refl

long_line :
    parse_line (some 2) new_line_parser (97 ∷ 10 ∷ 97 ∷ 98 ∷ 99 ∷ [])
    ≡ (record { bytes = 97 ∷ []; field_length = some 1 } ∷ [], none)
unfolding parse_line parse_bytes next_byte scan_byte end_line
long_line = refl
