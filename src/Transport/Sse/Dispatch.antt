-- ===== src/Transport/Sse/Dispatch.antt =====
-- packages/transport/src/sse/parser.ts: what a run of field lines makes the message parser do.
use go_like.Prelude.{
  ℕ, ◌<◌, ◌+◌, ◌≡◌, refl, sym, ap, ◌∙◌, Bool, true, false, not, ◌&&◌, ◌||◌, if◌then◌else◌, min,
  same_text, List, [], ◌∷◌, ◌++◌, none, Text, length, All, arith, map, inl, inr, without_last,
  without_last-append, Bool-cases,
}
use mathlib.Core.List.{append_assoc, append-nil}
use go_like.Transport.Sse.{
  Parser, Outcome, silent, id, retry, new_parser, data_name, event_name, id_name, retry_name,
  dispatch, value_bytes, starts_with_byte, data_field, field_line, parse_message, has_null,
  all_digits, number_from, is_empty,
}
use go_like.Transport.Sse.FieldLines.{
  FieldLine, data_line, event_line, id_line, retry_line, comment_line, name_of, bytes_of, unspaced,
  joined, retry_outcome, expected, data_values, last_event, last_id, assembled,
}

-- Texts that each end with a newline.
terminated : List Text → Text
terminated [] = []
terminated (text ∷ texts) = text ++ 10 ∷ terminated texts

terminated-joined :
    (first : Text) (rest : List Text) → terminated (first ∷ rest) ≡ joined first rest ++ 10 ∷ []
unfolding terminated joined
terminated-joined first [] = refl
terminated-joined first (next ∷ rest) =
    ap (λ t. first ++ 10 ∷ t) (terminated-joined next rest)
    ∙ sym (append_assoc first (10 ∷ joined next rest) (10 ∷ []))

without_last-terminated :
    (first : Text) (rest : List Text) → without_last (terminated (first ∷ rest)) ≡ joined first rest
without_last-terminated first rest =
    ap without_last (terminated-joined first rest) ∙ without_last-append (joined first rest) 10

or_false : (b : Bool) → (b || false) ≡ b
or_false true = refl
or_false false = refl

or_true : (b : Bool) → (b || true) ≡ true
or_true true = refl
or_true false = refl

abbrev is_empty_list : List Text → Bool
is_empty_list [] = true
is_empty_list _ = false

module _ (decode : List ℕ → Text)
    (ascii : (bytes : List ℕ) → All (λ b. b < 128) bytes → decode bytes ≡ bytes) where
  -- The state behind a line.
  advanced : Parser → FieldLine → Parser
  unfolding has_null
  advanced p (data_line raw) = record p {
    data_bytes = p.data_bytes + (length (unspaced raw) + 1);
    has_data = true;
    content = p.content ++ decode (unspaced raw) ++ 10 ∷ [];
  }
  advanced p (event_line raw) = record p { event = decode (unspaced raw) }
  advanced p (id_line raw) = record p {
    last_event_id =
        if has_null (decode (unspaced raw)) then p.last_event_id else decode (unspaced raw);
  }
  advanced p (retry_line raw) = p
  advanced p (comment_line raw) = p

  parsed : Parser → FieldLine → Parser × Outcome
  unfolding parse_message
  parsed p line = parse_message decode none p (bytes_of line) (length (name_of line))

  kept_or_set :
      (p : Parser) (value : Text)
      → ◌≡◌ {A = Parser × Outcome}
          (if has_null value then (p, silent) else (record p { last_event_id = value }, id value))
          (
            record p { last_event_id = if has_null value then p.last_event_id else value },
            if has_null value then silent else id value,
          )
  kept_or_set p value = elim (Bool-cases (has_null value)) [
    | inl null ↦ rw null refl
    | inr whole ↦ rw whole refl
  ]

  asked_or_ignored :
      (p : Parser) (value : Text)
      → ◌≡◌ {A = Parser × Outcome}
          (if not (is_empty value) && all_digits value
            then (p, retry (min (number_from 0 value) 2147483647))
            else (p, silent))
          (p, retry_outcome value)
  asked_or_ignored p value = elim (Bool-cases (not (is_empty value) && all_digits value)) [
    | inl asks ↦ rw asks refl
    | inr ignored ↦ rw ignored refl
  ]

  parsed-advanced :
      (p : Parser) (line : FieldLine) → parsed p line ≡ (advanced p line, expected decode line)
  unfolding parsed advanced expected parse_message value_bytes starts_with_byte field_line
      data_field same_text unspaced
  parsed-advanced p (data_line []) =
      rw (ascii data_name (omega arith, (omega arith, (omega arith, (omega arith, tt))))) refl
  parsed-advanced p (data_line (b ∷ bs)) =
      rw (ascii data_name (omega arith, (omega arith, (omega arith, (omega arith, tt))))) refl
  parsed-advanced p (event_line []) =
      rw
        (ascii event_name
          (omega arith, (omega arith, (omega arith, (omega arith, (omega arith, tt))))))
        refl
  parsed-advanced p (event_line (b ∷ bs)) =
      rw
        (ascii event_name
          (omega arith, (omega arith, (omega arith, (omega arith, (omega arith, tt))))))
        refl
  parsed-advanced p (id_line []) =
      rw (ascii id_name (omega arith, (omega arith, tt))) (kept_or_set p (decode []))
  parsed-advanced p (id_line (b ∷ bs)) =
      rw (ascii id_name (omega arith, (omega arith, tt)))
        (kept_or_set p (decode (unspaced (b ∷ bs))))
  parsed-advanced p (retry_line []) =
      rw
        (ascii retry_name
          (omega arith, (omega arith, (omega arith, (omega arith, (omega arith, tt))))))
        (asked_or_ignored p (decode []))
  parsed-advanced p (retry_line (b ∷ bs)) =
      rw
        (ascii retry_name
          (omega arith, (omega arith, (omega arith, (omega arith, (omega arith, tt))))))
        (asked_or_ignored p (decode (unspaced (b ∷ bs))))
  parsed-advanced p (comment_line []) = rw (ascii [] tt) refl
  parsed-advanced p (comment_line (b ∷ bs)) = rw (ascii [] tt) refl

  -- The state and the outcomes of a run of lines.
  pub fed : Parser → List FieldLine → Parser × List Outcome
  unfolding parsed
  fed p [] = (p, [])
  fed p (line ∷ lines) =
      let one = parsed p line in let rest = fed one.0 lines in (rest.0, one.1 ∷ rest.1)

  after : Parser → List FieldLine → Parser
  unfolding advanced
  after p [] = p
  after p (line ∷ lines) = after (advanced p line) lines

  fed-after :
      (p : Parser) (lines : List FieldLine)
      → fed p lines ≡ (after p lines, map (expected decode) lines)
  unfolding fed after
  fed-after p [] = refl
  fed-after p (line ∷ lines) =
      rw (parsed-advanced p line)
        (ap (λ r. (r.0, expected decode line ∷ r.1)) (fed-after (advanced p line) lines))

  after_content :
      (p : Parser) (lines : List FieldLine)
      → (after p lines).content ≡ p.content ++ terminated (data_values decode lines)
  unfolding after advanced data_values terminated
  after_content p [] = sym (append-nil p.content)
  after_content p (data_line raw ∷ lines) =
      after_content (advanced p (data_line raw)) lines
      ∙ append_assoc (p.content ++ decode (unspaced raw)) (10 ∷ [])
          (terminated (data_values decode lines))
      ∙ append_assoc p.content (decode (unspaced raw)) (10 ∷ terminated (data_values decode lines))
  after_content p (event_line raw ∷ lines) = after_content (advanced p (event_line raw)) lines
  after_content p (id_line raw ∷ lines) = after_content (advanced p (id_line raw)) lines
  after_content p (retry_line raw ∷ lines) = after_content p lines
  after_content p (comment_line raw ∷ lines) = after_content p lines

  after_event :
      (p : Parser) (lines : List FieldLine)
      → (after p lines).event ≡ last_event decode p.event lines
  unfolding after advanced last_event
  after_event p [] = refl
  after_event p (data_line raw ∷ lines) = after_event (advanced p (data_line raw)) lines
  after_event p (event_line raw ∷ lines) = after_event (advanced p (event_line raw)) lines
  after_event p (id_line raw ∷ lines) = after_event (advanced p (id_line raw)) lines
  after_event p (retry_line raw ∷ lines) = after_event p lines
  after_event p (comment_line raw ∷ lines) = after_event p lines

  after_id :
      (p : Parser) (lines : List FieldLine)
      → (after p lines).last_event_id ≡ last_id decode p.last_event_id lines
  unfolding after advanced last_id
  after_id p [] = refl
  after_id p (data_line raw ∷ lines) = after_id (advanced p (data_line raw)) lines
  after_id p (event_line raw ∷ lines) = after_id (advanced p (event_line raw)) lines
  after_id p (id_line raw ∷ lines) = after_id (advanced p (id_line raw)) lines
  after_id p (retry_line raw ∷ lines) = after_id p lines
  after_id p (comment_line raw ∷ lines) = after_id p lines

  after_has_data :
      (p : Parser) (lines : List FieldLine)
      → (after p lines).has_data ≡ (p.has_data || not (is_empty_list (data_values decode lines)))
  unfolding after advanced data_values
  after_has_data p [] = sym (or_false p.has_data)
  after_has_data p (data_line raw ∷ lines) =
      after_has_data (advanced p (data_line raw)) lines ∙ sym (or_true p.has_data)
  after_has_data p (event_line raw ∷ lines) = after_has_data (advanced p (event_line raw)) lines
  after_has_data p (id_line raw ∷ lines) = after_has_data (advanced p (id_line raw)) lines
  after_has_data p (retry_line raw ∷ lines) = after_has_data p lines
  after_has_data p (comment_line raw ∷ lines) = after_has_data p lines

  dispatched :
      (p : Parser) (known event : Text) (values : List Text)
      → p.last_event_id ≡ known
      → p.event ≡ event
      → p.content ≡ terminated values
      → p.has_data ≡ not (is_empty_list values)
      → dispatch p ≡ (record new_parser { last_event_id = known }, assembled known event values)
  unfolding dispatch assembled
  dispatched p known event [] i e c d = rw (d, i) refl
  dispatched p known event (first ∷ rest) i e c d =
      rw (d, i, e, c, without_last-terminated first rest) refl

  -- After any lines with a colon (data, event, id and retry lines and comments, each with any bytes
  -- behind the colon), from a parser that is between messages, with no limit on the buffer and a
  -- decoder that leaves ASCII as it is: an id line without a null reports its id, a retry line of
  -- digits reports that number of milliseconds, capped at 2 ^ 31 - 1, and the others are silent. The
  -- blank line behind them is silent without a data line, and otherwise gives one message: the data
  -- values, each less one leading space, joined by newlines, with the last event and the last id
  -- without a null; it leaves the parser between messages with that id.
  pub fed-message :
      (known : Text) (lines : List FieldLine)
      → let run = fed (record new_parser { last_event_id = known }) lines in
        (run.1 ≡ map (expected decode) lines)
        × (parse_message decode none run.0 [] 0 ≡ (
          record new_parser { last_event_id = last_id decode known lines },
          assembled
              (last_id decode known lines)
              (last_event decode [] lines)
              (data_values decode lines),
        ))
  unfolding parse_message
  fed-message known lines =
      let p = record new_parser { last_event_id = known } in
      rw (fed-after p lines) (
        refl,
        dispatched (after p lines) (last_id decode known lines) (last_event decode [] lines)
            (data_values decode lines) (after_id p lines) (after_event p lines)
            (after_content p lines) (after_has_data p lines),
      )
