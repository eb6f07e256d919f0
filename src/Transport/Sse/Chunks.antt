-- ===== src/Transport/Sse/Chunks.antt =====
-- packages/transport/src/sse/parser.ts: the line parser and the cuts between chunks.
use go_like.Prelude.{ℕ, List, [], ◌∷◌, ◌++◌, Option, none, some}
use go_like.Transport.Sse.Lines.{Line, LineParser, Delivery, parse_bytes}

-- A parse goes on behind another one.
abbrev pub then_parse : Option ℕ → Delivery → List ℕ → Delivery
then_parse max (lines, none) bytes = (lines, none)
then_parse max (lines, some s) bytes =
    let later = parse_bytes max s bytes in (lines ++ later.0, later.1)

abbrev behind_lines : List Line → Delivery → Delivery
behind_lines ended d = (ended ++ d.0, d.1)

abbrev with_end : Option LineParser → List Line → Delivery
with_end end lines = (lines, end)

abbrev pub concat : List (List ℕ) → List ℕ
concat [] = []
concat (chunk ∷ chunks) = chunk ++ concat chunks
