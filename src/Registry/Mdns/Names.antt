-- ===== src/Registry/Mdns/Names.antt =====
-- packages/registry/mdns/src/dns.ts: integers and names on the wire.
-- A packet is a list of bytes, a cursor an offset that a read takes and returns, and what a write
-- appends to the output is its result.
use go_like.Prelude.{
  ℕ, zero, suc, ◌+◌, ◌*◌, ◌/◌, ◌%◌, Bool, true, false, ◌&&◌, ◌||◌, ltb, leb, ◌==◌, if◌then◌else◌,
  List, [], ◌∷◌, ◌++◌, Option, none, some, Result, ok, throw, type_error, range_error, ◌>>=◌, ◌>>◌,
  require, Text, length, take, drop, split, join, without_last, ends_with,
}

-- `writeU16` and `writeU32`
unfoldable pub write_u16 : ℕ → Result (List ℕ)
write_u16 value =
    if ltb 65535 value then throw range_error else ok ((value / 256) ∷ (value % 256) ∷ [])

unfoldable pub write_u32 : ℕ → Result (List ℕ)
write_u32 value =
    if ltb 2147483647 value
    then throw range_error
    else ok ((value / 16777216) ∷ (value / 65536 % 256) ∷ (value / 256 % 256) ∷ (value % 256) ∷ [])

-- `data[offset]`
unfoldable pub byte_at : List ℕ → ℕ → Option ℕ
byte_at [] offset = none
byte_at (b ∷ bs) zero = some b
byte_at (b ∷ bs) (suc offset) = byte_at bs offset

unfoldable pub read_byte : List ℕ → ℕ → Result (ℕ × ℕ)
unfolding byte_at
read_byte packet offset = elim (byte_at packet offset) [
  | none ↦ throw type_error
  | some value ↦ ok (value, suc offset)
]

unfoldable pub read_u16 : List ℕ → ℕ → Result (ℕ × ℕ)
unfolding read_byte
read_u16 packet offset = do
  (a, o) ← read_byte packet offset
  (b, o') ← read_byte packet o
  ok (a * 256 + b, o')

unfoldable pub read_u32 : List ℕ → ℕ → Result (ℕ × ℕ)
unfolding read_byte
read_u32 packet offset = do
  (a, o) ← read_byte packet offset
  (b, o') ← read_byte packet o
  (c, o'') ← read_byte packet o'
  (d, end) ← read_byte packet o''
  ok (a * 16777216 + b * 65536 + c * 256 + d, end)

-- `/^[A-Za-z0-9_-]+$/` at one code point
unfoldable pub is_label_char : ℕ → Bool
is_label_char c =
    (leb 65 c && leb c 90)
    || (leb 97 c && leb c 122)
    || (leb 48 c && leb c 57)
    || (c == 95)
    || (c == 45)

unfoldable pub is_label : Text → Bool
unfolding is_label_char
is_label [] = true
is_label (c ∷ cs) = is_label_char c && is_label cs

-- `toLowerCase`, of a text that `is_label` accepts
unfoldable pub lower : Text → Text
lower [] = []
lower (c ∷ cs) = (if leb 65 c && leb c 90 then c + 32 else c) ∷ lower cs

-- The loop of `validateDNSName`, with the bytes of the wire so far.
unfoldable pub validate_label : Text → Result Text
unfolding is_label lower
validate_label [] = throw type_error
validate_label (c ∷ cs) = do
  require (is_label (c ∷ cs)) type_error
  require (leb (length (c ∷ cs)) 63) range_error
  ok (lower (c ∷ cs))

unfoldable pub validate_labels : ℕ → List Text → Result (List Text)
unfolding validate_label
validate_labels wire_bytes [] = if ltb 255 wire_bytes then throw range_error else ok []
validate_labels wire_bytes (label ∷ labels) = do
  normalized ← validate_label label
  rest ← validate_labels (wire_bytes + length normalized + 1) labels
  ok (normalized ∷ rest)

abbrev pub dot : ℕ
dot = 46

-- `` `${labels.join(".")}.` ``
abbrev pub dotted : List Text → Text
dotted labels = join dot labels ++ (dot ∷ [])

unfoldable pub validate_dns_name : List Text → Result Text
unfolding validate_labels
validate_dns_name [] = throw type_error
validate_dns_name (label ∷ labels) = do
  normalized ← validate_labels 1 (label ∷ labels)
  ok (dotted normalized)

-- Each label behind its length, and a zero.
unfoldable pub wire : List Text → List ℕ
wire [] = 0 ∷ []
wire (label ∷ labels) = length label ∷ (label ++ wire labels)

unfoldable pub encode_name : Text → Result (List ℕ)
unfolding validate_dns_name wire
encode_name value = do
  normalized ←
      validate_dns_name
        (if ends_with dot value then split dot (without_last value) else split dot value)
  ok (wire (split dot (without_last normalized)))

-- `TextDecoder.decode` drops a byte order mark; bytes that are no ASCII stay, and are refused by
-- `validate_dns_name`.
unfoldable pub decode_label : List ℕ → Text
decode_label (a ∷ b ∷ c ∷ label) =
    if (a == 239) && (b == 187) && (c == 191) then label else a ∷ b ∷ c ∷ label
decode_label label = label

unfoldable pub visited : ℕ → List ℕ → Bool
visited pointer [] = false
visited pointer (p ∷ ps) = (p == pointer) || visited pointer ps

-- The variables of the loop of `decodeName`; `cursor` is set by the first jump.
pub record NameReader : Type 0 where
  pub offset : ℕ
  pub cursor : Option ℕ
  pub pointers : List ℕ
  pub labels : List Text

-- What one round does: it goes on, or ends with the labels and the cursor.
pub data Round : Type 0 where
  goes_on : NameReader → Round
  ends : Result (List Text × ℕ) → Round

abbrev pub first_or : Option ℕ → ℕ → ℕ
first_or none offset = offset
first_or (some cursor) offset = cursor

unfoldable pub jump : List ℕ → NameReader → ℕ → Option ℕ → Round
unfolding visited
jump packet r byte none = ends (throw type_error)
jump packet r byte (some next) =
    let pointer = byte % 64 * 256 + next in
    if leb (length packet) pointer || visited pointer r.pointers
    then ends (throw type_error)
    else goes_on (record {
      offset = pointer;
      cursor = some (first_or r.cursor (r.offset + 2));
      pointers = pointer ∷ r.pointers;
      labels = r.labels;
    })

unfoldable pub take_label : List ℕ → NameReader → ℕ → Round
unfolding decode_label
take_label packet r byte =
    if ltb 63 byte || ltb (length packet) (suc r.offset + byte)
    then ends (throw type_error)
    else goes_on (record r {
      offset = suc r.offset + byte;
      labels = r.labels ++ decode_label (take byte (drop (suc r.offset) packet)) ∷ [];
    })

unfoldable pub read_round : List ℕ → NameReader → Option ℕ → Round
unfolding jump take_label byte_at
read_round packet r none = ends (throw type_error)
read_round packet r (some byte) =
    if leb 192 byte
    then jump packet r byte (byte_at packet (suc r.offset))
    else if leb 64 byte
    then ends (throw type_error)
    else if byte == 0
    then ends (ok (r.labels, first_or r.cursor (suc r.offset)))
    else take_label packet r byte

-- `iterations` counts 129 rounds, which are the fuel.
unfoldable pub read_labels : ℕ → List ℕ → NameReader → Result (List Text × ℕ)
unfolding read_round byte_at
read_labels zero packet r = throw type_error
read_labels (suc rounds) packet r = elim (read_round packet r (byte_at packet r.offset)) [
  | goes_on next ↦ read_labels rounds packet next
  | ends result ↦ result
]

unfoldable pub named : List Text → Result Text
unfolding validate_dns_name
named [] = ok (dot ∷ [])
named (label ∷ labels) = validate_dns_name (label ∷ labels)

unfoldable pub decode_name : List ℕ → ℕ → Result (Text × ℕ)
unfolding read_labels named
decode_name packet offset = do
  (labels, cursor) ←
      read_labels 129 packet (record { offset = offset; cursor = none; pointers = []; labels = [] })
  name ← named labels
  ok (name, cursor)
