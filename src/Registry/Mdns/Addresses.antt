-- ===== src/Registry/Mdns/Addresses.antt =====
-- packages/registry/mdns/src/dns.ts: IPv4 and IPv6 literals.
use go_like.Prelude.{
  ℕ, zero, suc, ◌+◌, ◌-◌, ◌*◌, ◌/◌, ◌%◌, Bool, true, false, not, ◌&&◌, ◌||◌, ltb, leb, ◌==◌,
  if◌then◌else◌, List, [], ◌∷◌, ◌++◌, Option, none, some, Result, ok, throw, type_error, ◌>>=◌,
  ◌>>◌, require, Text, same_text, starts_with, length, take, drop, split, join, prefix_first,
  without_last, ends_with,
}

is_digit : ℕ → Bool
is_digit c = leb 48 c && leb c 57

-- `/^(0|[1-9][0-9]{0,2})$/` and `Number(part)`
unfoldable pub octet : Text → Option ℕ
unfolding is_digit
octet (a ∷ []) = if is_digit a then some (a - 48) else none
octet (a ∷ b ∷ []) =
    if is_digit a && is_digit b && not (a == 48) then some ((a - 48) * 10 + (b - 48)) else none
octet (a ∷ b ∷ c ∷ []) =
    if is_digit a && is_digit b && is_digit c && not (a == 48)
    then some ((a - 48) * 100 + (b - 48) * 10 + (c - 48))
    else none
octet _ = none

unfoldable pub exact_octet : Text → Result ℕ
unfolding octet
exact_octet part = elim (octet part) [
  | none ↦ throw type_error
  | some number ↦ if ltb 255 number then throw type_error else ok number
]

unfoldable pub exact_octets : List Text → Result (List ℕ)
unfolding exact_octet
exact_octets [] = ok []
exact_octets (part ∷ parts) = do
  byte ← exact_octet part
  bytes ← exact_octets parts
  ok (byte ∷ bytes)

unfoldable pub encode_ipv4 : Text → Result (List ℕ)
unfolding exact_octets
encode_ipv4 value = do
  require (length (split 46 value) == 4) type_error
  exact_octets (split 46 value)

-- A byte as a decimal.
unfoldable pub octet_text : ℕ → Text
octet_text n =
    if ltb n 10
    then (48 + n) ∷ []
    else if ltb n 100
    then (48 + n / 10) ∷ (48 + n % 10) ∷ []
    else (48 + n / 100) ∷ (48 + n / 10 % 10) ∷ (48 + n % 10) ∷ []

unfoldable pub octet_texts : List ℕ → List Text
unfolding octet_text
octet_texts [] = []
octet_texts (b ∷ bs) = octet_text b ∷ octet_texts bs

unfoldable pub decode_ipv4 : List ℕ → Text
unfolding octet_texts
decode_ipv4 bytes = join 46 (octet_texts bytes)

-- `toLowerCase`, on the letters that may stand in a literal
lower_hex : Text → Text
lower_hex [] = []
lower_hex (c ∷ cs) = (if leb 65 c && leb c 90 then c + 32 else c) ∷ lower_hex cs

unfoldable pub includes : ℕ → Text → Bool
includes c [] = false
includes c (x ∷ xs) = (x == c) || includes c xs

-- `[` and `]` round the literal are dropped.
unbracketed : Text → Text
unbracketed [] = []
unbracketed (c ∷ cs) = if (c == 91) && ends_with 93 (c ∷ cs) then without_last cs else c ∷ cs

-- The text before the last colon and the text behind it, by its parts at the colons; without a
-- colon all but the last code point, as `slice(0, -1)` gives, and the whole text.
last_of : Text → List Text → Text
last_of v [] = v
last_of v (w ∷ ws) = last_of w ws

drop_last : Text → Text → List Text → Text
drop_last w v [] = w
drop_last w v (u ∷ us) = w ++ (58 ∷ drop_last v u us)

parts_at_last : List Text → Text → Text × Text
unfolding last_of drop_last without_last
parts_at_last [] text = (without_last text, text)
parts_at_last (w ∷ []) text = (without_last text, text)
parts_at_last (w ∷ v ∷ ws) text = (drop_last w v ws, last_of v ws)

abbrev ipv4_word : Text
ipv4_word = 105 ∷ 112 ∷ 118 ∷ 52 ∷ []

abbrev tail_word : Text
tail_word = 116 ∷ 97 ∷ 105 ∷ 108 ∷ []

words_of : List ℕ → List ℕ
words_of (a ∷ b ∷ bytes) = (a * 256 + b) ∷ words_of bytes
words_of _ = []

-- The literal with an IPv4 tail replaced by two marker parts, and the words of that tail.
embedded : Text → Result (Text × List ℕ)
unfolding words_of includes encode_ipv4 parts_at_last
embedded text =
    let (before, behind) = parts_at_last (split 58 text) text in
    if includes 46 behind
    then (encode_ipv4 behind >>= λ bytes.
        ok (before ++ (58 ∷ (ipv4_word ++ (58 ∷ tail_word))), words_of bytes))
    else ok (text, [])

-- `split("::")`
unfoldable pub split_double : Text → List Text
split_double [] = [] ∷ []
split_double (x ∷ []) = (x ∷ []) ∷ []
split_double (x ∷ y ∷ rest) =
    let behind = split_double rest in
    let other = split_double (y ∷ rest) in
    if (x == 58) && (y == 58) then [] ∷ behind else prefix_first x other

hex_digit : ℕ → Option ℕ
hex_digit c =
    if leb 48 c && leb c 57
    then some (c - 48)
    else if leb 97 c && leb c 102
    then some (c - 87)
    else none

-- `Number.parseInt(part, 16)` of a part that consists of digits
hex_number : ℕ → Text → Option ℕ
unfolding hex_digit
hex_number n [] = some n
hex_number n (c ∷ cs) = elim (hex_digit c) [ none ↦ none | some d ↦ hex_number (n * 16 + d) cs ]

hex_word : Text → Result ℕ
unfolding hex_number
hex_word [] = throw type_error
hex_word (c ∷ cs) =
    if ltb 4 (length (c ∷ cs))
    then throw type_error
    else elim (hex_number 0 (c ∷ cs)) [ none ↦ throw type_error | some word ↦ ok word ]

-- `half`: the marker parts stand for the words of the tail and for nothing.
half_parts : List ℕ → List Text → Result (List ℕ)
unfolding hex_word
half_parts ipv4 [] = ok []
half_parts ipv4 (part ∷ parts) = do
  words ←
      if same_text part ipv4_word
      then ok ipv4
      else if same_text part tail_word
      then ok []
      else (hex_word part >>= λ word. ok (word ∷ []))
  rest ← half_parts ipv4 parts
  ok (words ++ rest)

half : List ℕ → Text → Result (List ℕ)
unfolding half_parts
half ipv4 [] = ok []
half ipv4 (c ∷ cs) = half_parts ipv4 (split 58 (c ∷ cs))

zeros : ℕ → List ℕ
zeros zero = []
zeros (suc n) = 0 ∷ zeros n

-- One half must have eight words, and two halves at most seven.
filled : List ℕ → Text → List Text → Result (List ℕ)
unfolding half zeros
filled ipv4 first [] = do words ← half ipv4 first; require (length words == 8) type_error; ok words
filled ipv4 first (second ∷ []) = do
  left ← half ipv4 first
  right ← half ipv4 second
  require (leb (length left + length right) 7) type_error
  ok (left ++ (zeros (8 - length left - length right) ++ right))
filled ipv4 first (second ∷ third ∷ more) = throw type_error

halves_filled : List ℕ → List Text → Result (List ℕ)
unfolding filled
halves_filled ipv4 [] = throw type_error
halves_filled ipv4 (first ∷ rest) = filled ipv4 first rest

unfoldable pub ipv6_words : Text → Result (List ℕ)
unfolding includes lower_hex unbracketed embedded split_double halves_filled
ipv6_words [] = throw type_error
ipv6_words (c ∷ cs) = do
  require (not (includes 37 (c ∷ cs))) type_error
  (normalized, ipv4) ← embedded (unbracketed (lower_hex (c ∷ cs)))
  halves_filled ipv4 (split_double normalized)

bytes_of_words : List ℕ → List ℕ
bytes_of_words [] = []
bytes_of_words (w ∷ ws) = (w / 256) ∷ (w % 256) ∷ bytes_of_words ws

unfoldable pub encode_ipv6 : Text → Result (List ℕ)
unfolding ipv6_words bytes_of_words
encode_ipv6 value = do words ← ipv6_words value; ok (bytes_of_words words)

-- The length of the run of zeros at the head.
zero_run : List ℕ → ℕ
zero_run [] = 0
zero_run (w ∷ ws) = let more = zero_run ws in if w == 0 then suc more else 0

-- The first longest run of two zeros at least, as its start and its length; the scan looks at the
-- start of each run, behind a word `before` that is not zero.
best_run : ℕ → Bool → List ℕ → ℕ × ℕ → ℕ × ℕ
unfolding zero_run
best_run start before [] best = best
best_run start before (w ∷ ws) (best_start, best_length) =
    let run = zero_run (w ∷ ws) in
    let better = before && ltb best_length run && leb 2 run in
    best_run (suc start) (not (w == 0)) ws
      (if better then (start, run) else (best_start, best_length))

hex_char : ℕ → ℕ
hex_char d = if ltb d 10 then 48 + d else 87 + d

-- `word.toString(16)`
hex_text : ℕ → Text
unfolding hex_char
hex_text w =
    if ltb w 16
    then hex_char w ∷ []
    else if ltb w 256
    then hex_char (w / 16) ∷ hex_char (w % 16) ∷ []
    else if ltb w 4096
    then hex_char (w / 256) ∷ hex_char (w / 16 % 16) ∷ hex_char (w % 16) ∷ []
    else hex_char (w / 4096)
      ∷ hex_char (w / 256 % 16)
      ∷ hex_char (w / 16 % 16)
      ∷ hex_char (w % 16)
      ∷ []

hex_texts : List ℕ → List Text
unfolding hex_text
hex_texts [] = []
hex_texts (w ∷ ws) = hex_text w ∷ hex_texts ws

-- The parts, where a run of zeros is an empty part, and two at the end of the address.
compressed : List ℕ → ℕ × ℕ → List Text
unfolding hex_texts
compressed words (start, run) =
    if leb 2 run
    then hex_texts (take start words)
      ++ ([]
          ∷ (if start + run == length words then [] ∷ [] else hex_texts (drop (start + run) words)))
    else hex_texts words

unfoldable pub decode_ipv6 : List ℕ → Result Text
unfolding words_of best_run compressed
decode_ipv6 bytes = do
  require (length bytes == 16) type_error
  let words = words_of bytes
  let joined = join 58 (compressed words (best_run 0 true words (0, 0)))
  ok (if starts_with joined (58 ∷ []) then 58 ∷ joined else joined)
