-- ===== src/Registry/Mdns/NameWire.antt =====
-- packages/registry/mdns/src/dns.ts: reading back the integers and names that were written.
use mathlib.Core.List.{append_assoc, append-nil}
use native.Mathlib.Nat.{add-zero}
use go_like.Prelude.{
  ℕ, zero, suc, ◌+◌, ◌*◌, ◌/◌, ◌%◌, ◌≤◌, ◌<◌, ◌≡◌, ◌≢◌, refl, sym, ap, ◌∙◌, subst, arith, true, ltb,
  List, [], ◌∷◌, ◌++◌, none, some, Result, ok, Text, All, length, length-append, length-drop, take,
  drop, Bool-cases, inl, inr, split, join, split-join, without_last, without_last-append,
  ends_with-append, Free,
}
use go_like.Registry.Mdns.Names.{
  write_u16, write_u32, byte_at, read_byte, read_u16, read_u32, is_label_char, is_label, lower,
  validate_label, validate_labels, dot, dotted, validate_dns_name, wire, encode_name, decode_label,
  NameReader, read_round, take_label, read_labels, decode_name, goes_on,
}

-- What a packet holds from an offset on.
abbrev pub At : List ℕ → ℕ → List ℕ → Type 0
At packet offset rest = drop offset packet ≡ rest

pub At-byte :
    (packet : List ℕ) (o b : ℕ) (rest : List ℕ) → At packet o (b ∷ rest) → byte_at packet o ≡ some b
unfolding byte_at
At-byte [] zero b rest h = cc
At-byte [] (suc o) b rest h = cc
At-byte (x ∷ xs) zero b rest h = cc
At-byte (x ∷ xs) (suc o) b rest h = At-byte xs o b rest h

pub At-suc :
    (packet : List ℕ) (o b : ℕ) (rest : List ℕ) → At packet o (b ∷ rest) → At packet (suc o) rest
At-suc [] zero b rest h = absurd cc
At-suc [] (suc o) b rest h = absurd cc
At-suc (x ∷ xs) zero b rest h = cc
At-suc (x ∷ xs) (suc o) b rest h = At-suc xs o b rest h

pub At-skip :
    (packet : List ℕ) (o : ℕ) (xs rest : List ℕ)
    → At packet o (xs ++ rest)
    → At packet (o + length xs) rest
At-skip packet o [] rest h = rw (add-zero o) h
At-skip packet o (x ∷ xs) rest h =
    subst (λ k. At packet k rest) (omega arith)
      (At-skip packet (suc o) xs rest (At-suc packet o x (xs ++ rest) h))

pub At-length :
    (packet : List ℕ) (o b : ℕ) (rest : List ℕ)
    → At packet o (b ∷ rest)
    → length packet ≡ o + length (b ∷ rest)
At-length packet o b rest h = omega (arith, length-drop o packet, ap length h)

take-append {ℓ} : {A : Type ℓ} (xs ys : List A) → take (length xs) (xs ++ ys) ≡ xs
take-append [] ys = refl
take-append (x ∷ xs) ys = ap (◌∷◌ x) (take-append xs ys)

pub At-take :
    (packet : List ℕ) (o : ℕ) (xs rest : List ℕ)
    → At packet o (xs ++ rest)
    → take (length xs) (drop o packet) ≡ xs
At-take packet o xs rest h = rw h (take-append xs rest)

pub read_byte-At :
    (packet : List ℕ) (o b : ℕ) (rest : List ℕ)
    → At packet o (b ∷ rest)
    → read_byte packet o ≡ ok (b, suc o)
unfolding read_byte
read_byte-At packet o b rest h = rw (At-byte packet o b rest h, read_byte) refl

pub read_u16-At :
    (packet : List ℕ) (o a b : ℕ) (rest : List ℕ)
    → At packet o (a ∷ b ∷ rest)
    → read_u16 packet o ≡ ok (a * 256 + b, suc (suc o))
unfolding read_u16
read_u16-At packet o a b rest h =
    rw (read_byte-At packet o a (b ∷ rest) h, read_u16)
      (rw (read_byte-At packet (suc o) b rest (At-suc packet o a (b ∷ rest) h)) refl)

-- A read gives the number that was written, and moves past it.
pub read_u16-write_u16 :
    (packet : List ℕ) (o value : ℕ) (bytes rest : List ℕ)
    → write_u16 value ≡ ok bytes
    → At packet o (bytes ++ rest)
    → (read_u16 packet o ≡ ok (value, suc (suc o)))
      × At packet (suc (suc o)) rest
      × (length bytes ≡ 2)
      × (length packet ≡ suc (suc o) + length rest)
unfolding write_u16
read_u16-write_u16 packet o value bytes rest w h = elim (Bool-cases (ltb 65535 value)) [
  | inl big ↦ absurd (ground arith)
  | inr small ↦
      let e : bytes ≡ (value / 256) ∷ (value % 256) ∷ [] = ground arith in
      let h' : At packet o ((value / 256) ∷ (value % 256) ∷ rest) = rw e at h in
      (
        read_u16-At packet o (value / 256) (value % 256) rest h'
            ∙ ap (λ v. ok (v, suc (suc o))) (omega arith),
        At-suc packet (suc o) _ rest (At-suc packet o _ _ h'),
        ap length e,
        omega (arith, At-length packet o _ _ h'),
      )
]

pub read_u32-write_u32 :
    (packet : List ℕ) (o value : ℕ) (bytes rest : List ℕ)
    → write_u32 value ≡ ok bytes
    → At packet o (bytes ++ rest)
    → (read_u32 packet o ≡ ok (value, suc (suc (suc (suc o)))))
      × At packet (suc (suc (suc (suc o)))) rest
      × (length bytes ≡ 4)
      × (value ≤ 2147483647)
unfolding write_u32 read_u32
read_u32-write_u32 packet o value bytes rest w h = elim (Bool-cases (ltb 2147483647 value)) [
  | inl big ↦ absurd (ground arith)
  | inr small ↦
      let a = value / 16777216 in
      let b = value / 65536 % 256 in
      let c = value / 256 % 256 in
      let d = value % 256 in
      let e : bytes ≡ a ∷ b ∷ c ∷ d ∷ [] = ground arith in
      let h0 : At packet o (a ∷ b ∷ c ∷ d ∷ rest) = rw e at h in
      let h1 = At-suc packet o a _ h0 in
      let h2 = At-suc packet (suc o) b _ h1 in
      let h3 = At-suc packet (suc (suc o)) c _ h2 in
      (
        rw (read_byte-At packet o a _ h0, read_u32)
            (rw (read_byte-At packet (suc o) b _ h1) (
              rw (read_byte-At packet (suc (suc o)) c _ h2) (
                rw (read_byte-At packet (suc (suc (suc o))) d _ h3)
                  (ap (λ v. ok (v, suc (suc (suc (suc o))))) (omega arith))))),
        At-suc packet (suc (suc (suc o))) d _ h3,
        ap length e,
        ground arith,
      )
]

-- A label in the form in which names are kept.
pub record IsLabel (label : Text) : Type 0 where
  pub nonempty : label ≢ []
  pub accepted : is_label label ≡ true
  pub lowered : lower label ≡ label
  pub short : length label ≤ 63

abbrev pub wire_size : List Text → ℕ
wire_size [] = 0
wire_size (l ∷ ls) = length l + 1 + wire_size ls

-- The labels of a name that a message may hold.
pub record IsName (labels : List Text) : Type 0 where
  pub some_label : labels ≢ []
  pub all_labels : All IsLabel labels
  pub fits : 1 + wire_size labels ≤ 255

validate-IsLabel : (l : Text) → IsLabel l → validate_label l ≡ ok l
unfolding validate_label
validate-IsLabel [] h = absurd (h.nonempty refl)
validate-IsLabel (c ∷ cs) h = ground (arith, h.accepted, h.lowered, h.short)

validate-labels :
    (n : ℕ) (ls : List Text)
    → All IsLabel ls
    → n + wire_size ls ≤ 255
    → validate_labels n ls ≡ ok ls
unfolding validate_labels
validate-labels n [] h fits = ground arith
validate-labels n (l ∷ ls) h fits =
    rw (validate-IsLabel l h.0, validate_labels)
      (rw (validate-labels (n + length l + 1) ls h.1 (omega arith)) refl)

validate-IsName : (ls : List Text) → IsName ls → validate_dns_name ls ≡ ok (dotted ls)
unfolding validate_dns_name
validate-IsName [] h = absurd (h.some_label refl)
validate-IsName (l ∷ ls) h = rw (validate-labels 1 (l ∷ ls) h.all_labels h.fits) refl

is_label-Free : (l : Text) → is_label l ≡ true → Free dot l
unfolding is_label is_label_char
is_label-Free [] h = tt
is_label-Free (c ∷ cs) h = ((λ e. ground arith), is_label-Free cs (ground arith))

All-Free : (ls : List Text) → All IsLabel ls → All (Free dot) ls
All-Free [] h = tt
All-Free (l ∷ ls) h = (is_label-Free l h.0.accepted, All-Free ls h.1)

split-dotted : (ls : List Text) → IsName ls → split dot (without_last (dotted ls)) ≡ ls
split-dotted [] h = absurd (h.some_label refl)
split-dotted (l ∷ ls) h =
    rw (without_last-append (join dot (l ∷ ls)) dot)
      (split-join dot l ls (All-Free (l ∷ ls) h.all_labels))

pub encode_name-IsName : (ls : List Text) → IsName ls → encode_name (dotted ls) ≡ ok (wire ls)
unfolding encode_name
encode_name-IsName ls h =
    rw (ends_with-append dot (join dot ls), encode_name)
      (rw (split-dotted ls h) (rw (validate-IsName ls h) (rw (split-dotted ls h) refl)))

decode_label-is_label : (l : Text) → is_label l ≡ true → decode_label l ≡ l
unfolding decode_label is_label is_label_char
decode_label-is_label [] h = refl
decode_label-is_label (a ∷ []) h = refl
decode_label-is_label (a ∷ b ∷ []) h = refl
decode_label-is_label (a ∷ b ∷ c ∷ cs) h = ground arith

abbrev reader : ℕ → List Text → NameReader
reader o labels = record { offset = o; cursor = none; pointers = []; labels = labels }

take_label-At :
    (packet : List ℕ) (o : ℕ) (l : Text) (rest : List ℕ) (done : List Text)
    → IsLabel l
    → At packet o (length l ∷ (l ++ rest))
    → take_label packet (reader o done) (length l)
      ≡ goes_on (reader (suc o + length l) (done ++ l ∷ []))
unfolding take_label
take_label-At packet o l rest done h at =
    rw (At-take packet (suc o) l rest (At-suc packet o (length l) (l ++ rest) at), take_label)
      (rw (decode_label-is_label l h.accepted) (
        ground
          (arith, h.short, At-length packet o (length l) (l ++ rest) at, length-append l rest)))

read_round-label :
    (packet : List ℕ) (o : ℕ) (l : Text) (rest : List ℕ) (done : List Text)
    → IsLabel l
    → At packet o (length l ∷ (l ++ rest))
    → read_round packet (reader o done) (byte_at packet o)
      ≡ goes_on (reader (suc o + length l) (done ++ l ∷ []))
unfolding read_round
read_round-label packet o [] rest done h at = absurd (h.nonempty refl)
read_round-label packet o (c ∷ cs) rest done h at =
    rw (At-byte packet o (length (c ∷ cs)) ((c ∷ cs) ++ rest) at)
      (ground (arith, h.short, take_label-At packet o (c ∷ cs) rest done h at))

read_ok : List Text → ℕ → Result (List Text × ℕ)
read_ok labels cursor = ok (labels, cursor)

read_ok-eq : {xs ys : List Text} {m n : ℕ} → xs ≡ ys → m ≡ n → read_ok xs m ≡ read_ok ys n
read_ok-eq e f = cc

read_labels-wire :
    (rounds : ℕ) (packet : List ℕ) (o : ℕ) (ls : List Text) (rest : List ℕ) (done : List Text)
    → All IsLabel ls
    → length ls < rounds
    → At packet o (wire ls ++ rest)
    → read_labels rounds packet (reader o done) ≡ ok (done ++ ls, o + length (wire ls))
unfolding read_labels wire read_round read_ok
read_labels-wire zero packet o ls rest done h n at = absurd (omega arith)
read_labels-wire (suc rounds) packet o [] rest done h n at =
    rw (At-byte packet o 0 rest at, read_labels) (read_ok-eq (sym (append-nil done)) (omega arith))
read_labels-wire (suc rounds) packet o (l ∷ ls) rest done h n at =
    let at' : At packet o (length l ∷ (l ++ (wire ls ++ rest))) =
      at ∙ ap (◌∷◌ (length l)) (append_assoc l (wire ls) rest) in
    let next =
      read_labels-wire rounds packet (suc o + length l) ls rest (done ++ l ∷ []) h.1 (omega arith)
        (At-skip packet (suc o) l (wire ls ++ rest) (At-suc packet o (length l) _ at')) in
    rw (read_round-label packet o l (wire ls ++ rest) done h.0 at', read_labels)
      (next ∙ read_ok-eq (append_assoc done (l ∷ []) ls) (omega (arith, length-append l (wire ls))))

wire_size-length : (ls : List Text) → All IsLabel ls → length ls + length ls ≤ wire_size ls
wire_size-length [] h = omega arith
wire_size-length ([] ∷ ls) h = absurd (h.0.nonempty refl)
wire_size-length ((c ∷ cs) ∷ ls) h = omega (arith, wire_size-length ls h.1)

-- A name that was written is read back, with the cursor behind it.
pub decode_name-wire :
    (packet : List ℕ) (o : ℕ) (ls : List Text) (rest : List ℕ)
    → IsName ls
    → At packet o (wire ls ++ rest)
    → decode_name packet o ≡ ok (dotted ls, o + length (wire ls))
unfolding decode_name
decode_name-wire packet o [] rest h at = absurd (h.some_label refl)
decode_name-wire packet o (l ∷ ls) rest h at =
    rw
      (
        read_labels-wire 129 packet o (l ∷ ls) rest [] h.all_labels
            (omega (arith, wire_size-length (l ∷ ls) h.all_labels, h.fits)) at,
        decode_name,
      )
      (rw (validate-IsName (l ∷ ls) h) refl)
