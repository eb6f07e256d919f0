-- ===== src/Registry/Mdns/NameBounds.antt =====
-- packages/registry/mdns/src/dns.ts: what a name that was read is like, whatever the bytes.
use go_like.Prelude.{
  some-injective, ℕ, zero, suc, ◌+◌, ◌*◌, ◌%◌, ◌≤◌, ◌<◌, ◌≡◌, ◌⊎◌, refl, sym, ap, subst, arith,
  true, ltb, leb, ◌==◌, ◌||◌, List, [], ◌∷◌, Option, none, some, Result, ok, bind_ok, ok-injective,
  Text, All, length, Bool-cases, inl, inr,
}
use go_like.Registry.Mdns.Names.{
  byte_at, is_label_char, is_label, lower, validate_label, validate_labels, dot, dotted,
  validate_dns_name, NameReader, Round, goes_on, ends, visited, first_or, jump, take_label,
  read_round, read_labels, named, decode_name,
}
use go_like.Registry.Mdns.NameWire.{IsLabel, wire_size, IsName}

length-lower : (l : Text) → length (lower l) ≡ length l
unfolding lower
length-lower [] = refl
length-lower (c ∷ cs) = ap suc (length-lower cs)

is_label-lower : (l : Text) → is_label l ≡ true → is_label (lower l) ≡ true
unfolding is_label is_label_char lower
is_label-lower [] h = refl
is_label-lower (c ∷ cs) h = ground (arith, is_label-lower cs (ground arith))

lower-lower : (l : Text) → lower (lower l) ≡ lower l
unfolding lower
lower-lower [] = refl
lower-lower (c ∷ cs) = ground (arith, lower-lower cs)

validate_label-IsLabel : (l n : Text) → validate_label l ≡ ok n → IsLabel n
unfolding validate_label
validate_label-IsLabel [] n e = absurd cc
validate_label-IsLabel (c ∷ cs) n e = elim (Bool-cases (is_label (c ∷ cs))) [
  | inr refused ↦ absurd (ground arith)
  | inl accepted ↦ elim (Bool-cases (leb (length (c ∷ cs)) 63)) [
    | inr refused ↦ absurd (ground arith)
    | inl fits ↦
        let done : lower (c ∷ cs) ≡ n = ground arith in
        subst IsLabel done (record {
          nonempty = (λ empty. absurd (omega (arith, ap length empty, length-lower (c ∷ cs))));
          accepted = is_label-lower (c ∷ cs) accepted;
          lowered = lower-lower (c ∷ cs);
          short = ground (arith, length-lower (c ∷ cs));
        })
  ]
]

validate_labels-IsLabel :
    (n : ℕ) (ls out : List Text)
    → validate_labels n ls ≡ ok out
    → All IsLabel out × (n + wire_size out ≤ 255) × (length out ≡ length ls)
unfolding validate_labels
validate_labels-IsLabel n [] out e = elim (Bool-cases (ltb 255 n)) [
  | inl big ↦ absurd (ground arith)
  | inr small ↦
      let done : [] ≡ out = ground arith in
      subst (λ o. All IsLabel o × (n + wire_size o ≤ 255) × (length o ≡ 0)) done
        (tt, ground arith, refl)
]
validate_labels-IsLabel n (l ∷ ls) out e =
    let (first, e0, e1) = bind_ok (validate_label l) _ e in
    let (more, e2, e3) = bind_ok (validate_labels (n + length first + 1) ls) _ e1 in
    let (all, fits, same) = validate_labels-IsLabel (n + length first + 1) ls more e2 in
    subst (λ o. All IsLabel o × (n + wire_size o ≤ 255) × (length o ≡ suc (length ls)))
      (ok-injective e3) ((validate_label-IsLabel l first e0, all), omega arith, ap suc same)

-- A name of any labels that is accepted is one that a message may hold.
pub validate_dns_name-IsName :
    (ls : List Text) (name : Text)
    → validate_dns_name ls ≡ ok name
    → (out : List Text) × IsName out × (name ≡ dotted out)
unfolding validate_dns_name
validate_dns_name-IsName [] name e = absurd cc
validate_dns_name-IsName (l ∷ ls) name e =
    let (out, e0, e1) = bind_ok (validate_labels 1 (l ∷ ls)) _ e in
    let (all, fits, same) = validate_labels-IsLabel 1 (l ∷ ls) out e0 in
    (
      out,
      record {
        some_label = (λ empty. absurd (omega (arith, ap length empty)));
        all_labels = all;
        fits = fits;
      },
      sym (ok-injective e1),
    )

byte_at-inside : (packet : List ℕ) (o b : ℕ) → byte_at packet o ≡ some b → o < length packet
unfolding byte_at
byte_at-inside [] o b e = absurd cc
byte_at-inside (x ∷ xs) zero b e = omega arith
byte_at-inside (x ∷ xs) (suc o) b e = omega (arith, byte_at-inside xs o b e)

abbrev read_ok : List Text → ℕ → Result (List Text × ℕ)
read_ok ls c = ok (ls, c)

read_ok-cursor : {ls ms : List Text} {c d : ℕ} → read_ok ls c ≡ read_ok ms d → c ≡ d
read_ok-cursor e = ap (λ p. p.1) (ok-injective e)

abbrev named_ok : Text → ℕ → Result (Text × ℕ)
named_ok name c = ok (name, c)

named_ok-parts :
    {name out : Text} {c d : ℕ} → named_ok out c ≡ named_ok name d → (out ≡ name) × (c ≡ d)
named_ok-parts e = (ap (λ p. p.0) (ok-injective e), ap (λ p. p.1) (ok-injective e))

-- The cursor that a jump has left behind is in the packet.
abbrev Inside : List ℕ → Option ℕ → Type 0
Inside packet cursor = (c : ℕ) → cursor ≡ some c → c ≤ length packet

first_or-Inside :
    (packet : List ℕ) (cursor : Option ℕ) (o : ℕ)
    → Inside packet cursor
    → o ≤ length packet
    → first_or cursor o ≤ length packet
first_or-Inside packet none o h fits = fits
first_or-Inside packet (some c) o h fits = h c refl

-- What one round keeps, or ends with.
abbrev RoundInside : List ℕ → Round → Type 0
RoundInside packet (goes_on r) = Inside packet r.cursor
RoundInside packet (ends result) =
    (ls : List Text) (c : ℕ) → result ≡ ok (ls, c) → c ≤ length packet

take_label-Inside :
    (packet : List ℕ) (r : NameReader) (byte : ℕ)
    → Inside packet r.cursor
    → RoundInside packet (take_label packet r byte)
unfolding take_label
take_label-Inside packet r byte h =
    elim (Bool-cases (ltb 63 byte || ltb (length packet) (suc r.offset + byte))) [
      | inl bad ↦ rw (bad, take_label) (λ ls c e. absurd cc)
      | inr good ↦ rw (good, take_label) h
    ]

jump-Inside :
    (packet : List ℕ) (r : NameReader) (byte : ℕ) (next : Option ℕ)
    → ((b : ℕ) → next ≡ some b → suc r.offset < length packet)
    → Inside packet r.cursor
    → RoundInside packet (jump packet r byte next)
unfolding jump
jump-Inside packet r byte none n h = λ ls c e. absurd cc
jump-Inside packet r byte (some b) n h =
    elim (Bool-cases
      (leb (length packet) (byte % 64 * 256 + b) || visited (byte % 64 * 256 + b) r.pointers)) [
        | inl bad ↦ rw (bad, jump) (λ ls c e. absurd cc)
        | inr good ↦
            rw (good, jump)
              (λ c e.
                subst (λ k. k ≤ length packet) (some-injective e)
                  (first_or-Inside packet r.cursor (r.offset + 2) h (omega (arith, n b refl))))
      ]

read_round-Inside :
    (packet : List ℕ) (r : NameReader) (byte : Option ℕ)
    → byte_at packet r.offset ≡ byte
    → Inside packet r.cursor
    → RoundInside packet (read_round packet r byte)
unfolding read_round
read_round-Inside packet r none at h = λ ls c e. absurd cc
read_round-Inside packet r (some byte) at h = elim (Bool-cases (leb 192 byte)) [
  | inl pointing ↦
      rw (pointing, read_round)
        (jump-Inside packet r byte (byte_at packet (suc r.offset))
          (byte_at-inside packet (suc r.offset)) h)
  | inr plain ↦ elim (Bool-cases (leb 64 byte)) [
    | inl bad ↦ rw (plain, read_round) (rw bad (λ ls c e. absurd cc))
    | inr good ↦ elim (Bool-cases (byte == 0)) [
      | inl over ↦
          rw (plain, read_round)
            (rw good (
              rw over (λ ls c e.
                subst (λ k. k ≤ length packet) (read_ok-cursor e)
                  (first_or-Inside packet r.cursor (suc r.offset) h
                    (byte_at-inside packet r.offset byte at)))))
      | inr label ↦ rw (plain, read_round) (rw good (rw label (take_label-Inside packet r byte h)))
    ]
  ]
]

either_end :
    (packet : List ℕ) (next : NameReader → Result (List Text × ℕ)) (round : Round)
    → ((r : NameReader) → Inside packet r.cursor → RoundInside packet (ends (next r)))
    → RoundInside packet round
    → RoundInside packet (ends (elim round [ goes_on r ↦ next r | ends result ↦ result ]))
either_end packet next (goes_on r) later h = later r h
either_end packet next (ends result) later h = h

read_labels-Inside :
    (rounds : ℕ) (packet : List ℕ) (r : NameReader)
    → Inside packet r.cursor
    → RoundInside packet (ends (read_labels rounds packet r))
unfolding read_labels
read_labels-Inside zero packet r h = λ ls c e. absurd cc
read_labels-Inside (suc rounds) packet r h =
    either_end packet (read_labels rounds packet) (read_round packet r (byte_at packet r.offset))
      (read_labels-Inside rounds packet) (read_round-Inside packet r _ refl h)

named-IsName :
    (ls : List Text) (name : Text)
    → named ls ≡ ok name
    → (name ≡ dot ∷ []) ⊎ ((out : List Text) × IsName out × (name ≡ dotted out))
unfolding named
named-IsName [] name e = inl (sym (ok-injective e))
named-IsName (l ∷ ls) name e = inr (validate_dns_name-IsName (l ∷ ls) name e)

-- Whatever the bytes, a name that is read is the root or a normalized name that a message may hold,
-- and the cursor behind it is in the packet.
pub decode_name-IsName :
    (packet : List ℕ) (o : ℕ) (name : Text) (cursor : ℕ)
    → decode_name packet o ≡ ok (name, cursor)
    → ((name ≡ dot ∷ []) ⊎ ((ls : List Text) × IsName ls × (name ≡ dotted ls)))
      × (cursor ≤ length packet)
unfolding decode_name named
decode_name-IsName packet o name cursor e =
    let start : NameReader = record { offset = o; cursor = none; pointers = []; labels = [] } in
    let ((ls, c), e0, e1) = bind_ok (read_labels 129 packet start) _ e in
    let (out, e2, e3) = bind_ok (named ls) _ e1 in
    let (same_name, same_cursor) = named_ok-parts e3 in
    (
      named-IsName ls name (subst (λ n. named ls ≡ ok n) same_name e2),
      subst (λ k. k ≤ length packet) same_cursor
          (read_labels-Inside 129 packet start (λ k other. absurd cc) ls c e0),
    )
