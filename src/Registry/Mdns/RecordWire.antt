-- ===== src/Registry/Mdns/RecordWire.antt =====
-- packages/registry/mdns/src/dns.ts: reading back the records that were written.
use mathlib.Core.List.{append_assoc}
use go_like.Prelude.{
  ℕ, zero, suc, ◌+◌, ◌≤◌, ◌<◌, ◌≡◌, refl, sym, ap, ◌∙◌, subst, arith, true, false, ltb, leb, List,
  [], ◌∷◌, ◌++◌, ok, ◌>>=◌, bind_ok, ok-injective, Text, length, length-append, take, drop,
  Bool-cases, ==_refl, ◌==◌, inl, inr, split-join, Free,
}
use go_like.Registry.Mdns.Names.{write_u16, dotted, wire}
use go_like.Registry.Mdns.Addresses.{
  exact_octet, exact_octets, encode_ipv4, octet_text, decode_ipv4, encode_ipv6, decode_ipv6,
}
use go_like.Registry.Mdns.Packets.{
  DnsRecordType, a, ptr, txt, aaaa, srv, RecordData, plain, service, items, encode_items,
  encode_srv, encode_record_data,
}
use go_like.Registry.Mdns.Unpacking.{
  decode_items, decode_srv, decode_ptr, decode_aaaa, decode_record_data,
}
use go_like.Registry.Mdns.NameWire.{
  At, At-suc, At-skip, At-take, read_byte-At, read_u16-write_u16, IsName, encode_name-IsName,
  decode_name-wire,
}

exact_octet-octet_text : (b : ℕ) → b < 256 → exact_octet (octet_text b) ≡ ok b
unfolding exact_octet octet_text
exact_octet-octet_text b h = ground arith

octet_text-Free : (b : ℕ) → b < 256 → Free 46 (octet_text b)
unfolding octet_text
octet_text-Free b h = elim (Bool-cases (ltb b 10)) [
  | inl e ↦ rw (e, octet_text) (ground arith)
  | inr n ↦ elim (Bool-cases (ltb b 100)) [
    | inl e ↦ rw (n, octet_text) (rw e (ground arith))
    | inr m ↦ rw (n, octet_text) (rw m (ground arith))
  ]
]

encode_ipv4-decode_ipv4 :
    (b0 b1 b2 b3 : ℕ)
    → b0 < 256
    → b1 < 256
    → b2 < 256
    → b3 < 256
    → encode_ipv4 (decode_ipv4 (b0 ∷ b1 ∷ b2 ∷ b3 ∷ [])) ≡ ok (b0 ∷ b1 ∷ b2 ∷ b3 ∷ [])
unfolding encode_ipv4 decode_ipv4
encode_ipv4-decode_ipv4 b0 b1 b2 b3 h0 h1 h2 h3 =
    rw
      (
        split-join 46 (octet_text b0) (octet_text b1 ∷ octet_text b2 ∷ octet_text b3 ∷ []) (
          octet_text-Free b0 h0,
          (octet_text-Free b1 h1, (octet_text-Free b2 h2, (octet_text-Free b3 h3, tt))),
        ),
        encode_ipv4,
      )
      (rw (exact_octet-octet_text b0 h0, exact_octets)
        (rw (exact_octet-octet_text b1 h1)
          (rw (exact_octet-octet_text b2 h2) (rw (exact_octet-octet_text b3 h3) refl))))

-- The payloads that survive a trip over the wire: an IPv4 literal of four decimals, an IPv6 literal
-- in the form in which it is decoded, normalized names, any TXT items.
pub data Travels : DnsRecordType → RecordData → Type 0 where
  address :
      (b0 b1 b2 b3 : ℕ)
      → b0 < 256
      → b1 < 256
      → b2 < 256
      → b3 < 256
      → Travels a (plain (decode_ipv4 (b0 ∷ b1 ∷ b2 ∷ b3 ∷ [])))
  literal :
      (value : Text) (bytes : List ℕ)
      → encode_ipv6 value ≡ ok bytes
      → decode_ipv6 bytes ≡ ok value
      → Travels aaaa (plain value)
  pointer : (ls : List Text) → IsName ls → Travels ptr (plain (dotted ls))
  located :
      (priority weight port : ℕ) (ls : List Text)
      → IsName ls
      → Travels srv (
          service
            (record { priority = priority; weight = weight; port = port; target = dotted ls }))
  texts : (value : List (List ℕ)) → Travels txt (items value)

encode_items-cons :
    (item : List ℕ) (value : List (List ℕ)) (bytes : List ℕ)
    → encode_items (item ∷ value) ≡ ok bytes
    → (more : List ℕ) × (encode_items value ≡ ok more) × (bytes ≡ length item ∷ (item ++ more))
unfolding encode_items
encode_items-cons item value bytes e = elim (Bool-cases (leb (length item) 255)) [
  | inr long ↦ absurd (ground arith)
  | inl short ↦
      let e' : (encode_items value >>= λ more. ok (length item ∷ (item ++ more))) ≡ ok bytes =
        rw short at e in
      let (more, first, done) = bind_ok (encode_items value) _ e' in
      (more, first, sym (ok-injective done))
]

decode_items-encode_items :
    (fuel : ℕ) (packet : List ℕ) (o end : ℕ) (value : List (List ℕ)) (bytes rest : List ℕ)
    → encode_items value ≡ ok bytes
    → length bytes ≤ fuel
    → end ≡ o + length bytes
    → At packet o (bytes ++ rest)
    → decode_items fuel packet o end ≡ ok value
unfolding decode_items encode_items
decode_items-encode_items zero packet o end [] bytes rest e f g at =
    let none_left : bytes ≡ [] = sym (ok-injective e) in ground (arith, ap length none_left)
decode_items-encode_items (suc fuel) packet o end [] bytes rest e f g at =
    let none_left : bytes ≡ [] = sym (ok-injective e) in
    let stop : ltb o end ≡ false = ground (arith, ap length none_left) in
    rw (stop, decode_items) refl
decode_items-encode_items zero packet o end (item ∷ value) bytes rest e f g at =
    let (more, first, done) = encode_items-cons item value bytes e in
    absurd (omega (arith, ap length done))
decode_items-encode_items (suc fuel) packet o end (item ∷ value) bytes rest e f g at =
    let (more, first, done) = encode_items-cons item value bytes e in
    let size : length bytes ≡ suc (length item + length more) =
      omega (arith, ap length done, length-append item more) in
    let at' : At packet o (length item ∷ (item ++ (more ++ rest))) =
      at ∙ ap (λ bs. bs ++ rest) done ∙ ap (◌∷◌ (length item)) (append_assoc item more rest) in
    let behind = At-suc packet o (length item) (item ++ (more ++ rest)) at' in
    let goes : ltb o end ≡ true = ground arith in
    let inside : leb (suc o + length item) end ≡ true = ground arith in
    rw (goes, decode_items)
      (rw (read_byte-At packet o (length item) (item ++ (more ++ rest)) at') (
        rw inside (
          rw
            (decode_items-encode_items fuel packet (suc o + length item) end value more rest first
              (omega arith) (omega arith) (At-skip packet (suc o) item (more ++ rest) behind))
            (rw (At-take packet (suc o) item (more ++ rest) behind) refl))))

decode_ptr-wire :
    (packet : List ℕ) (start : ℕ) (ls : List Text) (rest : List ℕ)
    → IsName ls
    → At packet start (wire ls ++ rest)
    → decode_ptr packet start (start + length (wire ls)) ≡ ok (plain (dotted ls))
unfolding decode_ptr
decode_ptr-wire packet start ls rest h at =
    rw (decode_name-wire packet start ls rest h at, decode_ptr)
      (rw (==_refl (start + length (wire ls))) refl)

wire-nonempty : (ls : List Text) → 1 ≤ length (wire ls)
unfolding wire
wire-nonempty [] = omega arith
wire-nonempty (l ∷ ls) = omega arith

pub chain3 :
    (xs ys zs ws rest : List ℕ)
    → (xs ++ (ys ++ (zs ++ ws))) ++ rest ≡ xs ++ (ys ++ (zs ++ (ws ++ rest)))
chain3 xs ys zs ws rest = simp append_assoc

decode_srv-encode_srv :
    (packet : List ℕ) (start priority weight port : ℕ) (ls : List Text) (bytes rest : List ℕ)
    → IsName ls
    → encode_srv (record { priority = priority; weight = weight; port = port; target = dotted ls })
      ≡ ok bytes
    → At packet start (bytes ++ rest)
    → decode_srv packet start (length bytes) (start + length bytes)
      ≡ ok (
          service
            (record { priority = priority; weight = weight; port = port; target = dotted ls }))
unfolding decode_srv encode_srv
decode_srv-encode_srv packet start priority weight port ls bytes rest h e at =
    let (p, ep, e1) = bind_ok (write_u16 priority) _ e in
    let (w, ew, e2) = bind_ok (write_u16 weight) _ e1 in
    let (q, eq, e3) = bind_ok (write_u16 port) _ e2 in
    let e4 : ok (p ++ (w ++ (q ++ wire ls))) ≡ ok bytes = rw (encode_name-IsName ls h) at e3 in
    let done = ok-injective e4 in
    let at0 : At packet start (p ++ (w ++ (q ++ (wire ls ++ rest)))) =
      at ∙ ap (λ bs. bs ++ rest) (sym done) ∙ chain3 p w q (wire ls) rest in
    let (r1, at1, l1, _) = read_u16-write_u16 packet start priority p _ ep at0 in
    let (r2, at2, l2, _) = read_u16-write_u16 packet (suc (suc start)) weight w _ ew at1 in
    let (r3, at3, l3, _) =
      read_u16-write_u16 packet (suc (suc (suc (suc start)))) port q _ eq at2 in
    let o = suc (suc (suc (suc (suc (suc start))))) in
    let size : length bytes ≡ 6 + length (wire ls) = omega (
      arith,
      ap length done,
      length-append p (w ++ (q ++ wire ls)),
      length-append w (q ++ wire ls),
      length-append q (wire ls),
    ) in
    let enough : leb 7 (length bytes) ≡ true = ground (arith, wire-nonempty ls) in
    let arrived : o + length (wire ls) == start + length bytes ≡ true = ground arith in
    rw (enough, decode_srv)
      (rw r1 (rw r2 (rw r3 (rw (decode_name-wire packet o ls rest h at3) (rw arrived refl)))))

decode_aaaa-literal :
    (packet : List ℕ) (start : ℕ) (value : Text) (bytes rest : List ℕ)
    → decode_ipv6 bytes ≡ ok value
    → At packet start (bytes ++ rest)
    → decode_aaaa (take (length bytes) (drop start packet)) ≡ ok (plain value)
unfolding decode_aaaa
decode_aaaa-literal packet start value bytes rest d at =
    rw (At-take packet start bytes rest at, decode_aaaa) (rw d refl)

decode_a-address :
    (packet : List ℕ) (start b0 b1 b2 b3 : ℕ) (bytes rest : List ℕ)
    → bytes ≡ b0 ∷ b1 ∷ b2 ∷ b3 ∷ []
    → At packet start (bytes ++ rest)
    → decode_record_data packet a start (length bytes)
      ≡ ok (plain (decode_ipv4 (b0 ∷ b1 ∷ b2 ∷ b3 ∷ [])))
unfolding decode_record_data
decode_a-address packet start b0 b1 b2 b3 bytes rest done at =
    let size : length bytes == 4 ≡ true = ap (λ bs. length bs == 4) done in
    rw (size, decode_record_data)
      (ap (λ bs. ok (plain (decode_ipv4 bs))) (At-take packet start bytes rest at ∙ done))

-- A payload that was written is read back.
pub decode_record_data-encode_record_data :
    (packet : List ℕ) (start : ℕ) (type : DnsRecordType) (content : RecordData)
    (bytes rest : List ℕ)
    → Travels type content
    → encode_record_data type content ≡ ok bytes
    → At packet start (bytes ++ rest)
    → decode_record_data packet type start (length bytes) ≡ ok content
unfolding decode_record_data encode_record_data
decode_record_data-encode_record_data packet start a _ bytes rest (address b0 b1 b2 b3 h0 h1 h2 h3)
      e at =
    decode_a-address packet start b0 b1 b2 b3 bytes rest
      (ok-injective (sym e ∙ encode_ipv4-decode_ipv4 b0 b1 b2 b3 h0 h1 h2 h3)) at
decode_record_data-encode_record_data packet start aaaa _ bytes rest (literal value bytes' w d) e
      at =
    decode_aaaa-literal packet start value bytes rest
      (subst (λ bs. decode_ipv6 bs ≡ ok value) (ok-injective (sym w ∙ e)) d) at
decode_record_data-encode_record_data packet start ptr _ bytes rest (pointer ls h) e at =
    let done : wire ls ≡ bytes = ok-injective (sym (encode_name-IsName ls h) ∙ e) in
    subst (λ bs. decode_record_data packet ptr start (length bs) ≡ ok (plain (dotted ls))) done
      (decode_ptr-wire packet start ls rest h (at ∙ ap (λ bs. bs ++ rest) (sym done)))
decode_record_data-encode_record_data packet start srv _ bytes rest (located p w q ls h) e at =
    decode_srv-encode_srv packet start p w q ls bytes rest h e at
decode_record_data-encode_record_data packet start txt _ bytes rest (texts value) e at =
    rw
      (
        decode_items-encode_items (length bytes) packet start (start + length bytes) value bytes
            rest e (omega arith) refl at,
        decode_record_data,
      )
      refl
