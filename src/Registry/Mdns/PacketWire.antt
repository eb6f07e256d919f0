-- ===== src/Registry/Mdns/PacketWire.antt =====
-- packages/registry/mdns/src/dns.ts: reading back the records and the messages that were written.
use mathlib.Core.List.{append_assoc, append-nil}
use go_like.Prelude.{
  ℕ, suc, ◌+◌, ◌%◌, ◌≤◌, ◌≡◌, refl, sym, ap, ◌∙◌, subst, arith, Bool, true, false, leb, List, [],
  ◌∷◌, ◌++◌, Option, none, some, ok, Thrown, range_error, require, ◌>>=◌, ◌>>◌, bind_ok,
  ok-injective, Text, All, length, length-append, ◌==◌, if◌then◌else◌,
}
use go_like.Registry.Mdns.Names.{write_u16, write_u32, dotted, wire, encode_name}
use go_like.Registry.Mdns.Packets.{
  DnsRecordType, a, ptr, txt, aaaa, srv, DnsRecord, DnsQuestion, DnsPacket, type_code, record_type,
  packet_limit, encode_record_data, class_of, encode_record, encode_records, question_code,
  encode_questions, encode_header, encode_dns_packet,
}
use go_like.Registry.Mdns.Unpacking.{
  decode_record_data, decode_known, decode_record, decode_section, question_type, decode_questions,
  Header, supported_flags, decode_header, decode_body, decode_dns_packet,
}
use go_like.Registry.Mdns.NameWire.{
  At, At-skip, read_u16-write_u16, read_u32-write_u32, IsName, encode_name-IsName, decode_name-wire,
}
use go_like.Registry.Mdns.RecordWire.{chain3, Travels, decode_record_data-encode_record_data}

-- A record under a normalized name, with a payload that travels.
pub record IsSendable (r : DnsRecord) : Type 0 where
  pub labels : List Text
  pub named : IsName labels
  pub spelled : r.name ≡ dotted labels
  pub payload : Travels r.type r.content

record_type-type_code : (type : DnsRecordType) → record_type (type_code type) ≡ some type
unfolding record_type type_code
record_type-type_code a = refl
record_type-type_code ptr = refl
record_type-type_code txt = refl
record_type-type_code aaaa = refl
record_type-type_code srv = refl

class_of-remainder : (flush : Bool) → class_of flush % 32768 == 1 ≡ true
class_of-remainder true = refl
class_of-remainder false = refl

class_of-flush : (flush : Bool) → leb 32768 (class_of flush) ≡ flush
class_of-flush true = refl
class_of-flush false = refl

decode_known-class_of :
    (packet : List ℕ) (r : DnsRecord) (start size : ℕ)
    → r.ttl ≤ 2147483647
    → decode_record_data packet r.type start size ≡ ok r.content
    → decode_known packet
        (record {
          name = r.name;
          class = class_of r.flush;
          ttl = r.ttl;
          size = size;
          start = start;
        })
        (some r.type)
      ≡ ok (some r, start + size)
unfolding decode_known
decode_known-class_of packet r start size fits content =
    let small : leb 2147483648 r.ttl ≡ false = ground arith in
    rw (class_of-remainder r.flush, decode_known)
      (rw content (rw small (rw (class_of-flush r.flush) refl)))

chain5 :
    (n c k t s d rest : List ℕ)
    → (n ++ (c ++ (k ++ (t ++ (s ++ d))))) ++ rest ≡ n ++ (c ++ (k ++ (t ++ (s ++ (d ++ rest)))))
chain5 n c k t s d rest = simp append_assoc

-- A record that was written is read back, with the cursor behind it.
decode_record-encode_record :
    (packet : List ℕ) (o : ℕ) (r : DnsRecord) (bytes rest : List ℕ)
    → IsSendable r
    → encode_record r ≡ ok bytes
    → At packet o (bytes ++ rest)
    → decode_record packet o ≡ ok (some r, o + length bytes)
unfolding decode_record encode_record
decode_record-encode_record packet o r bytes rest h e at =
    let n = wire h.labels in
    let (_, e0, e1) = bind_ok (encode_name r.name) _ e in
    let same : _ ≡ n =
      ok-injective (sym e0 ∙ ap encode_name h.spelled ∙ encode_name-IsName h.labels h.named) in
    let (c, ec, e2) = bind_ok (write_u16 (type_code r.type)) _ e1 in
    let (k, ek, e3) = bind_ok (write_u16 (class_of r.flush)) _ e2 in
    let (t, et, e4) = bind_ok (write_u32 r.ttl) _ e3 in
    let (d, ed, e5) = bind_ok (encode_record_data r.type r.content) _ e4 in
    let (s, es, e6) = bind_ok (write_u16 (length d)) _ e5 in
    let done : bytes ≡ n ++ (c ++ (k ++ (t ++ (s ++ d)))) =
      sym (ok-injective e6) ∙ ap (λ m. m ++ (c ++ (k ++ (t ++ (s ++ d))))) same in
    let at0 : At packet o (n ++ (c ++ (k ++ (t ++ (s ++ (d ++ rest)))))) =
      at ∙ ap (λ bs. bs ++ rest) done ∙ chain5 n c k t s d rest in
    let o1 = o + length n in
    let o2 = suc (suc o1) in
    let o3 = suc (suc o2) in
    let o4 = suc (suc (suc (suc o3))) in
    let o5 = suc (suc o4) in
    let at1 = At-skip packet o n _ at0 in
    let (r1, at2, l1, _) = read_u16-write_u16 packet o1 (type_code r.type) c _ ec at1 in
    let (r2, at3, l2, _) = read_u16-write_u16 packet o2 (class_of r.flush) k _ ek at2 in
    let (r3, at4, l3, small) = read_u32-write_u32 packet o3 r.ttl t _ et at3 in
    let (r4, at5, l4, whole) = read_u16-write_u16 packet o4 (length d) s _ es at4 in
    let inside : leb (o5 + length d) (length packet) ≡ true =
      ground (arith, whole, length-append d rest) in
    let content =
      decode_record_data-encode_record_data packet o5 r.type r.content d rest h.payload ed at5 in
    let size : length bytes ≡ length n + 10 + length d = omega (
      arith,
      ap length done,
      length-append n (c ++ (k ++ (t ++ (s ++ d)))),
      length-append c (k ++ (t ++ (s ++ d))),
      length-append k (t ++ (s ++ d)),
      length-append t (s ++ d),
      length-append s d,
    ) in
    rw (decode_name-wire packet o h.labels _ h.named at0, decode_record)
      (rw r1 (
        rw r2 (
          rw r3 (
            rw r4 (
              rw inside (
                rw (record_type-type_code r.type) (
                  rw (sym h.spelled) (
                    decode_known-class_of packet r o5 (length d) small content
                    ∙ ap (λ k. ok (some r, k)) (omega arith)))))))))

decode_section-encode_records :
    (packet : List ℕ) (o : ℕ) (rs : List DnsRecord) (bytes rest : List ℕ)
    → All IsSendable rs
    → encode_records rs ≡ ok bytes
    → At packet o (bytes ++ rest)
    → decode_section (length rs) packet o ≡ ok (rs, o + length bytes)
unfolding decode_section encode_records
decode_section-encode_records packet o [] bytes rest h e at =
    ap (λ k. ok ([], k)) (omega (arith, ap length (ok-injective e)))
decode_section-encode_records packet o (r ∷ rs) bytes rest h e at =
    let (first, e1, e2) = bind_ok (encode_record r) _ e in
    let (more, e3, e4) = bind_ok (encode_records rs) _ e2 in
    let done : bytes ≡ first ++ more = sym (ok-injective e4) in
    let at' : At packet o (first ++ (more ++ rest)) =
      at ∙ ap (λ bs. bs ++ rest) done ∙ append_assoc first more rest in
    rw (decode_record-encode_record packet o r first (more ++ rest) h.0 e1 at', decode_section)
      (rw
        (decode_section-encode_records packet (o + length first) rs more rest h.1 e3
          (At-skip packet o first (more ++ rest) at'))
        (ap (λ k. ok (r ∷ rs, k)) (omega (arith, ap length done, length-append first more))))

-- A question about a normalized name.
pub record IsAskable (q : DnsQuestion) : Type 0 where
  pub labels : List Text
  pub named : IsName labels
  pub spelled : q.name ≡ dotted labels

question_type-question_code :
    (type : Option DnsRecordType) → question_type (question_code type) ≡ ok type
unfolding question_type record_type type_code
question_type-question_code none = refl
question_type-question_code (some a) = refl
question_type-question_code (some ptr) = refl
question_type-question_code (some txt) = refl
question_type-question_code (some aaaa) = refl
question_type-question_code (some srv) = refl

decode_questions-encode_questions :
    (packet : List ℕ) (o : ℕ) (qs : List DnsQuestion) (bytes rest : List ℕ)
    → All IsAskable qs
    → encode_questions qs ≡ ok bytes
    → At packet o (bytes ++ rest)
    → decode_questions (length qs) packet o ≡ ok (qs, o + length bytes)
unfolding decode_questions encode_questions
decode_questions-encode_questions packet o [] bytes rest h e at =
    ap (λ k. ok ([], k)) (omega (arith, ap length (ok-injective e)))
decode_questions-encode_questions packet o (q ∷ qs) bytes rest h e at =
    let n = wire h.0.labels in
    let (m, e0, e1) = bind_ok (encode_name q.name) _ e in
    let same : m ≡ n =
      ok-injective
        (sym e0 ∙ ap encode_name h.0.spelled ∙ encode_name-IsName h.0.labels h.0.named) in
    let (c, ec, e2) = bind_ok (write_u16 (question_code q.type)) _ e1 in
    let (k, ek, e3) =
      bind_ok (write_u16 1)
        (λ class. encode_questions qs >>= λ more. ok (m ++ (c ++ (class ++ more)))) e2 in
    let (more, em, e4) = bind_ok (encode_questions qs) _ e3 in
    let done : bytes ≡ n ++ (c ++ (k ++ more)) =
      sym (ok-injective e4) ∙ ap (λ m. m ++ (c ++ (k ++ more))) same in
    let at0 : At packet o (n ++ (c ++ (k ++ (more ++ rest)))) =
      at ∙ ap (λ bs. bs ++ rest) done ∙ chain3 n c k more rest in
    let o1 = o + length n in
    let o2 = suc (suc o1) in
    let o3 = suc (suc o2) in
    let at1 = At-skip packet o n _ at0 in
    let (r1, at2, l1, _) = read_u16-write_u16 packet o1 (question_code q.type) c _ ec at1 in
    let (r2, at3, l2, _) = read_u16-write_u16 packet o2 1 k _ ek at2 in
    let size : length bytes ≡ length n + 4 + length more = omega (
      arith,
      ap length done,
      length-append n (c ++ (k ++ more)),
      length-append c (k ++ more),
      length-append k more,
    ) in
    rw (decode_name-wire packet o h.0.labels _ h.0.named at0, decode_questions)
      (rw r1 (
        rw (question_type-question_code q.type) (
          rw r2 (
            rw (decode_questions-encode_questions packet o3 qs more rest h.1 em at3)
              (rw (sym h.0.spelled) (ap (λ k. ok (q ∷ qs, k)) (omega arith)))))))

flags-supported : (response : Bool) → supported_flags (if response then 33792 else 0) ≡ true
flags-supported true = refl
flags-supported false = refl

flags-response : (response : Bool) → leb 32768 (if response then 33792 else 0) ≡ response
flags-response true = refl
flags-response false = refl

abbrev header_of : DnsPacket → Header
header_of p = record {
  id = p.id;
  flags = if p.response then 33792 else 0;
  question_count = length p.questions;
  answer_count = length p.answers;
  authority_count = length p.authorities;
  additional_count = length p.additionals;
}

decode_header-encode_header :
    (p : DnsPacket) (packet header rest : List ℕ)
    → encode_header p ≡ ok header
    → packet ≡ header ++ rest
    → (decode_header packet ≡ ok (header_of p)) × (length header ≡ 12)
unfolding decode_header encode_header
decode_header-encode_header p packet header rest e at =
    let flags = if p.response then 33792 else 0 in
    let (b0, w0, e1) = bind_ok (write_u16 p.id) _ e in
    let (b1, w1, e2) = bind_ok (write_u16 flags) _ e1 in
    let (b2, w2, e3) = bind_ok (write_u16 (length p.questions)) _ e2 in
    let (b3, w3, e4) = bind_ok (write_u16 (length p.answers)) _ e3 in
    let (b4, w4, e5) = bind_ok (write_u16 (length p.authorities)) _ e4 in
    let (b5, w5, e6) = bind_ok (write_u16 (length p.additionals)) _ e5 in
    let done : header ≡ b0 ++ (b1 ++ (b2 ++ (b3 ++ (b4 ++ b5)))) = sym (ok-injective e6) in
    let at0 : At packet 0 (b0 ++ (b1 ++ (b2 ++ (b3 ++ (b4 ++ (b5 ++ rest)))))) =
      at ∙ ap (λ bs. bs ++ rest) done ∙ chain5 b0 b1 b2 b3 b4 b5 rest in
    let (r0, at1, l0, _) = read_u16-write_u16 packet 0 p.id b0 _ w0 at0 in
    let (r1, at2, l1, _) = read_u16-write_u16 packet 2 flags b1 _ w1 at1 in
    let (r2, at3, l2, _) = read_u16-write_u16 packet 4 (length p.questions) b2 _ w2 at2 in
    let (r3, at4, l3, _) = read_u16-write_u16 packet 6 (length p.answers) b3 _ w3 at3 in
    let (r4, at5, l4, _) = read_u16-write_u16 packet 8 (length p.authorities) b4 _ w4 at4 in
    let (r5, at6, l5, _) = read_u16-write_u16 packet 10 (length p.additionals) b5 _ w5 at5 in
    (
      rw (r0, decode_header)
          (rw r1 (rw (flags-supported p.response) (rw r2 (rw r3 (rw r4 (rw r5 refl)))))),
      omega (
        arith,
        ap length done,
        length-append b0 (b1 ++ (b2 ++ (b3 ++ (b4 ++ b5)))),
        length-append b1 (b2 ++ (b3 ++ (b4 ++ b5))),
        length-append b2 (b3 ++ (b4 ++ b5)),
        length-append b3 (b4 ++ b5),
        length-append b4 b5,
      ),
    )

-- Normalized names in all four sections, and payloads that travel.
pub record IsMessage (p : DnsPacket) : Type 0 where
  pub questions : All IsAskable p.questions
  pub answers : All IsSendable p.answers
  pub authorities : All IsSendable p.authorities
  pub additionals : All IsSendable p.additionals

chain4 :
    (xs ys zs us vs : List ℕ)
    → xs ++ (ys ++ (zs ++ (us ++ vs))) ≡ xs ++ (ys ++ (zs ++ (us ++ (vs ++ []))))
chain4 xs ys zs us vs = ap (λ m. xs ++ (ys ++ (zs ++ (us ++ m)))) (sym (append-nil vs))

decode_body-header_of :
    (p : DnsPacket) (packet header questions answers authorities additionals : List ℕ)
    → IsMessage p
    → length header ≡ 12
    → packet ≡ header ++ (questions ++ (answers ++ (authorities ++ additionals)))
    → encode_questions p.questions ≡ ok questions
    → encode_records p.answers ≡ ok answers
    → encode_records p.authorities ≡ ok authorities
    → encode_records p.additionals ≡ ok additionals
    → decode_body packet (header_of p) ≡ ok p
unfolding decode_body
decode_body-header_of p packet header qs xs bs cs h twelve e eq ea eb ec =
    let at : At packet 0 (header ++ (qs ++ (xs ++ (bs ++ (cs ++ []))))) =
      e ∙ chain4 header qs xs bs cs in
    let start : 0 + length header ≡ 12 = omega (arith, twelve) in
    let at0 : At packet 12 (qs ++ (xs ++ (bs ++ (cs ++ [])))) =
      subst (λ k. At packet k (qs ++ (xs ++ (bs ++ (cs ++ []))))) start
        (At-skip packet 0 header _ at) in
    let at1 = At-skip packet 12 qs _ at0 in
    let at2 = At-skip packet (12 + length qs) xs _ at1 in
    let at3 = At-skip packet (12 + length qs + length xs) bs _ at2 in
    let size : 12 + length qs + length xs + length bs + length cs == length packet ≡ true = ground (
      arith,
      twelve,
      ap length e,
      length-append header (qs ++ (xs ++ (bs ++ cs))),
      length-append qs (xs ++ (bs ++ cs)),
      length-append xs (bs ++ cs),
      length-append bs cs,
    ) in
    rw
      (decode_questions-encode_questions packet 12 p.questions qs _ h.questions eq at0, decode_body)
      (rw (decode_section-encode_records packet (12 + length qs) p.answers xs _ h.answers ea at1) (
        rw
          (decode_section-encode_records packet (12 + length qs + length xs) p.authorities bs _
            h.authorities eb at2)
          (rw
            (decode_section-encode_records packet (12 + length qs + length xs + length bs)
              p.additionals cs [] h.additionals ec at3)
            (rw size (rw (flags-response p.response) refl)))))

ok_under_require :
    (test : Bool) (error : Thrown) {out bytes : List ℕ}
    → (require test error >> ok out) ≡ ok bytes
    → (test ≡ true) × (out ≡ bytes)
ok_under_require true error e = (refl, ok-injective e)
ok_under_require false error e = absurd cc

-- A message of normalized names and of payloads that travel is read back from its bytes.
pub decode_dns_packet-encode_dns_packet :
    (p : DnsPacket) (maximum_bytes : ℕ) (bytes : List ℕ)
    → IsMessage p
    → encode_dns_packet p maximum_bytes ≡ ok bytes
    → decode_dns_packet bytes maximum_bytes ≡ ok p
unfolding decode_dns_packet encode_dns_packet
decode_dns_packet-encode_dns_packet p maximum_bytes bytes h e =
    let (limit, e0, e1) = bind_ok (packet_limit maximum_bytes) _ e in
    let (header, eh, e2) = bind_ok (encode_header p) _ e1 in
    let (qs, eq, e3) = bind_ok (encode_questions p.questions) _ e2 in
    let (xs, ea, e4) = bind_ok (encode_records p.answers) _ e3 in
    let (bs, eb, e5) = bind_ok (encode_records p.authorities) _ e4 in
    let (cs, ec, e6) = bind_ok (encode_records p.additionals) _ e5 in
    let (within, done) =
      ok_under_require (leb (length (header ++ (qs ++ (xs ++ (bs ++ cs))))) limit) range_error e6 in
    let (read, twelve) =
      decode_header-encode_header p bytes header (qs ++ (xs ++ (bs ++ cs))) eh (sym done) in
    let fits : leb (length bytes) limit ≡ true =
      ap (λ m. leb (length m) limit) (sym done) ∙ within in
    let long : leb 12 (length bytes) ≡ true =
      ground (arith, twelve, ap length done, length-append header (qs ++ (xs ++ (bs ++ cs)))) in
    rw (e0, decode_dns_packet)
      (rw fits (
        rw long (
          rw read
            (decode_body-header_of p bytes header qs xs bs cs h twelve (sym done) eq ea eb ec))))
