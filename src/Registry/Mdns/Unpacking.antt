-- ===== src/Registry/Mdns/Unpacking.antt =====
-- packages/registry/mdns/src/dns.ts: reading records and whole messages.
use go_like.Prelude.{
  ℕ, zero, suc, ◌+◌, ◌/◌, ◌%◌, Bool, true, false, ◌&&◌, ltb, leb, ◌==◌, if◌then◌else◌, List, [],
  ◌∷◌, Option, none, some, Result, ok, throw, type_error, range_error, ◌>>=◌, ◌>>◌, require, Text,
  length, take, drop,
}
use go_like.Registry.Mdns.Names.{read_byte, read_u16, read_u32, decode_name}
use go_like.Registry.Mdns.Addresses.{decode_ipv4, decode_ipv6}
use go_like.Registry.Mdns.Packets.{
  DnsRecordType, a, ptr, txt, aaaa, srv, RecordData, plain, service, items, DnsRecord, DnsQuestion,
  DnsPacket, record_type, packet_limit,
}

-- The items up to an end, with the bytes between as fuel: each item takes one byte at least.
unfoldable pub decode_items : ℕ → List ℕ → ℕ → ℕ → Result (List (List ℕ))
unfolding read_byte
decode_items zero packet offset end = if ltb offset end then throw type_error else ok []
decode_items (suc fuel) packet offset end = elim (ltb offset end) [
  | false ↦ ok []
  | true ↦
      (read_byte packet offset >>= λ (item_length, start).
      require (leb (start + item_length) end) type_error
      >> (decode_items fuel packet (start + item_length) end >>= λ rest.
          ok (take item_length (drop start packet) ∷ rest)))
]

unfoldable pub decode_srv : List ℕ → ℕ → ℕ → ℕ → Result RecordData
unfolding read_u16 decode_name
decode_srv packet start size end = do
  require (leb 7 size) type_error
  (priority, o) ← read_u16 packet start
  (weight, o') ← read_u16 packet o
  (port, o'') ← read_u16 packet o'
  (target, cursor) ← decode_name packet o''
  require (cursor == end) type_error
  ok (service (record { priority = priority; weight = weight; port = port; target = target }))

unfoldable pub decode_ptr : List ℕ → ℕ → ℕ → Result RecordData
unfolding decode_name
decode_ptr packet start end = do
  (name, cursor) ← decode_name packet start
  require (cursor == end) type_error
  ok (plain name)

unfoldable pub decode_aaaa : List ℕ → Result RecordData
unfolding decode_ipv6
decode_aaaa bytes = do literal ← decode_ipv6 bytes; ok (plain literal)

-- `decodeRecordData`, whose caller has checked that the packet reaches to the end.
unfoldable pub decode_record_data : List ℕ → DnsRecordType → ℕ → ℕ → Result RecordData
unfolding decode_ipv4 decode_ipv6 decode_name decode_srv decode_items decode_ptr decode_aaaa
decode_record_data packet a start size = do
  require (size == 4) type_error
  ok (plain (decode_ipv4 (take size (drop start packet))))
decode_record_data packet aaaa start size = decode_aaaa (take size (drop start packet))
decode_record_data packet ptr start size = decode_ptr packet start (start + size)
decode_record_data packet srv start size = decode_srv packet start size (start + size)
decode_record_data packet txt start size = do
  value ← decode_items size packet start (start + size)
  ok (items value)

-- A record of a type that is not known is skipped, before its class is looked at.
pub record RecordHeader : Type 0 where
  pub name : Text
  pub class : ℕ
  pub ttl : ℕ
  pub size : ℕ
  pub start : ℕ

unfoldable pub decode_known :
    List ℕ → RecordHeader → Option DnsRecordType → Result (Option DnsRecord × ℕ)
unfolding decode_record_data
decode_known packet h none = ok (none, h.start + h.size)
decode_known packet h (some type) = do
  require (h.class % 32768 == 1) type_error
  content ← decode_record_data packet type h.start h.size
  ok (
    some (record {
      name = h.name;
      type = type;
      ttl = if leb 2147483648 h.ttl then 0 else h.ttl;
      flush = leb 32768 h.class;
      content = content;
    }),
    h.start + h.size,
  )

unfoldable pub decode_record : List ℕ → ℕ → Result (Option DnsRecord × ℕ)
unfolding decode_name read_u16 read_u32 record_type decode_known
decode_record packet offset = do
  (name, o) ← decode_name packet offset
  (code, o') ← read_u16 packet o
  (class, o'') ← read_u16 packet o'
  (ttl, o''') ← read_u32 packet o''
  (size, start) ← read_u16 packet o'''
  require (leb (start + size) (length packet)) type_error
  decode_known packet (record { name = name; class = class; ttl = ttl; size = size; start = start })
      (record_type code)

abbrev pub kept : Option DnsRecord → List DnsRecord → List DnsRecord
kept none rs = rs
kept (some r) rs = r ∷ rs

-- `section`
unfoldable pub decode_section : ℕ → List ℕ → ℕ → Result (List DnsRecord × ℕ)
unfolding decode_record
decode_section zero packet offset = ok ([], offset)
decode_section (suc count) packet offset = do
  (first, o) ← decode_record packet offset
  (rest, end) ← decode_section count packet o
  ok (kept first rest, end)

unfoldable pub question_type : ℕ → Result (Option DnsRecordType)
unfolding record_type
question_type code =
    if code == 255
    then ok none
    else elim (record_type code) [ none ↦ throw type_error | some type ↦ ok (some type) ]

unfoldable pub decode_questions : ℕ → List ℕ → ℕ → Result (List DnsQuestion × ℕ)
unfolding decode_name read_u16 question_type
decode_questions zero packet offset = ok ([], offset)
decode_questions (suc count) packet offset = do
  (name, o) ← decode_name packet offset
  (code, o') ← read_u16 packet o
  type ← question_type code
  (class, o'') ← read_u16 packet o'
  require (class % 32768 == 1) type_error
  (rest, end) ← decode_questions count packet o''
  ok (record { name = name; type = type } ∷ rest, end)

pub record Header : Type 0 where
  pub id : ℕ
  pub flags : ℕ
  pub question_count : ℕ
  pub answer_count : ℕ
  pub authority_count : ℕ
  pub additional_count : ℕ

-- `(flags & 0x7800) !== 0 || (flags & 0x000f) !== 0`, negated
abbrev pub supported_flags : ℕ → Bool
supported_flags flags = (flags / 2048 % 16 == 0) && (flags % 16 == 0)

unfoldable pub decode_header : List ℕ → Result Header
unfolding read_u16
decode_header packet = do
  (id, o) ← read_u16 packet 0
  (flags, o') ← read_u16 packet o
  require (supported_flags flags) type_error
  (questions, o'') ← read_u16 packet o'
  (answers, o3) ← read_u16 packet o''
  (authorities, o4) ← read_u16 packet o3
  (additionals, o5) ← read_u16 packet o4
  ok (record {
    id = id;
    flags = flags;
    question_count = questions;
    answer_count = answers;
    authority_count = authorities;
    additional_count = additionals;
  })

unfoldable pub decode_body : List ℕ → Header → Result DnsPacket
unfolding decode_questions decode_section
decode_body packet h = do
  (questions, o) ← decode_questions h.question_count packet 12
  (answers, o') ← decode_section h.answer_count packet o
  (authorities, o'') ← decode_section h.authority_count packet o'
  (additionals, end) ← decode_section h.additional_count packet o''
  require (end == length packet) type_error
  ok (record {
    id = h.id;
    response = leb 32768 h.flags;
    questions = questions;
    answers = answers;
    authorities = authorities;
    additionals = additionals;
  })

unfoldable pub decode_dns_packet : List ℕ → ℕ → Result DnsPacket
unfolding packet_limit decode_header decode_body
decode_dns_packet packet maximum_bytes = do
  maximum ← packet_limit maximum_bytes
  require (leb (length packet) maximum) range_error
  require (leb 12 (length packet)) type_error
  h ← decode_header packet
  decode_body packet h
