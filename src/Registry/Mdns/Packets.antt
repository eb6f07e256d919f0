-- ===== src/Registry/Mdns/Packets.antt =====
-- packages/registry/mdns/src/dns.ts: resource records and whole messages, and writing them.
use go_like.Prelude.{
  ℕ, Bool, ◌||◌, ltb, leb, ◌==◌, if◌then◌else◌, List, [], ◌∷◌, ◌++◌, Option, none, some, Result, ok,
  throw, type_error, range_error, ◌>>=◌, ◌>>◌, require, Text, length,
}
use go_like.Registry.Mdns.Names.{write_u16, write_u32, encode_name}
use go_like.Registry.Mdns.Addresses.{encode_ipv4, encode_ipv6}

pub data DnsRecordType : Type 0 where
  a ptr txt aaaa srv : DnsRecordType

pub record DnsSrvData : Type 0 where
  pub priority : ℕ
  pub weight : ℕ
  pub port : ℕ
  pub target : Text

-- The payload of a record: a literal or a name, SRV data, or the items of a TXT record.
pub data RecordData : Type 0 where
  plain : Text → RecordData
  service : DnsSrvData → RecordData
  items : List (List ℕ) → RecordData

pub record DnsRecord : Type 0 where
  pub name : Text
  pub type : DnsRecordType
  pub ttl : ℕ
  pub flush : Bool
  pub content : RecordData

-- `none` is the type ANY.
pub record DnsQuestion : Type 0 where
  pub name : Text
  pub type : Option DnsRecordType

pub record DnsPacket : Type 0 where
  pub id : ℕ
  pub response : Bool
  pub questions : List DnsQuestion
  pub answers : List DnsRecord
  pub authorities : List DnsRecord
  pub additionals : List DnsRecord

unfoldable pub type_code : DnsRecordType → ℕ
type_code a = 1
type_code ptr = 12
type_code txt = 16
type_code aaaa = 28
type_code srv = 33

unfoldable pub record_type : ℕ → Option DnsRecordType
record_type code =
    if code == 1
    then some a
    else if code == 12
    then some ptr
    else if code == 16
    then some txt
    else if code == 28
    then some aaaa
    else if code == 33
    then some srv
    else none

-- `packetLimit`
unfoldable pub packet_limit : ℕ → Result ℕ
packet_limit value = if ltb value 512 || ltb 1200 value then throw range_error else ok value

unfoldable pub encode_items : List (List ℕ) → Result (List ℕ)
encode_items [] = ok []
encode_items (item ∷ rest) = do
  require (leb (length item) 255) range_error
  more ← encode_items rest
  ok (length item ∷ (item ++ more))

unfoldable pub encode_srv : DnsSrvData → Result (List ℕ)
unfolding write_u16 encode_name
encode_srv value = do
  priority ← write_u16 value.priority
  weight ← write_u16 value.weight
  port ← write_u16 value.port
  target ← encode_name value.target
  ok (priority ++ (weight ++ (port ++ target)))

unfoldable pub encode_record_data : DnsRecordType → RecordData → Result (List ℕ)
unfolding encode_ipv4 encode_ipv6 encode_name encode_srv encode_items
encode_record_data a (plain value) = encode_ipv4 value
encode_record_data aaaa (plain value) = encode_ipv6 value
encode_record_data ptr (plain value) = encode_name value
encode_record_data srv (service value) = encode_srv value
encode_record_data txt (items value) = encode_items value
encode_record_data _ _ = throw type_error

abbrev pub class_of : Bool → ℕ
class_of flush = if flush then 32769 else 1

unfoldable pub encode_record : DnsRecord → Result (List ℕ)
unfolding encode_name write_u16 write_u32 encode_record_data
encode_record r = do
  name ← encode_name r.name
  code ← write_u16 (type_code r.type)
  class ← write_u16 (class_of r.flush)
  ttl ← write_u32 r.ttl
  rdata ← encode_record_data r.type r.content
  size ← write_u16 (length rdata)
  ok (name ++ (code ++ (class ++ (ttl ++ (size ++ rdata)))))

unfoldable pub encode_records : List DnsRecord → Result (List ℕ)
unfolding encode_record
encode_records [] = ok []
encode_records (r ∷ rs) = do first ← encode_record r; rest ← encode_records rs; ok (first ++ rest)

abbrev pub question_code : Option DnsRecordType → ℕ
question_code none = 255
question_code (some type) = type_code type

unfoldable pub encode_questions : List DnsQuestion → Result (List ℕ)
unfolding encode_name write_u16 type_code
encode_questions [] = ok []
encode_questions (q ∷ qs) = do
  name ← encode_name q.name
  code ← write_u16 (question_code q.type)
  class ← write_u16 1
  rest ← encode_questions qs
  ok (name ++ (code ++ (class ++ rest)))

unfoldable pub encode_header : DnsPacket → Result (List ℕ)
unfolding write_u16
encode_header packet = do
  id ← write_u16 packet.id
  flags ← write_u16 (if packet.response then 33792 else 0)
  questions ← write_u16 (length packet.questions)
  answers ← write_u16 (length packet.answers)
  authorities ← write_u16 (length packet.authorities)
  additionals ← write_u16 (length packet.additionals)
  ok (id ++ (flags ++ (questions ++ (answers ++ (authorities ++ additionals)))))

unfoldable pub encode_dns_packet : DnsPacket → ℕ → Result (List ℕ)
unfolding packet_limit encode_header encode_questions encode_records
encode_dns_packet packet maximum_bytes = do
  maximum ← packet_limit maximum_bytes
  header ← encode_header packet
  questions ← encode_questions packet.questions
  answers ← encode_records packet.answers
  authorities ← encode_records packet.authorities
  additionals ← encode_records packet.additionals
  let output = header ++ (questions ++ (answers ++ (authorities ++ additionals)))
  require (leb (length output) maximum) range_error
  ok output
