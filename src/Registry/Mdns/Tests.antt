-- ===== src/Registry/Mdns/Tests.antt =====
-- packages/registry/mdns/src/dns.ts at concrete inputs.
use go_like.Prelude.{
  ℕ, ◌≡◌, ◌≤◌, ◌⊎◌, refl, length, arith, true, false, List, [], ◌∷◌, none, some, ok, throw,
  type_error, Text, same_text, split, join, ends_with, without_last,
}
use go_like.Registry.Mdns.Names.{
  write_u16, write_u32, byte_at, read_byte, read_u16, is_label_char, is_label, lower,
  validate_label, validate_labels, dot, dotted, validate_dns_name, wire, encode_name, decode_label,
  visited, jump, take_label, read_round, read_labels, named, decode_name,
}
use go_like.Registry.Mdns.Addresses.{
  octet, exact_octet, exact_octets, encode_ipv4, octet_text, octet_texts, decode_ipv4, ipv6_words,
}
use go_like.Registry.Mdns.Packets.{
  a, ptr, txt, srv, DnsPacket, plain, service, items, type_code, packet_limit, encode_items,
  encode_srv, encode_record_data, encode_record, encode_records, encode_questions, encode_header,
  encode_dns_packet,
}
use go_like.Registry.Mdns.Unpacking.{
  decode_section, decode_questions, decode_header, decode_body, decode_dns_packet,
}
use go_like.Registry.Mdns.NameWire.{IsName}
use go_like.Registry.Mdns.NameBounds.{decode_name-IsName}
use go_like.Registry.Mdns.RecordWire.{address, pointer, located, texts}
use go_like.Registry.Mdns.PacketWire.{IsMessage, decode_dns_packet-encode_dns_packet}

-- `_h`, `local` and `n1`
abbrev kind_label : Text
kind_label = 95 ∷ 104 ∷ []

abbrev local_label : Text
local_label = 108 ∷ 111 ∷ 99 ∷ 97 ∷ 108 ∷ []

abbrev node_label : Text
node_label = 110 ∷ 49 ∷ []

abbrev kind_labels : List Text
kind_labels = kind_label ∷ local_label ∷ []

abbrev node_labels : List Text
node_labels = node_label ∷ kind_label ∷ local_label ∷ []

-- An answer to a browse: the instance, where it listens, and its metadata.
abbrev announcement : DnsPacket
announcement = record {
  id = 7;
  response = true;
  questions =
      record { name = dotted kind_labels; type = some ptr }
      ∷ record { name = dotted node_labels; type = none }
      ∷ [];
  answers =
      record {
        name = dotted kind_labels;
        type = ptr;
        ttl = 120;
        flush = false;
        content = plain (dotted node_labels);
      }
      ∷ [];
  authorities = [];
  additionals =
      record {
        name = dotted node_labels;
        type = srv;
        ttl = 120;
        flush = true;
        content =
            service (record { priority = 0; weight = 5; port = 8080; target = dotted node_labels });
      }
      ∷ record {
        name = dotted node_labels;
        type = txt;
        ttl = 70000;
        flush = true;
        content = items ((97 ∷ 61 ∷ 49 ∷ []) ∷ [] ∷ []);
      }
      ∷ record {
        name = dotted node_labels;
        type = a;
        ttl = 0;
        flush = true;
        content = plain (decode_ipv4 (192 ∷ 168 ∷ 0 ∷ 10 ∷ []));
      }
      ∷ [];
}

kind_labels-IsName : IsName kind_labels
unfolding is_label is_label_char lower
kind_labels-IsName = record {
  some_label = (λ e. absurd cc);
  all_labels = (
    record { nonempty = (λ e. absurd cc); accepted = refl; lowered = refl; short = omega arith },
    (
      record { nonempty = (λ e. absurd cc); accepted = refl; lowered = refl; short = omega arith },
      tt,
    ),
  );
  fits = omega arith;
}

node_labels-IsName : IsName node_labels
unfolding is_label is_label_char lower
node_labels-IsName = record {
  some_label = (λ e. absurd cc);
  all_labels = (
    record { nonempty = (λ e. absurd cc); accepted = refl; lowered = refl; short = omega arith },
    kind_labels-IsName.all_labels,
  );
  fits = omega arith;
}

announcement-IsMessage : IsMessage announcement
announcement-IsMessage = record {
  questions = (
    record { labels = kind_labels; named = kind_labels-IsName; spelled = refl },
    (record { labels = node_labels; named = node_labels-IsName; spelled = refl }, tt),
  );
  answers = (
    record {
      labels = kind_labels;
      named = kind_labels-IsName;
      spelled = refl;
      payload = pointer node_labels node_labels-IsName;
    },
    tt,
  );
  authorities = tt;
  additionals = (
    record {
      labels = node_labels;
      named = node_labels-IsName;
      spelled = refl;
      payload = located 0 5 8080 node_labels node_labels-IsName;
    },
    (
      record {
        labels = node_labels;
        named = node_labels-IsName;
        spelled = refl;
        payload = texts _;
      },
      (
        record {
          labels = node_labels;
          named = node_labels-IsName;
          spelled = refl;
          payload = address 192 168 0 10 (omega arith) (omega arith) (omega arith) (omega arith);
        },
        tt,
      ),
    ),
  );
}

abbrev sent : List ℕ
sent =
    0 ∷ 7 ∷ 132 ∷ 0 ∷ 0 ∷ 2 ∷ 0 ∷ 1 ∷ 0 ∷ 0 ∷ 0 ∷ 3 ∷ 2 ∷ 95 ∷ 104 ∷ 5 ∷ 108 ∷ 111 ∷ 99 ∷ 97 ∷ 108
    ∷ 0 ∷ 0 ∷ 12 ∷ 0 ∷ 1 ∷ 2 ∷ 110 ∷ 49 ∷ 2 ∷ 95 ∷ 104 ∷ 5 ∷ 108 ∷ 111 ∷ 99 ∷ 97 ∷ 108 ∷ 0 ∷ 0 ∷ 255
    ∷ 0 ∷ 1 ∷ 2 ∷ 95 ∷ 104 ∷ 5 ∷ 108 ∷ 111 ∷ 99 ∷ 97 ∷ 108 ∷ 0 ∷ 0 ∷ 12 ∷ 0 ∷ 1 ∷ 0 ∷ 0 ∷ 0 ∷ 120
    ∷ 0 ∷ 13 ∷ 2 ∷ 110 ∷ 49 ∷ 2 ∷ 95 ∷ 104 ∷ 5 ∷ 108 ∷ 111 ∷ 99 ∷ 97 ∷ 108 ∷ 0 ∷ 2 ∷ 110 ∷ 49 ∷ 2
    ∷ 95 ∷ 104 ∷ 5 ∷ 108 ∷ 111 ∷ 99 ∷ 97 ∷ 108 ∷ 0 ∷ 0 ∷ 33 ∷ 128 ∷ 1 ∷ 0 ∷ 0 ∷ 0 ∷ 120 ∷ 0 ∷ 19 ∷ 0
    ∷ 0 ∷ 0 ∷ 5 ∷ 31 ∷ 144 ∷ 2 ∷ 110 ∷ 49 ∷ 2 ∷ 95 ∷ 104 ∷ 5 ∷ 108 ∷ 111 ∷ 99 ∷ 97 ∷ 108 ∷ 0 ∷ 2
    ∷ 110 ∷ 49 ∷ 2 ∷ 95 ∷ 104 ∷ 5 ∷ 108 ∷ 111 ∷ 99 ∷ 97 ∷ 108 ∷ 0 ∷ 0 ∷ 16 ∷ 128 ∷ 1 ∷ 0 ∷ 1 ∷ 17
    ∷ 112 ∷ 0 ∷ 5 ∷ 3 ∷ 97 ∷ 61 ∷ 49 ∷ 0 ∷ 2 ∷ 110 ∷ 49 ∷ 2 ∷ 95 ∷ 104 ∷ 5 ∷ 108 ∷ 111 ∷ 99 ∷ 97
    ∷ 108 ∷ 0 ∷ 0 ∷ 1 ∷ 128 ∷ 1 ∷ 0 ∷ 0 ∷ 0 ∷ 0 ∷ 0 ∷ 4 ∷ 192 ∷ 168 ∷ 0 ∷ 10 ∷ []

announcement-sent : encode_dns_packet announcement 512 ≡ ok sent
unfolding encode_dns_packet packet_limit encode_header write_u16 encode_questions encode_name
    validate_dns_name validate_labels validate_label is_label is_label_char lower wire type_code
    encode_records encode_record write_u32 encode_record_data encode_srv encode_items encode_ipv4
    exact_octets exact_octet octet decode_ipv4 octet_texts octet_text ends_with join split
    without_last
announcement-sent = refl

decode_dns_packet-encode_dns_packet_example : decode_dns_packet sent 512 ≡ ok announcement
decode_dns_packet-encode_dns_packet_example =
    decode_dns_packet-encode_dns_packet announcement 512 sent announcement-IsMessage
      announcement-sent

-- A pointer to itself.
pointer_loop : decode_name (192 ∷ 0 ∷ []) 0 ≡ throw type_error
unfolding decode_name read_labels read_round byte_at jump visited named
pointer_loop = refl

-- A message of a header alone with a byte behind it.
trailing_byte :
    decode_dns_packet (0 ∷ 7 ∷ 0 ∷ 0 ∷ 0 ∷ 0 ∷ 0 ∷ 0 ∷ 0 ∷ 0 ∷ 0 ∷ 0 ∷ 9 ∷ []) 512
    ≡ throw type_error
unfolding decode_dns_packet packet_limit decode_header read_u16 read_byte byte_at decode_body
    decode_questions decode_section
trailing_byte = refl

-- `1:2:3:4:5:6:7:8:tail`
tail_literal :
    ipv6_words (
      49 ∷ 58 ∷ 50 ∷ 58 ∷ 51 ∷ 58 ∷ 52 ∷ 58 ∷ 53 ∷ 58 ∷ 54 ∷ 58 ∷ 55 ∷ 58 ∷ 56 ∷ 58 ∷ 116 ∷ 97 ∷ 105
      ∷ 108 ∷ [])
    ≡ ok (1 ∷ 2 ∷ 3 ∷ 4 ∷ 5 ∷ 6 ∷ 7 ∷ 8 ∷ [])
unfolding ipv6_words split same_text
tail_literal = refl

abbrev pointed : List ℕ
pointed = 2 ∷ 110 ∷ 49 ∷ 0 ∷ 192 ∷ 0 ∷ []

-- The name `n1`, by the pointer to it.
decode_name-IsName_example :
    (((110 ∷ 49 ∷ dot ∷ []) ≡ dot ∷ [])
      ⊎ ((ls : List Text) × IsName ls × ((110 ∷ 49 ∷ dot ∷ []) ≡ dotted ls)))
    × (6 ≤ length pointed)
unfolding decode_name read_labels read_round byte_at jump take_label decode_label visited named
    validate_dns_name validate_labels validate_label is_label is_label_char lower join
decode_name-IsName_example = decode_name-IsName pointed 4 (110 ∷ 49 ∷ dot ∷ []) 6 refl
