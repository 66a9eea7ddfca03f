-- ===== src/Layers/Runs.antt =====
-- The theorems of the dissector of src/pqcap_packet_table.cpp at small packets.
use duckdb_pqcap_reader.Base.{
  ℕ, ◌≡◌, refl, ok, some, String, List, length, ◌++◌, ◌∷◌, [], arith, ◌+◌,
}
use duckdb_pqcap_reader.Words.{Bytes, codes}
use duckdb_pqcap_reader.Layers.{ParsedL4Fields, parse_ipv4, parse_ipv6, parse_l4_fields}
use duckdb_pqcap_reader.Layers.Safe.{IsConsistent, parse_l4_fields_safe}
use duckdb_pqcap_reader.Layers.Ports.{Quad, be_bytes, Segment, udp, tcp, encode_segment, fields_of}
use duckdb_pqcap_reader.Layers.Ip.{
  Ipv4Header, ipv4_header, Ipv6Header, Groups, ipv6_header, dotted, colons,
}
use duckdb_pqcap_reader.Layers.Ip.{parse_ipv4-segment, parse_ipv6-segment}
use duckdb_pqcap_reader.Layers.Link.{v4, Twelve, twelve, parse_ip, link_layers_agree}

-- A format that only writes down its numbers.
abbrev format : String → List ℕ → Bytes
format template numbers = numbers

abbrev address : Quad
address = record { b0 = 10; b1 = 0; b2 = 0; b3 = 1 }

abbrev zeros : Quad
zeros = record { b0 = 0; b1 = 0; b2 = 0; b3 = 0 }

-- One word of options.
abbrev header4 : Ipv4Header
header4 = record {
  version = 4;
  service = 0;
  length_high = 0;
  length_low = 32;
  identification_and_offset = zeros;
  time_to_live = 64;
  checksum_high = 0;
  checksum_low = 0;
  src = address;
  dst = address;
  option_words = 1;
  options = 1 ∷ 1 ∷ 1 ∷ 0 ∷ [];
}

abbrev groups6 : Groups
groups6 = record { g0 = 0xFE80; g1 = 0; g2 = 0; g3 = 0; g4 = 0; g5 = 0; g6 = 0; g7 = 1 }

abbrev header6 : Ipv6Header
header6 = record {
  version_class_flow = record { b0 = 0x60; b1 = 0; b2 = 0; b3 = 0 };
  length_high = 0;
  length_low = 20;
  hop_limit = 64;
  src = groups6;
  dst = groups6;
}

abbrev dns : Segment
dns = udp 53 4000 zeros (1 ∷ 2 ∷ [])

abbrev web : Segment
web = tcp 443 50000 zeros zeros 5 0 (2 ∷ 0 ∷ 0 ∷ 0 ∷ 0 ∷ 0 ∷ 0 ∷ [])

parse_ipv4-segment_example :
    let packet = ipv4_header header4 17 ++ encode_segment dns in
    parse_ipv4 format packet (length packet)
    ≡ ok (fields_of (dotted format address) (dotted format address) dns)
parse_ipv4-segment_example =
    parse_ipv4-segment format header4 dns (record { at_most = omega arith; filled = refl })
      (omega arith)

parse_ipv6-segment_example :
    let packet = ipv6_header header6 6 ++ encode_segment web in
    parse_ipv6 format packet (length packet)
    ≡ ok (fields_of (colons format groups6) (colons format groups6) web)
parse_ipv6-segment_example =
    parse_ipv6-segment format header6 web (omega arith) (omega arith) (omega arith)

parse_l4_fields_safe_example :
    (out : ParsedL4Fields) × (parse_l4_fields format 1 (some (codes "not an ethernet frame")) 21
      ≡ ok out)
    × IsConsistent out
parse_l4_fields_safe_example =
    parse_l4_fields_safe format 1 (codes "not an ethernet frame") 21 (omega arith)

abbrev addresses : Twelve
addresses = record { q0 = address; q1 = address; q2 = zeros }

link_layers_agree_example :
    let p = 0x45 ∷ codes "rest" in
    let n = length p in
    let typed = be_bytes 0x0800 ++ p in
    (parse_l4_fields format 101 (some p) n ≡ parse_ip format v4 p n)
    × (parse_l4_fields format 113 (some (twelve addresses ++ (be_bytes 7 ++ typed))) (16 + n)
        ≡ parse_ip format v4 p n)
    × (parse_l4_fields format 1 (some (twelve addresses ++ typed)) (14 + n)
        ≡ parse_ip format v4 p n)
    × (parse_l4_fields format 1
          (some (twelve addresses ++ (be_bytes 0x8100 ++ (be_bytes 7 ++ typed))))
          (18 + n)
        ≡ parse_ip format v4 p n)
link_layers_agree_example =
    link_layers_agree format v4 0x45 (codes "rest") 1 addresses 0x8100 7 refl (omega arith)
      (omega arith) (omega arith) refl
