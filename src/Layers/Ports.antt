-- ===== src/Layers/Ports.antt =====
-- UDP and TCP segments behind an IP header, as the dissector of src/pqcap_packet_table.cpp reads
-- them.
use duckdb_pqcap_reader.Base.{ℕ, ◌+◌, ◌*◌, ◌/◌, ◌%◌, ◌≤◌, ◌<◌, ◌≡◌, ap, arith, List, [], ◌∷◌, ◌++◌}
use duckdb_pqcap_reader.Base.{length, String, true, ok}
use duckdb_pqcap_reader.Words.{Bytes, IsU16, codes, shr}
use duckdb_pqcap_reader.Words.Bits.{bit_and-nibble}
use duckdb_pqcap_reader.Words.Value.{join_two_high}
use duckdb_pqcap_reader.Layers.{ParsedL4Fields, no_fields, read_be16}
use duckdb_pqcap_reader.Layers.{with_ports, transport_fields}
use Prim.Native.Nat.{bit_and}

-- Four bytes: an address, or a part of a header that the dissector passes over.
pub record Quad : Type 0 where
  pub b0 : ℕ
  pub b1 : ℕ
  pub b2 : ℕ
  pub b3 : ℕ

abbrev pub quad : Quad → Bytes
quad q = q.b0 ∷ q.b1 ∷ q.b2 ∷ q.b3 ∷ []

abbrev pub be_bytes : ℕ → Bytes
be_bytes v = (v / 256) ∷ (v % 256) ∷ []

-- A UDP datagram, or a TCP segment with its sequence numbers, its data offset in words, the four
-- bits beside that, and all that follows.
pub data Segment : Type 0 where
  udp : ℕ → ℕ → Quad → Bytes → Segment
  tcp : ℕ → ℕ → Quad → Quad → ℕ → ℕ → Bytes → Segment

abbrev pub encode_segment : Segment → Bytes
encode_segment (udp src dst length_and_checksum payload) =
    be_bytes src ++ (be_bytes dst ++ (quad length_and_checksum ++ payload))
encode_segment (tcp src dst sequence acknowledgement words flags rest) =
    be_bytes src
    ++ (be_bytes dst ++ (quad sequence ++ (quad acknowledgement ++ ((words * 16 + flags) ∷ rest))))

abbrev pub IsSegment : Segment → Type 0
IsSegment (udp src dst length_and_checksum payload) = IsU16 src × IsU16 dst
IsSegment (tcp src dst sequence acknowledgement words flags rest) =
    IsU16 src
    × IsU16 dst
    × (5 ≤ words)
    × (words ≤ 15)
    × (flags < 16)
    × (4 * words ≤ 13 + length rest)

abbrev pub protocol_of : Segment → ℕ
protocol_of (udp src dst length_and_checksum payload) = 17
protocol_of (tcp src dst sequence acknowledgement words flags rest) = 6

-- The fields of a packet with these addresses and this segment.
abbrev pub fields_of : Bytes → Bytes → Segment → ParsedL4Fields
fields_of src_ip dst_ip (udp src dst length_and_checksum payload) = record {
  src_ip = src_ip;
  dst_ip = dst_ip;
  has_ports = true;
  src_port = src;
  dst_port = dst;
  l4_protocol = codes "UDP";
}
fields_of src_ip dst_ip (tcp src dst sequence acknowledgement words flags rest) = record {
  src_ip = src_ip;
  dst_ip = dst_ip;
  has_ports = true;
  src_port = src;
  dst_port = dst;
  l4_protocol = codes "TCP";
}

pub read_be16-be_bytes : (v : ℕ) (rest : Bytes) → IsU16 v → read_be16 (be_bytes v ++ rest) ≡ ok v
unfolding read_be16
read_be16-be_bytes v rest h =
    rw (join_two_high (v % 256) (v / 256) (omega arith)) (ap ok (omega arith))

module _ (format : String → List ℕ → Bytes) where
  with_ports-be_bytes :
      (name : Bytes) (src dst : ℕ) (rest : Bytes) (out : ParsedL4Fields)
      → IsU16 src
      → IsU16 dst
      → with_ports format name (be_bytes src ++ (be_bytes dst ++ rest)) out
        ≡ ok (record out { has_ports = true; src_port = src; dst_port = dst; l4_protocol = name })
  unfolding with_ports
  with_ports-be_bytes name src dst rest out hs hd =
      rw (read_be16-be_bytes src (be_bytes dst ++ rest) hs, read_be16-be_bytes dst rest hd)

  -- The fifth word of a TCP header begins with its length in words.
  header_length :
      (words flags : ℕ)
      → words ≤ 15
      → flags < 16
      → bit_and (shr (words * 16 + flags) 4) 0xf * 4 ≡ words * 4
  header_length words flags most small = omega (arith, bit_and-nibble (shr (words * 16 + flags) 4))

  pub transport_fields-segment :
      (other : String) (src_ip dst_ip : Bytes) (s : Segment)
      → IsSegment s
      → transport_fields format other
          (protocol_of s)
          (encode_segment s)
          (length (encode_segment s))
          (record no_fields { src_ip = src_ip; dst_ip = dst_ip })
        ≡ ok (fields_of src_ip dst_ip s)
  unfolding transport_fields
  transport_fields-segment other src_ip dst_ip (udp src dst length_and_checksum payload) (hs, hd) =
      let out = record no_fields { src_ip = src_ip; dst_ip = dst_ip } in
      ground (
        arith,
        with_ports-be_bytes (codes "UDP") src dst (quad length_and_checksum ++ payload) out hs hd,
      )
  transport_fields-segment other src_ip dst_ip
        (tcp src dst sequence acknowledgement words flags rest) (hs, hd, least, most, hf, fits) =
      let out = record no_fields { src_ip = src_ip; dst_ip = dst_ip } in
      let behind = quad sequence ++ (quad acknowledgement ++ ((words * 16 + flags) ∷ rest)) in
      ground (
        arith,
        header_length words flags most hf,
        with_ports-be_bytes (codes "TCP") src dst behind out hs hd,
      )
