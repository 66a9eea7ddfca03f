-- ===== src/Layers/Ip.antt =====
-- IPv4 and IPv6 packets with a UDP or a TCP segment, as the dissector of
-- src/pqcap_packet_table.cpp reads them.
use duckdb_pqcap_reader.Base.{ℕ, ◌+◌, ◌-◌, ◌*◌, ◌/◌, ◌%◌, ◌≤◌, ◌≡◌, ◌∙◌, arith, List, [], ◌∷◌, ◌++◌}
use duckdb_pqcap_reader.Base.{length, length-append, drop, drop-append, String, false, ok, ltb}
use duckdb_pqcap_reader.Words.{Bytes, IsU16}
use duckdb_pqcap_reader.Words.Bits.{bit_and-nibble}
use duckdb_pqcap_reader.Layers.{no_fields, format_ipv4, format_ipv6}
use duckdb_pqcap_reader.Layers.{transport_fields, parse_ipv4, parse_ipv6}
use Prim.Native.Nat.{bit_and}
use duckdb_pqcap_reader.Layers.Ports.{Quad, quad, Segment, encode_segment, IsSegment}
use duckdb_pqcap_reader.Layers.Ports.{
  protocol_of, fields_of, transport_fields-segment, read_be16-be_bytes,
}

-- An IPv4 header up to its protocol, and behind it; the options fill whole words.
pub record Ipv4Header : Type 0 where
  pub version : ℕ
  pub service : ℕ
  pub length_high : ℕ
  pub length_low : ℕ
  pub identification_and_offset : Quad
  pub time_to_live : ℕ
  pub checksum_high : ℕ
  pub checksum_low : ℕ
  pub src : Quad
  pub dst : Quad
  pub option_words : ℕ
  pub options : Bytes

pub record IsIpv4Header (h : Ipv4Header) : Type 0 where
  pub at_most : h.option_words ≤ 10
  pub filled : length h.options ≡ 4 * h.option_words

-- The first byte is the version and the header's length in words.
abbrev pub ipv4_header : Ipv4Header → ℕ → Bytes
ipv4_header h protocol =
    (h.version * 16 + (5 + h.option_words))
      ∷ h.service
      ∷ h.length_high
      ∷ h.length_low
      ∷ quad h.identification_and_offset
    ++ (h.time_to_live ∷ protocol ∷ h.checksum_high ∷ h.checksum_low ∷ quad h.src
        ++ (quad h.dst ++ h.options))

-- An IPv6 address as eight groups of 16 bits.
pub record Groups : Type 0 where
  pub g0 : ℕ
  pub g1 : ℕ
  pub g2 : ℕ
  pub g3 : ℕ
  pub g4 : ℕ
  pub g5 : ℕ
  pub g6 : ℕ
  pub g7 : ℕ

abbrev pub IsGroups : Groups → Type 0
IsGroups a =
    IsU16 a.g0
    × IsU16 a.g1
    × IsU16 a.g2
    × IsU16 a.g3
    × IsU16 a.g4
    × IsU16 a.g5
    × IsU16 a.g6
    × IsU16 a.g7

abbrev pub groups : Groups → List ℕ
groups a = a.g0 ∷ a.g1 ∷ a.g2 ∷ a.g3 ∷ a.g4 ∷ a.g5 ∷ a.g6 ∷ a.g7 ∷ []

abbrev pub group_bytes : List ℕ → Bytes
group_bytes [] = []
group_bytes (g ∷ gs) = (g / 256) ∷ (g % 256) ∷ group_bytes gs

pub record Ipv6Header : Type 0 where
  pub version_class_flow : Quad
  pub length_high : ℕ
  pub length_low : ℕ
  pub hop_limit : ℕ
  pub src : Groups
  pub dst : Groups

abbrev pub ipv6_header : Ipv6Header → ℕ → Bytes
ipv6_header h next_header =
    quad h.version_class_flow
    ++ (h.length_high
        ∷ h.length_low
        ∷ next_header
        ∷ h.hop_limit
        ∷ (group_bytes (groups h.src) ++ group_bytes (groups h.dst)))

module _ (format : String → List ℕ → Bytes) where
  abbrev pub dotted : Quad → Bytes
  dotted q = format "%u.%u.%u.%u" (q.b0 ∷ q.b1 ∷ q.b2 ∷ q.b3 ∷ [])

  -- Behind an IPv4 header of any length the dissector goes on at the first byte of the payload.
  parse_ipv4-header :
      (h : Ipv4Header) (protocol : ℕ) (payload : Bytes)
      → IsIpv4Header h
      → parse_ipv4 format
          (ipv4_header h protocol ++ payload)
          (length (ipv4_header h protocol ++ payload))
        ≡ transport_fields format "IP_%u" protocol payload
            (length payload)
            (record no_fields { src_ip = dotted h.src; dst_ip = dotted h.dst })
  unfolding parse_ipv4 format_ipv4
  parse_ipv4-header h protocol payload v =
      let header = ipv4_header h protocol in
      let words : bit_and (h.version * 16 + (5 + h.option_words)) 0xf * 4 ≡ 20 + length h.options =
        let filled = v.filled in
        let at_most = v.at_most in
        omega (arith, bit_and-nibble (h.version * 16 + (5 + h.option_words))) in
      let behind : drop (20 + length h.options) (header ++ payload) ≡ payload =
        drop-append header payload (20 + length h.options) (omega arith) in
      let left : length (header ++ payload) - (20 + length h.options) ≡ length payload =
        omega (arith, length-append header payload) in
      let large : ltb (length (header ++ payload)) 20 ≡ false = ground arith in
      let long : ltb (20 + length h.options) 20 ≡ false = ground arith in
      let inside : ltb (length (header ++ payload)) (20 + length h.options) ≡ false =
        ground (arith, length-append header payload) in
      rw (large, words, long, inside, behind, left)

  abbrev pub colons : Groups → Bytes
  colons a = format "%x:%x:%x:%x:%x:%x:%x:%x" (groups a)

  format_ipv6-groups :
      (a : Groups) (rest : Bytes)
      → IsGroups a
      → format_ipv6 format (group_bytes (groups a) ++ rest) ≡ ok (colons a)
  unfolding format_ipv6
  format_ipv6-groups a rest (h0, h1, h2, h3, h4, h5, h6, h7) = rw (
    read_be16-be_bytes a.g0 _ h0,
    read_be16-be_bytes a.g1 _ h1,
    read_be16-be_bytes a.g2 _ h2,
    read_be16-be_bytes a.g3 _ h3,
    read_be16-be_bytes a.g4 _ h4,
    read_be16-be_bytes a.g5 _ h5,
    read_be16-be_bytes a.g6 _ h6,
    read_be16-be_bytes a.g7 _ h7,
  )

  parse_ipv6-header :
      (h : Ipv6Header) (next_header : ℕ) (payload : Bytes)
      → IsGroups h.src
      → IsGroups h.dst
      → parse_ipv6 format
          (ipv6_header h next_header ++ payload)
          (length (ipv6_header h next_header ++ payload))
        ≡ transport_fields format "IP6_%u" next_header payload
            (length payload)
            (record no_fields { src_ip = colons h.src; dst_ip = colons h.dst })
  unfolding parse_ipv6
  parse_ipv6-header h next_header payload hs hd =
      let packet = ipv6_header h next_header ++ payload in
      let large : ltb (length packet) 40 ≡ false = ground arith in
      let left : length packet - 40 ≡ length payload = omega arith in
      rw (
        large,
        format_ipv6-groups h.src (group_bytes (groups h.dst) ++ payload) hs,
        format_ipv6-groups h.dst payload hd,
        left,
      )

  -- An IPv4 packet with any options and a UDP or TCP segment is read as its addresses, its ports
  -- and the name of its protocol.
  pub parse_ipv4-segment :
      (h : Ipv4Header) (s : Segment)
      → IsIpv4Header h
      → IsSegment s
      → let packet = ipv4_header h (protocol_of s) ++ encode_segment s in
        parse_ipv4 format packet (length packet) ≡ ok (fields_of (dotted h.src) (dotted h.dst) s)
  parse_ipv4-segment h s v w =
      parse_ipv4-header h (protocol_of s) (encode_segment s) v
      ∙ transport_fields-segment format "IP_%u" (dotted h.src) (dotted h.dst) s w

  -- An IPv6 packet with a UDP or TCP segment behind its fixed header is read as its addresses, its
  -- ports and the name of its protocol.
  pub parse_ipv6-segment :
      (h : Ipv6Header) (s : Segment)
      → IsGroups h.src
      → IsGroups h.dst
      → IsSegment s
      → let packet = ipv6_header h (protocol_of s) ++ encode_segment s in
        parse_ipv6 format packet (length packet) ≡ ok (fields_of (colons h.src) (colons h.dst) s)
  parse_ipv6-segment h s hs hd w =
      parse_ipv6-header h (protocol_of s) (encode_segment s) hs hd
      ∙ transport_fields-segment format "IP6_%u" (colons h.src) (colons h.dst) s w
