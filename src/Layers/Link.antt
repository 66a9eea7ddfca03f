-- ===== src/Layers/Link.antt =====
-- The link layers that the dissector of src/pqcap_packet_table.cpp knows.
use duckdb_pqcap_reader.Base.{ℕ, ◌+◌, ◌-◌, ◌/◌, ◌≡◌, ◌≢◌, refl, arith, List, ◌∷◌, ◌++◌}
use duckdb_pqcap_reader.Base.{length, String, some, true, false, ok, leb, ltb, ◌==◌, ◌||◌, Result}
use duckdb_pqcap_reader.Words.{Bytes, IsU16}
use duckdb_pqcap_reader.Layers.{
  ParsedL4Fields, read_be16, parse_ipv4, parse_ipv6, raw_fields, sll_fields,
}
use duckdb_pqcap_reader.Layers.{network_fields, tagged_fields, ethernet_fields, parse_l4_fields}
use duckdb_pqcap_reader.Layers.Ports.{Quad, quad, be_bytes, read_be16-be_bytes}

pub data IpVersion : Type 0 where
  v4 v6 : IpVersion

abbrev pub version_number : IpVersion → ℕ
version_number v4 = 4
version_number v6 = 6

abbrev pub ether_type_of : IpVersion → ℕ
ether_type_of v4 = 0x0800
ether_type_of v6 = 0x86DD

-- Twelve bytes: the addresses of an Ethernet frame.
pub record Twelve : Type 0 where
  pub q0 : Quad
  pub q1 : Quad
  pub q2 : Quad

abbrev pub twelve : Twelve → Bytes
twelve t = quad t.q0 ++ (quad t.q1 ++ quad t.q2)

module _ (format : String → List ℕ → Bytes) where
  abbrev pub parse_ip : IpVersion → Bytes → ℕ → Result ParsedL4Fields
  parse_ip v4 = parse_ipv4 format
  parse_ip v6 = parse_ipv6 format

  network_fields-ip :
      (other : String) (v : IpVersion) (p : Bytes) (n : ℕ)
      → network_fields format other (ether_type_of v) p n ≡ parse_ip v p n
  unfolding network_fields
  network_fields-ip other v4 p n = refl
  network_fields-ip other v6 p n = refl

  ether_type_of-IsU16 : (v : IpVersion) → IsU16 (ether_type_of v)
  ether_type_of-IsU16 v4 = omega arith
  ether_type_of-IsU16 v6 = omega arith

  read_ether_type :
      (v : IpVersion) (p : Bytes)
      → read_be16 (be_bytes (ether_type_of v) ++ p) ≡ ok (ether_type_of v)
  read_ether_type v p = read_be16-be_bytes (ether_type_of v) p (ether_type_of-IsU16 v)

  tagged_fields-ip :
      (v : IpVersion) (p : Bytes) (n : ℕ)
      → tagged_fields format (ether_type_of v) p n ≡ parse_ip v p n
  unfolding tagged_fields
  tagged_fields-ip v4 p n = network_fields-ip "ETH_0x%04X" v4 p n
  tagged_fields-ip v6 p n = network_fields-ip "ETH_0x%04X" v6 p n

  -- A VLAN tag: its type, and two bytes of control information.
  tagged_fields-tag :
      (tag : ℕ) (control : ℕ) (v : IpVersion) (p : Bytes)
      → (tag == 0x8100 || tag == 0x88A8) ≡ true
      → tagged_fields format tag
          (be_bytes control ++ (be_bytes (ether_type_of v) ++ p))
          (4 + length p)
        ≡ parse_ip v p (length p)
  unfolding tagged_fields
  tagged_fields-tag tag control v p is_tag =
      let large : leb 4 (4 + length p) ≡ true = ground arith in
      let left : 4 + length p - 4 ≡ length p = omega arith in
      rw (is_tag, large, read_ether_type v p, network_fields-ip, left)

  -- A frame of Ethernet, or of a link type that the code takes for Ethernet.
  ethernet-untagged :
      (data_link : ℕ) (addresses : Twelve) (v : IpVersion) (p : Bytes)
      → ethernet_fields format data_link
          (twelve addresses ++ (be_bytes (ether_type_of v) ++ p))
          (14 + length p)
        ≡ parse_ip v p (length p)
  unfolding ethernet_fields
  ethernet-untagged data_link addresses v p =
      let large : ltb (14 + length p) 14 ≡ false = ground arith in
      let left : 14 + length p - 14 ≡ length p = omega arith in
      rw (large, read_ether_type v p, tagged_fields-ip, left)

  ethernet-tagged :
      (data_link : ℕ) (addresses : Twelve) (tag control : ℕ) (v : IpVersion) (p : Bytes)
      → IsU16 tag
      → (tag == 0x8100 || tag == 0x88A8) ≡ true
      → ethernet_fields format data_link
          (twelve addresses
            ++ (be_bytes tag ++ (be_bytes control ++ (be_bytes (ether_type_of v) ++ p))))
          (18 + length p)
        ≡ parse_ip v p (length p)
  unfolding ethernet_fields
  ethernet-tagged data_link addresses tag control v p fits is_tag =
      let large : ltb (18 + length p) 14 ≡ false = ground arith in
      let left : 18 + length p - 14 ≡ 4 + length p = omega arith in
      let behind = be_bytes control ++ (be_bytes (ether_type_of v) ++ p) in
      rw (large, read_be16-be_bytes tag behind fits, left)
        (tagged_fields-tag tag control v p is_tag)

  sll_fields-ip :
      (header : Twelve) (address_end : ℕ) (v : IpVersion) (p : Bytes)
      → sll_fields format
          (twelve header ++ (be_bytes address_end ++ (be_bytes (ether_type_of v) ++ p)))
          (16 + length p)
        ≡ parse_ip v p (length p)
  unfolding sll_fields
  sll_fields-ip header address_end v p =
      let large : ltb (16 + length p) 16 ≡ false = ground arith in
      let left : 16 + length p - 16 ≡ length p = omega arith in
      rw (large, read_ether_type v p, network_fields-ip, left)

  raw_fields-ip :
      (v : IpVersion) (first : ℕ) (p : Bytes) (n : ℕ)
      → first / 16 ≡ version_number v
      → raw_fields format (first ∷ p) n ≡ parse_ip v (first ∷ p) n
  unfolding raw_fields
  raw_fields-ip v4 first p n h = rw h
  raw_fields-ip v6 first p n h = rw h

  -- An IP packet is read alike behind every link layer: with no link header (101), behind a Linux
  -- cooked header (113), and behind an Ethernet header with or without one VLAN tag (any other link
  -- type).
  pub link_layers_agree :
      (v : IpVersion) (first : ℕ) (rest : Bytes) (data_link : ℕ) (header : Twelve) (tag control : ℕ)
      → first / 16 ≡ version_number v
      → data_link ≢ 101
      → data_link ≢ 113
      → IsU16 tag
      → (tag == 0x8100 || tag == 0x88A8) ≡ true
      → let p = first ∷ rest in
        let n = length p in
        let typed = be_bytes (ether_type_of v) ++ p in
        (parse_l4_fields format 101 (some p) n ≡ parse_ip v p n)
        × (parse_l4_fields format 113 (some (twelve header ++ (be_bytes control ++ typed))) (16 + n)
            ≡ parse_ip v p n)
        × (parse_l4_fields format data_link (some (twelve header ++ typed)) (14 + n)
            ≡ parse_ip v p n)
        × (parse_l4_fields format data_link
              (some (twelve header ++ (be_bytes tag ++ (be_bytes control ++ typed))))
              (18 + n)
            ≡ parse_ip v p n)
  unfolding parse_l4_fields
  link_layers_agree v first rest data_link header tag control version not_raw not_sll fits is_tag =
      let p = first ∷ rest in
      let n = length p in
      let no_raw : (data_link == 101) ≡ false = ground arith in
      let no_sll : (data_link == 113) ≡ false = ground arith in
      let some_16 : (16 + n == 0) ≡ false = ground arith in
      let some_14 : (14 + n == 0) ≡ false = ground arith in
      let some_18 : (18 + n == 0) ≡ false = ground arith in
      let some_n : (n == 0) ≡ false = ground arith in
      (
        rw some_n (raw_fields-ip v first rest n version),
        rw some_16 (sll_fields-ip header control v p),
        rw (some_14, no_raw, no_sll) (ethernet-untagged data_link header v p),
        rw (some_18, no_raw, no_sll) (ethernet-tagged data_link header tag control v p fits is_tag),
      )
