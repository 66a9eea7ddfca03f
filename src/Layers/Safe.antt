-- ===== src/Layers/Safe.antt =====
-- The dissector of src/pqcap_packet_table.cpp reads nothing outside of the captured bytes, and its
-- fields agree with one another.
use duckdb_pqcap_reader.Base.{
  ℕ, zero, suc, ◌+◌, ◌-◌, ◌*◌, ◌≤◌, ◌<◌, ◌≡◌, ◌⊎◌, refl, arith, List, [], ◌∷◌,
}
use duckdb_pqcap_reader.Base.{some, length, length-drop, drop, true, false, String, inl, inr}
use duckdb_pqcap_reader.Base.{ltb, leb, ◌==◌, ◌||◌, ◌&&◌, ok}
use duckdb_pqcap_reader.Base.{Returns, returns, Returns->>=, Returns-if, Returns-eq-ok}
use duckdb_pqcap_reader.Words.{Bytes, byte_at, shr, codes}
use duckdb_pqcap_reader.Layers.{ParsedL4Fields, no_fields, read_be16, format_ipv4, format_ipv6}
use duckdb_pqcap_reader.Layers.{read_groups, with_ports, tcp_fields, transport_fields, parse_ipv4}
use duckdb_pqcap_reader.Layers.{parse_ipv6, raw_fields, network_fields, sll_fields, tagged_fields}
use duckdb_pqcap_reader.Layers.{ethernet_fields, parse_l4_fields}
use Prim.Native.Nat.{bit_and}

-- Ports are there with a protocol that has ports, and they fit 16 bits; without them they are 0.
pub data IsConsistent (out : ParsedL4Fields) : Type 0 where
  without_ports : out.has_ports ≡ false → out.src_port ≡ 0 → out.dst_port ≡ 0 → IsConsistent out
  with_both :
      out.has_ports ≡ true
      → out.src_port < 65536
      → out.dst_port < 65536
      → (out.l4_protocol ≡ codes "TCP") ⊎ (out.l4_protocol ≡ codes "UDP")
      → IsConsistent out

-- A value, whatever it is.
abbrev Any {ℓ} : {A : Type ℓ} → A → Type 0
Any a = Unit

byte_at-Returns : (p : Bytes) (i : ℕ) → i < length p → Returns Any (byte_at p i)
byte_at-Returns [] i h = absurd (omega arith)
byte_at-Returns (b ∷ p) zero h = returns tt
byte_at-Returns (b ∷ p) (suc i) h = byte_at-Returns p i (omega arith)

read_be16-Returns : (p : Bytes) → 2 ≤ length p → Returns (λ v. v < 65536) (read_be16 p)
unfolding read_be16
read_be16-Returns [] h = absurd (omega arith)
read_be16-Returns (a ∷ []) h = absurd (omega arith)
read_be16-Returns (a ∷ b ∷ p) h = returns (omega arith)

module _ (format : String → List ℕ → Bytes) where
  format_ipv4-Returns : (p : Bytes) → 4 ≤ length p → Returns Any (format_ipv4 format p)
  unfolding format_ipv4
  format_ipv4-Returns [] h = absurd (omega arith)
  format_ipv4-Returns (a ∷ []) h = absurd (omega arith)
  format_ipv4-Returns (a ∷ b ∷ []) h = absurd (omega arith)
  format_ipv4-Returns (a ∷ b ∷ c ∷ []) h = absurd (omega arith)
  format_ipv4-Returns (a ∷ b ∷ c ∷ d ∷ p) h = returns tt

  read_groups-Returns :
      (rounds i : ℕ) (p : Bytes)
      → (i + rounds) * 2 ≤ length p
      → Returns Any (read_groups format rounds i p)
  unfolding read_groups
  read_groups-Returns zero i p h = returns tt
  read_groups-Returns (suc rounds) i p h =
      Returns->>= (read_be16-Returns (drop (i * 2) p) (omega (arith, length-drop (i * 2) p)))
        λ group _.
          Returns->>= (read_groups-Returns rounds (i + 1) p (omega arith)) λ groups _. returns tt

  format_ipv6-Returns : (p : Bytes) → 16 ≤ length p → Returns Any (format_ipv6 format p)
  unfolding format_ipv6
  format_ipv6-Returns p h =
      Returns->>= (read_groups-Returns 8 0 p (omega arith)) λ groups _. returns tt

  with_ports-Returns :
      (name p : Bytes) (out : ParsedL4Fields)
      → 4 ≤ length p
      → (name ≡ codes "TCP") ⊎ (name ≡ codes "UDP")
      → Returns IsConsistent (with_ports format name p out)
  unfolding with_ports
  with_ports-Returns name p out h named =
      Returns->>= (read_be16-Returns p (omega arith)) λ src_port hs.
        Returns->>= (read_be16-Returns (drop 2 p) (omega (arith, length-drop 2 p)))
          λ dst_port hd. returns (with_both refl hs hd named)

  tcp_fields-Returns :
      (p : Bytes) (remaining : ℕ) (out : ParsedL4Fields)
      → 20 ≤ remaining
      → remaining ≤ length p
      → IsConsistent out
      → Returns IsConsistent (tcp_fields format p remaining out)
  unfolding tcp_fields
  tcp_fields-Returns p remaining out large inside consistent =
      Returns->>= (byte_at-Returns p 12 (omega arith)) λ data_offset _.
        Returns-if _ (λ _. with_ports-Returns (codes "TCP") p out (omega arith) (inl refl))
          (λ _. returns consistent)

  transport_fields-Returns :
      (other : String) (protocol : ℕ) (p : Bytes) (remaining : ℕ) (out : ParsedL4Fields)
      → remaining ≤ length p
      → out.has_ports ≡ false
      → out.src_port ≡ 0
      → out.dst_port ≡ 0
      → Returns IsConsistent (transport_fields format other protocol p remaining out)
  unfolding transport_fields
  transport_fields-Returns other protocol p remaining out inside unset src dst =
      Returns-if (protocol == 6 && leb 20 remaining)
        (λ tcp.
          tcp_fields-Returns p remaining out (ground arith) inside (without_ports unset src dst))
        λ _.
          Returns-if (protocol == 17 && leb 8 remaining)
            (λ udp. with_ports-Returns (codes "UDP") p out (ground arith) (inr refl))
            (λ _. returns (without_ports unset src dst))

  empty : IsConsistent no_fields
  empty = without_ports refl refl refl

  parse_ipv4-Returns :
      (p : Bytes) (remaining : ℕ)
      → remaining ≤ length p
      → Returns IsConsistent (parse_ipv4 format p remaining)
  unfolding parse_ipv4
  parse_ipv4-Returns p remaining inside =
      Returns-if (ltb remaining 20) (λ _. returns empty)
        λ large. Returns->>= (byte_at-Returns p 0 (ground arith)) λ version_ihl _.
          Returns-if _ (λ _. returns empty)
            λ fits. Returns->>= (byte_at-Returns p 9 (ground arith)) λ protocol _.
              Returns->>= (format_ipv4-Returns (drop 12 p) (ground (arith, length-drop 12 p)))
                λ src_ip _.
                  Returns->>= (format_ipv4-Returns (drop 16 p) (ground (arith, length-drop 16 p)))
                    λ dst_ip _.
                      let ihl = bit_and version_ihl 0xf * 4 in
                      transport_fields-Returns "IP_%u" protocol (drop ihl p) (remaining - ihl)
                        (record no_fields { src_ip = src_ip; dst_ip = dst_ip })
                        (omega (arith, length-drop ihl p)) refl refl refl

  parse_ipv6-Returns :
      (p : Bytes) (remaining : ℕ)
      → remaining ≤ length p
      → Returns IsConsistent (parse_ipv6 format p remaining)
  unfolding parse_ipv6
  parse_ipv6-Returns p remaining inside =
      Returns-if (ltb remaining 40) (λ _. returns empty)
        λ large. Returns->>= (byte_at-Returns p 6 (ground arith)) λ next_header _.
          Returns->>= (format_ipv6-Returns (drop 8 p) (ground (arith, length-drop 8 p))) λ src_ip _.
            Returns->>= (format_ipv6-Returns (drop 24 p) (ground (arith, length-drop 24 p)))
              λ dst_ip _.
                transport_fields-Returns "IP6_%u" next_header (drop 40 p) (remaining - 40)
                  (record no_fields { src_ip = src_ip; dst_ip = dst_ip })
                  (omega (arith, length-drop 40 p)) refl refl refl

  network_fields-Returns :
      (other : String) (ether_type : ℕ) (p : Bytes) (remaining : ℕ)
      → remaining ≤ length p
      → Returns IsConsistent (network_fields format other ether_type p remaining)
  unfolding network_fields
  network_fields-Returns other ether_type p remaining inside =
      Returns-if (ether_type == 0x0800) (λ _. parse_ipv4-Returns p remaining inside)
        λ _.
          Returns-if (ether_type == 0x86DD) (λ _. parse_ipv6-Returns p remaining inside)
            λ _. returns (without_ports refl refl refl)

  tagged_fields-Returns :
      (ether_type : ℕ) (p : Bytes) (remaining : ℕ)
      → remaining ≤ length p
      → Returns IsConsistent (tagged_fields format ether_type p remaining)
  unfolding tagged_fields
  tagged_fields-Returns ether_type p remaining inside =
      Returns-if ((ether_type == 0x8100 || ether_type == 0x88A8) && leb 4 remaining)
        (λ tag.
          let long : 4 ≤ remaining = ground arith in
          Returns->>= (read_be16-Returns (drop 2 p) (omega (arith, length-drop 2 p)))
            λ inner_type _.
              network_fields-Returns "ETH_0x%04X" inner_type (drop 4 p) (remaining - 4)
                (omega (arith, length-drop 4 p)))
        (λ _. network_fields-Returns "ETH_0x%04X" ether_type p remaining inside)

  link_fields-Returns :
      (data_link : ℕ) (p : Bytes) (remaining : ℕ)
      → 0 < remaining
      → remaining ≤ length p
      → (Returns IsConsistent (raw_fields format p remaining))
        × (Returns IsConsistent (sll_fields format p remaining))
        × (Returns IsConsistent (ethernet_fields format data_link p remaining))
  unfolding raw_fields sll_fields ethernet_fields
  link_fields-Returns data_link p remaining some_bytes inside = (
    Returns->>= (byte_at-Returns p 0 (omega arith)) λ first _.
        Returns-if (shr first 4 == 4) (λ _. parse_ipv4-Returns p remaining inside)
          λ _.
            Returns-if (shr first 4 == 6) (λ _. parse_ipv6-Returns p remaining inside)
              λ _. returns (without_ports refl refl refl),
    Returns-if (ltb remaining 16) (λ _. returns (without_ports refl refl refl))
        λ long.
          Returns->>= (read_be16-Returns (drop 14 p) (ground (arith, length-drop 14 p)))
            λ protocol _.
              network_fields-Returns "SLL_0x%04X" protocol (drop 16 p) (remaining - 16)
                (omega (arith, length-drop 16 p)),
    Returns-if (ltb remaining 14) (λ _. returns (without_ports refl refl refl))
        λ long.
          Returns->>= (read_be16-Returns (drop 12 p) (ground (arith, length-drop 12 p)))
            λ ether_type _.
              tagged_fields-Returns ether_type (drop 14 p) (remaining - 14)
                (omega (arith, length-drop 14 p)),
  )

  -- Whatever the link type and the bytes, and where as many bytes are there as were captured, the
  -- dissector returns fields: it reads nothing outside of the packet. If it found ports, both fit 16
  -- bits and the protocol is TCP or UDP; otherwise both are 0.
  pub parse_l4_fields_safe :
      (data_link : ℕ) (p : Bytes) (captured_length : ℕ)
      → captured_length ≤ length p
      → (out : ParsedL4Fields) × (parse_l4_fields format data_link (some p) captured_length
          ≡ ok out)
        × IsConsistent out
  unfolding parse_l4_fields
  parse_l4_fields_safe data_link p captured_length inside = Returns-eq-ok (
      Returns-if (captured_length == 0) (λ _. returns empty)
        λ some_bytes.
          let links = link_fields-Returns data_link p captured_length (ground arith) inside in
          Returns-if (data_link == 101) (λ _. links.0)
            λ _. Returns-if (data_link == 113) (λ _. links.1) λ _. links.2)
