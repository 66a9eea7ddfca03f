-- ===== src/Layers.antt =====
-- `ReadBE16`, `FormatIPv4`, `FormatIPv6`, `ParseIPv4`, `ParseIPv6` and `ParseL4Fields` of
-- src/pqcap_packet_table.cpp. `cursor` is the list of the bytes from the pointer on and `remaining`
-- the number of them that the code allows itself to read.
pub mod Safe
pub mod Link
pub mod Ports
pub mod Ip
mod Runs
use Prim.Native.Nat.{bit_and, bit_or}
use duckdb_pqcap_reader.Base.{
  ℕ, zero, suc, ◌+◌, ◌-◌, ◌*◌, ◌%◌, List, [], ◌∷◌, Option, none, some, drop,
}
use duckdb_pqcap_reader.Base.{Bool, true, false, String, ltb, leb, ◌==◌, ◌||◌, ◌&&◌, if◌then◌else◌}
use duckdb_pqcap_reader.Base.{Result, ok, ◌>>=◌}
use duckdb_pqcap_reader.Words.{Bytes, byte_at, shl, shr, codes}

abbrev pub dlt_raw : ℕ
dlt_raw = 101

abbrev pub dlt_linux_sll : ℕ
dlt_linux_sll = 113

pub record ParsedL4Fields : Type 0 where
  pub src_ip : Bytes
  pub dst_ip : Bytes
  pub has_ports : Bool
  pub src_port : ℕ
  pub dst_port : ℕ
  pub l4_protocol : Bytes

-- `ParsedL4Fields out;`
abbrev pub no_fields : ParsedL4Fields
no_fields = record {
  src_ip = [];
  dst_ip = [];
  has_ports = false;
  src_port = 0;
  dst_port = 0;
  l4_protocol = codes "UNKNOWN";
}

unfoldable pub read_be16 : Bytes → Result ℕ
read_be16 ptr = do hi ← byte_at ptr 0; lo ← byte_at ptr 1; ok (bit_or (shl hi 8) lo % 65536)

-- `StringUtil::Format` of DuckDB, on a format and its numbers.
module _ (format : String → List ℕ → Bytes) where
  unfoldable pub format_ipv4 : Bytes → Result Bytes
  format_ipv4 src = do
    a ← byte_at src 0
    b ← byte_at src 1
    c ← byte_at src 2
    d ← byte_at src 3
    ok (format "%u.%u.%u.%u" (a ∷ b ∷ c ∷ d ∷ []))

  -- The rounds that are left, and `i`.
  unfoldable pub read_groups : ℕ → ℕ → Bytes → Result (List ℕ)
  read_groups zero i src = ok []
  read_groups (suc rounds) i src = do
    group ← read_be16 (drop (i * 2) src)
    groups ← read_groups rounds (i + 1) src
    ok (group ∷ groups)

  unfoldable pub format_ipv6 : Bytes → Result Bytes
  unfolding read_groups
  format_ipv6 src = do groups ← read_groups 8 0 src; ok (format "%x:%x:%x:%x:%x:%x:%x:%x" groups)

  -- The ports at `cursor`, as those of `name`.
  unfoldable pub with_ports : Bytes → Bytes → ParsedL4Fields → Result ParsedL4Fields
  with_ports name cursor out = do
    src_port ← read_be16 cursor
    dst_port ← read_be16 (drop 2 cursor)
    ok (record out {
      has_ports = true;
      src_port = src_port;
      dst_port = dst_port;
      l4_protocol = name;
    })

  unfoldable pub tcp_fields : Bytes → ℕ → ParsedL4Fields → Result ParsedL4Fields
  tcp_fields cursor remaining out = do
    data_offset ← byte_at cursor 12
    let tcp_header_len = bit_and (shr data_offset 4) 0xf * 4
    if leb 20 tcp_header_len && leb tcp_header_len remaining
        then with_ports (codes "TCP") cursor out
        else ok out

  -- What follows the network header; `ParseIPv4` and `ParseIPv6` differ in the name that they give
  -- to another protocol.
  unfoldable pub transport_fields : String → ℕ → Bytes → ℕ → ParsedL4Fields → Result ParsedL4Fields
  unfolding tcp_fields with_ports
  transport_fields other protocol cursor remaining out =
      if protocol == 6 && leb 20 remaining
      then tcp_fields cursor remaining out
      else if protocol == 17 && leb 8 remaining
      then with_ports (codes "UDP") cursor out
      else ok (record out { l4_protocol = format other (protocol ∷ []) })

  unfoldable pub parse_ipv4 : Bytes → ℕ → Result ParsedL4Fields
  parse_ipv4 cursor remaining = if ltb remaining 20 then ok no_fields else do
    version_ihl ← byte_at cursor 0
    let ihl = bit_and version_ihl 0xf * 4
    if ltb ihl 20 || ltb remaining ihl then ok no_fields else do
      protocol ← byte_at cursor 9
      src_ip ← format_ipv4 (drop 12 cursor)
      dst_ip ← format_ipv4 (drop 16 cursor)
      transport_fields "IP_%u" protocol (drop ihl cursor) (remaining - ihl)
          (record no_fields { src_ip = src_ip; dst_ip = dst_ip })

  unfoldable pub parse_ipv6 : Bytes → ℕ → Result ParsedL4Fields
  parse_ipv6 cursor remaining = if ltb remaining 40 then ok no_fields else do
    next_header ← byte_at cursor 6
    src_ip ← format_ipv6 (drop 8 cursor)
    dst_ip ← format_ipv6 (drop 24 cursor)
    transport_fields "IP6_%u" next_header (drop 40 cursor) (remaining - 40)
        (record no_fields { src_ip = src_ip; dst_ip = dst_ip })

  -- A packet whose link type says that it begins with an IP header.
  unfoldable pub raw_fields : Bytes → ℕ → Result ParsedL4Fields
  raw_fields cursor remaining = do
    first ← byte_at cursor 0
    if shr first 4 == 4
        then parse_ipv4 cursor remaining
        else if shr first 4 == 6
        then parse_ipv6 cursor remaining
        else ok (record no_fields { l4_protocol = codes "RAW" })

  -- The network header that an ether type announces; `other` names an unknown one.
  unfoldable pub network_fields : String → ℕ → Bytes → ℕ → Result ParsedL4Fields
  network_fields other ether_type cursor remaining =
      if ether_type == 0x0800
      then parse_ipv4 cursor remaining
      else if ether_type == 0x86DD
      then parse_ipv6 cursor remaining
      else ok (record no_fields { l4_protocol = format other (ether_type ∷ []) })

  unfoldable pub sll_fields : Bytes → ℕ → Result ParsedL4Fields
  sll_fields cursor remaining =
      if ltb remaining 16 then ok (record no_fields { l4_protocol = codes "SLL" }) else do
        protocol ← read_be16 (drop 14 cursor)
        network_fields "SLL_0x%04X" protocol (drop 16 cursor) (remaining - 16)

  -- Behind the addresses: one VLAN tag is passed over.
  unfoldable pub tagged_fields : ℕ → Bytes → ℕ → Result ParsedL4Fields
  tagged_fields ether_type cursor remaining =
      if (ether_type == 0x8100 || ether_type == 0x88A8) && leb 4 remaining
      then (do
        inner_type ← read_be16 (drop 2 cursor)
        network_fields "ETH_0x%04X" inner_type (drop 4 cursor) (remaining - 4))
      else network_fields "ETH_0x%04X" ether_type cursor remaining

  unfoldable pub ethernet_fields : ℕ → Bytes → ℕ → Result ParsedL4Fields
  ethernet_fields data_link cursor remaining =
      if ltb remaining 14
      then ok (record no_fields { l4_protocol = format "LINK_%u" (data_link ∷ []) })
      else do
        ether_type ← read_be16 (drop 12 cursor)
        tagged_fields ether_type (drop 14 cursor) (remaining - 14)

  -- `none` is a null pointer.
  unfoldable pub parse_l4_fields : ℕ → Option Bytes → ℕ → Result ParsedL4Fields
  parse_l4_fields data_link none captured_length = ok no_fields
  parse_l4_fields data_link (some packet_data) captured_length =
      if captured_length == 0
      then ok no_fields
      else if data_link == dlt_raw
      then raw_fields packet_data captured_length
      else if data_link == dlt_linux_sll
      then sll_fields packet_data captured_length
      else ethernet_fields data_link packet_data captured_length
