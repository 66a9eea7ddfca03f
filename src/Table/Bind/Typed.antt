-- ===== src/Table/Bind/Typed.antt =====
-- The types of the rows of `read_pqcap_packets`, src/pqcap_packet_table.cpp.
use duckdb_pqcap_reader.Base.{
  ℕ, ◌^◌, ◌<◌, ◌≤◌, ◌≡◌, refl, sym, ap, ◌∙◌, arith, List, [], ◌∷◌, Option, none, some, String,
  length, Result, ok, fault, ok-injective, if◌then◌else◌, ltb, Bool-cases, inl, inr,
}
use mathlib.Core.Path.{subst}
use duckdb_pqcap_reader.Words.{Bytes, IsU32}
use duckdb_pqcap_reader.Classic.{LightPacketHeader}
use duckdb_pqcap_reader.Layers.{ParsedL4Fields, parse_l4_fields}
use duckdb_pqcap_reader.Layers.Safe.{IsConsistent, without_ports, with_both, parse_l4_fields_safe}
use duckdb_pqcap_reader.Table.{PacketRow, packet_row, set_row, text_or_null, micros, comment_of}
use duckdb_pqcap_reader.Table.Rows.{packet_row-RowOf, packet_row-overflow}
use duckdb_pqcap_reader.Table.Bind.{
  LogicalType, varchar, integer, blob_type, Value, IsOf, null_fits, bigint_fits, ubigint_fits,
  usmallint_fits, integer_fits, varchar_fits, blob_fits, PqcapPacketsBindData, packet_types,
  read_pqcap_packets_bind, varchar_or_null, integer_or_null, payload_value, set_row_values,
}

-- One value for each type, and it is of that type.
infixr 5 ◌▹◌
pub data HasTypes : List LogicalType → List Value → Type 0 where
  no_columns : HasTypes [] []
  ◌▹◌ :
      {t : LogicalType} {v : Value} {types : List LogicalType} {values : List Value}
      → IsOf t v
      → HasTypes types values
      → HasTypes (t ∷ types) (v ∷ values)

-- The ranges of the fields of `light_packet_header`, times aside.
pub record IsHeader (header : LightPacketHeader) : Type 0 where
  pub interface_fits : IsU32 header.interface_id
  pub captured_fits : IsU32 header.captured_length
  pub original_fits : IsU32 header.original_length

-- A row whose values are of these types, or an int64 overflow: the time decides which.
pub data Made (types : List LogicalType) (header : LightPacketHeader)
    : Result PacketRow → Type 0 where
  in_time :
      {row : PacketRow}
      → micros header < 2 ^ 63
      → HasTypes types (set_row_values row)
      → Made types header (ok row)
  overflowing : 2 ^ 63 ≤ micros header → Made types header fault

varchar_or_null-IsOf : (s : Option Bytes) → IsOf varchar (varchar_or_null s)
varchar_or_null-IsOf none = null_fits
varchar_or_null-IsOf (some s) = varchar_fits

payload_value-IsOf : (s : Option Bytes) → IsOf blob_type (payload_value s)
unfolding payload_value
payload_value-IsOf none = null_fits
payload_value-IsOf (some []) = null_fits
payload_value-IsOf (some (b ∷ s)) = blob_fits

module _ (format : String → List ℕ → Bytes) where
  parsed-IsConsistent :
      (data_link : ℕ) (bytes : Bytes) (parsed : ParsedL4Fields)
      → parse_l4_fields format data_link (text_or_null bytes) (length bytes) ≡ ok parsed
      → IsConsistent parsed
  unfolding parse_l4_fields
  parsed-IsConsistent data_link [] parsed e =
      subst IsConsistent (ok-injective e) (without_ports refl refl refl)
  parsed-IsConsistent data_link (b ∷ bytes) parsed e =
      let (parsed', e', consistent) =
        parse_l4_fields_safe format data_link (b ∷ bytes) (length (b ∷ bytes)) (omega arith) in
      subst IsConsistent (ok-injective (sym e' ∙ e)) consistent

  port_types :
      (parsed : ParsedL4Fields)
      → IsConsistent parsed
      → IsOf integer (integer_or_null (if parsed.has_ports then some parsed.src_port else none))
        × IsOf integer (integer_or_null (if parsed.has_ports then some parsed.dst_port else none))
  port_types parsed (without_ports absent no_source no_destination) =
      rw absent (null_fits, null_fits)
  port_types parsed (with_both present source destination named) =
      rw present (integer_fits (omega arith), integer_fits (omega arith))

  set_row-HasTypes :
      (header : LightPacketHeader) (packet : Option Bytes) (parsed : ParsedL4Fields)
      → IsHeader header
      → micros header < 2 ^ 63
      → IsConsistent parsed
      → HasTypes packet_types (set_row_values (set_row (micros header) header packet parsed))
  unfolding set_row_values set_row
  set_row-HasTypes header packet parsed v timed ports =
      let (has_source, has_destination) = port_types parsed ports in
      bigint_fits timed
      ▹ ubigint_fits (omega (arith, v.interface_fits))
      ▹ usmallint_fits (omega arith)
      ▹ ubigint_fits (omega (arith, v.captured_fits))
      ▹ ubigint_fits (omega (arith, v.original_fits))
      ▹ varchar_or_null-IsOf (text_or_null (comment_of header))
      ▹ varchar_or_null-IsOf (text_or_null parsed.src_ip)
      ▹ varchar_or_null-IsOf (text_or_null parsed.dst_ip)
      ▹ has_source
      ▹ has_destination
      ▹ varchar_fits
      ▹ payload_value-IsOf packet
      ▹ no_columns

  packet_row-Made :
      (header : LightPacketHeader) (bytes : Bytes)
      → IsHeader header
      → header.captured_length ≡ length bytes
      → Made packet_types header (packet_row format header (some bytes))
  packet_row-Made header bytes v same_length =
      let captured_fits = v.captured_fits in
      let length_fits : IsU32 (length bytes) = omega arith in
      elim (Bool-cases (ltb (micros header) (2 ^ 63))) [
        | inl early ↦
            let timed : micros header < 2 ^ 63 = ground arith in
            let (row, made, (parsed, e, is_row)) =
              packet_row-RowOf format (header, bytes)
                (record {
                  same_length = same_length;
                  length_fits = length_fits;
                  time_fits = timed;
                }) in
            let typed =
              set_row-HasTypes header (text_or_null bytes) parsed v timed
                (parsed-IsConsistent header.data_link bytes parsed e) in
            subst (Made packet_types header) (sym made) (
              in_time timed
                (subst (λ r. HasTypes packet_types (set_row_values r)) (sym is_row) typed))
        | inr late ↦
            let over : 2 ^ 63 ≤ micros header = ground arith in
            subst (Made packet_types header)
              (sym (packet_row-overflow format header bytes same_length length_fits over))
              (overflowing over)
      ]

-- The binding accepts one argument that is not NULL, and declares one name for each type. For a packet
-- whose header's fields have the ranges of their C types and whose bytes are all there, a row is made if
-- its time in microseconds is below 2 ^ 63, with one value for each of the types declared, of this
-- type and in its range; from 2 ^ 63 on, the sum that makes the time stamp overflows.
pub read_pqcap_packets_bind-Made :
    (format : String → List ℕ → Bytes) (inputs : List (Option Bytes)) (b : PqcapPacketsBindData)
    (header : LightPacketHeader) (bytes : Bytes)
    → read_pqcap_packets_bind inputs ≡ ok b
    → IsHeader header
    → header.captured_length ≡ length bytes
    → (inputs ≡ some b.source_path ∷ [])
      × (length b.names ≡ length b.return_types)
      × Made b.return_types header (packet_row format header (some bytes))
unfolding read_pqcap_packets_bind
read_pqcap_packets_bind-Made format (some path ∷ []) b header bytes bound v same_length =
    let declared = ok-injective bound in
    (
      ap (λ (c : PqcapPacketsBindData). some c.source_path ∷ []) declared,
      ap (λ (c : PqcapPacketsBindData). length c.names) (sym declared)
          ∙ ap (λ (c : PqcapPacketsBindData). length c.return_types) declared,
      subst
          (λ (c : PqcapPacketsBindData).
            Made c.return_types header (packet_row format header (some bytes)))
          declared (packet_row-Made format header bytes v same_length),
    )
read_pqcap_packets_bind-Made format (none ∷ []) b header bytes bound v same_length = cc
read_pqcap_packets_bind-Made format [] b header bytes bound v same_length = cc
read_pqcap_packets_bind-Made format (path ∷ path' ∷ inputs) b header bytes bound v same_length = cc
