-- ===== src/Table/Bind.antt =====
-- `ReadPqcapPacketsBind` of src/pqcap_packet_table.cpp, and the values that `ReadPqcapPacketsFunction` sets
-- in a row by `SetRowValue` and `SetPayloadValue`, with their types.
pub mod Typed
use duckdb_pqcap_reader.Base.{
  ℕ, ◌%◌, ◌^◌, ◌<◌, List, [], ◌∷◌, Option, none, some, Result, ok, throw, binder_exception,
}
use duckdb_pqcap_reader.Words.{Bytes, codes, IsU16, IsU64}
use duckdb_pqcap_reader.Table.{PacketRow}

-- The types of DuckDB that the extension names.
pub data LogicalType : Type 0 where
  bigint ubigint usmallint uinteger integer varchar blob_type : LogicalType

-- The constructors of DuckDB's `Value` that the function calls; the first is that of a NULL.
pub data Value : Type 0 where
  null_of : LogicalType → Value
  of_bigint : ℕ → Value
  of_ubigint : ℕ → Value
  of_usmallint : ℕ → Value
  of_integer : ℕ → Value
  of_varchar : Bytes → Value
  of_blob : Bytes → Value

-- The values of a type. Of the signed ones only those that are not negative occur.
pub data IsOf : LogicalType → Value → Type 0 where
  null_fits : {t : LogicalType} → IsOf t (null_of t)
  bigint_fits : {n : ℕ} → n < 2 ^ 63 → IsOf bigint (of_bigint n)
  ubigint_fits : {n : ℕ} → IsU64 n → IsOf ubigint (of_ubigint n)
  usmallint_fits : {n : ℕ} → IsU16 n → IsOf usmallint (of_usmallint n)
  integer_fits : {n : ℕ} → n < 2 ^ 31 → IsOf integer (of_integer n)
  varchar_fits : {s : Bytes} → IsOf varchar (of_varchar s)
  blob_fits : {s : Bytes} → IsOf blob_type (of_blob s)

pub record PqcapPacketsBindData : Type 0 where
  pub source_path : Bytes
  pub return_types : List LogicalType
  pub names : List Bytes

abbrev pub packet_types : List LogicalType
packet_types =
    bigint ∷ ubigint ∷ usmallint ∷ ubigint ∷ ubigint ∷ varchar ∷ varchar ∷ varchar ∷ integer
    ∷ integer ∷ varchar ∷ blob_type ∷ []

abbrev pub packet_names : List Bytes
packet_names =
    codes "timestamp_micros"
    ∷ codes "interface_id"
    ∷ codes "data_link"
    ∷ codes "captured_length"
    ∷ codes "orig_len"
    ∷ codes "comment"
    ∷ codes "src_ip"
    ∷ codes "dst_ip"
    ∷ codes "src_port"
    ∷ codes "dst_port"
    ∷ codes "l4_protocol"
    ∷ codes "payload"
    ∷ []

-- The arguments of the call; `none` is NULL.
unfoldable pub read_pqcap_packets_bind : List (Option Bytes) → Result PqcapPacketsBindData
read_pqcap_packets_bind (some path ∷ []) =
    ok (record { source_path = path; return_types = packet_types; names = packet_names })
read_pqcap_packets_bind (none ∷ []) =
    throw (binder_exception "read_pqcap_packets(path): path argument is NULL" [])
read_pqcap_packets_bind [] =
    throw (binder_exception "read_pqcap_packets(path): expected exactly one argument" [])
read_pqcap_packets_bind (path ∷ path' ∷ inputs) =
    throw (binder_exception "read_pqcap_packets(path): expected exactly one argument" [])

abbrev pub varchar_or_null : Option Bytes → Value
varchar_or_null none = null_of varchar
varchar_or_null (some s) = of_varchar s

abbrev pub integer_or_null : Option ℕ → Value
integer_or_null none = null_of integer
integer_or_null (some n) = of_integer n

-- `SetPayloadValue`
unfoldable pub payload_value : Option Bytes → Value
payload_value none = null_of blob_type
payload_value (some []) = null_of blob_type
payload_value (some (b ∷ s)) = of_blob (b ∷ s)

-- The twelve calls of `SetRowValue` for a row, by column.
unfoldable pub set_row_values : PacketRow → List Value
unfolding payload_value
set_row_values row =
    of_bigint row.timestamp_micros
    ∷ of_ubigint row.interface_id
    ∷ of_usmallint (row.data_link % 2 ^ 16)
    ∷ of_ubigint row.captured_length
    ∷ of_ubigint row.orig_len
    ∷ varchar_or_null row.comment
    ∷ varchar_or_null row.src_ip
    ∷ varchar_or_null row.dst_ip
    ∷ integer_or_null row.src_port
    ∷ integer_or_null row.dst_port
    ∷ of_varchar row.l4_protocol
    ∷ payload_value row.payload
    ∷ []
