-- ===== src/EmbedIndex.antt =====
-- `FetchPacketFeaturesFromCapture`, `EmbedPqcapIndex` and `PqcapEmbedIndexFunction` of
-- src/pqcap_copy_function.cpp: an index for a capture that is there already. The SQL query over
-- `read_pqcap_packets` is a parameter, which throws or returns rows of values.
pub mod Select
pub mod Once
pub mod Addressed
mod Runs
use duckdb_pqcap_reader.Base.{
  ℕ, zero, suc, List, [], ◌∷◌, ◌++◌, Option, none, some, Bool, true, false, ◌==◌, not,
  if◌then◌else◌, length, ◌%◌, ◌^◌,
}
use duckdb_pqcap_reader.Base.{
  Result, ok, throw, fault, ◌>>=◌, io_exception, invalid_input_exception,
}
use duckdb_pqcap_reader.Words.{Bytes, codes}
use duckdb_pqcap_reader.Decimal.{to_string}
use duckdb_pqcap_reader.Stdio.{Stdio, Disk, FilePath}
use duckdb_pqcap_reader.FileApi.{FileSystem}
use duckdb_pqcap_reader.Scan.{PacketLocation, scan_packet_locations}
use duckdb_pqcap_reader.Embed.{embed_parquet_in_pqcap}
use duckdb_pqcap_reader.Copy.Sink.{PacketRowData}
use duckdb_pqcap_reader.Table.Bind.{
  LogicalType, bigint, ubigint, usmallint, integer, Value, null_of,
}
use duckdb_pqcap_reader.Metadata.{sql_escape}
use duckdb_pqcap_reader.Metadata.Writer.{SqlEngine, write_metadata_parquet_via_sql}
use duckdb_pqcap_reader.Finalize.{remove, temp_parquet_of, and_then}
use duckdb_pqcap_reader.Plain.{ensure_plain_capture}

-- What the code calls of DuckDB: a query over a connection, which throws or returns the rows of its result,
-- and of a `Value` the cast `DefaultCastAs(type)` followed by `GetValue` of a number, and
-- `GetValue<string>`.
pub record QueryCalls : Type 0 where
  pub query : Bytes → Disk → Result (List (List Value))
  pub get_number : LogicalType → Value → Result ℕ
  pub get_string : Value → Result Bytes

-- `materialized.GetValue(k, r)`, of a row `r`; a column that is not there is not to be read.
unfoldable pub get_value : ℕ → List Value → Result Value
get_value k [] = fault
get_value zero (v ∷ row) = ok v
get_value (suc k) (v ∷ row) = get_value k row

abbrev pub is_null : Value → Bool
is_null (null_of t) = true
is_null v = false

module _ (con : QueryCalls) where
  -- A column with a number, 0 where it is NULL.
  unfoldable pub number_at : LogicalType → ℕ → List Value → Result ℕ
  number_at type k row = do v ← get_value k row; if is_null v then ok 0 else con.get_number type v

  -- A column with a text, empty where it is NULL.
  unfoldable pub text_at : ℕ → List Value → Result Bytes
  text_at k row = do v ← get_value k row; if is_null v then ok [] else con.get_string v

  -- A port and whether it is there. The cast is from int32_t to uint32_t.
  unfoldable pub port_at : ℕ → List Value → Result (Bool × ℕ)
  port_at k row = do
    v ← get_value k row
    if is_null v
        then ok (false, 0)
        else do port ← con.get_number integer v; ok (true, port % 2 ^ 32)

  -- The packet of a row of the result, by the positions of its columns. The payload is not asked for.
  unfoldable pub features_of : (Bytes → Bytes) → List Value → Result PacketRowData
  features_of lower row = do
    time ← get_value 0 row
    ts_micros ← con.get_number bigint time
    interface_id ← number_at ubigint 1 row
    data_link ← number_at usmallint 2 row
    captured_length ← number_at ubigint 3 row
    original ← get_value 4 row
    orig_len ← con.get_number ubigint original
    comment ← text_at 5 row
    src_ip ← text_at 6 row
    (has_src_port, src_port) ← port_at 7 row
    dst_ip ← text_at 8 row
    (has_dst_port, dst_port) ← port_at 9 row
    l4_protocol ← get_value 10 row
    protocols ←
        (if is_null l4_protocol
          then ok []
          else do name ← con.get_string l4_protocol; ok (lower name))
    ok (record {
      ts_micros = ts_micros;
      orig_len = orig_len;
      captured_length = captured_length;
      interface_id = interface_id;
      data_link = data_link;
      comment = comment;
      packet_bytes = [];
      src_ip = src_ip;
      dst_ip = dst_ip;
      has_src_port = has_src_port;
      has_dst_port = has_dst_port;
      src_port = src_port;
      dst_port = dst_port;
      protocols = protocols;
    })

  unfoldable pub all_features : (Bytes → Bytes) → List (List Value) → Result (List PacketRowData)
  all_features lower [] = ok []
  all_features lower (row ∷ rows) = do
    features ← features_of lower row
    more ← all_features lower rows
    ok (features ∷ more)

abbrev pub features_query : (Bytes → Bytes) → FilePath → Bytes
features_query replace path =
    codes "SELECT timestamp_micros, interface_id, data_link, captured_length, "
    ++ (codes "orig_len, comment, src_ip, src_port, dst_ip, dst_port, l4_protocol "
        ++ (codes "FROM read_pqcap_packets('" ++ (sql_escape replace path ++ codes "')")))

abbrev pub default_linktype_of : List PacketRowData → ℕ
default_linktype_of [] = 1
default_linktype_of (row ∷ rows) = if row.data_link == 0 then 1 else row.data_link

module _ (fs : FileSystem) (io : Stdio) (lower replace expand_path : Bytes → Bytes)
    (con : QueryCalls) (engine : SqlEngine) (table_name : Bytes) where
  unfoldable pub fetch_packet_features_from_capture : FilePath → Disk → Result (List PacketRowData)
  fetch_packet_features_from_capture path disk = do
    rows ← con.query (features_query replace path) disk
    all_features con lower rows

  -- The checks in front of the first write: the rows and the places of their packets.
  unfoldable pub checked_features :
      FilePath → Disk → Result (List PacketRowData × List PacketLocation)
  checked_features path disk = do
    plain ← ensure_plain_capture fs path
    rows ← fetch_packet_features_from_capture path disk
    locations ← scan_packet_locations io path disk
    if not (length rows == length locations)
        then throw (
            io_exception
              "pqcap_embed_index: packet count mismatch (features=%llu blocks=%llu) in %s"
              (to_string (length rows) ∷ to_string (length locations) ∷ path ∷ []))
        else ok (rows, locations)

  -- The metadata is written, embedded, and its file removed.
  unfoldable pub embed_features :
      FilePath → List PacketRowData → List PacketLocation → Disk → Result (Unit {0}) × Disk
  embed_features path rows locations disk =
      let temp_parquet = temp_parquet_of path in
      and_then
        (write_metadata_parquet_via_sql replace engine table_name temp_parquet rows locations
          (default_linktype_of rows) disk)
        λ disk₁.
          and_then (embed_parquet_in_pqcap io path temp_parquet disk₁)
            λ disk₂. (ok tt, remove temp_parquet disk₂)

  unfoldable pub embed_pqcap_index : FilePath → Disk → Result ℕ × Disk
  embed_pqcap_index path_in disk =
      let path = expand_path path_in in
      elim (checked_features path disk) [
        | throw e ↦ (throw e, disk)
        | fault ↦ (fault, disk)
        | ok found ↦
            let (rows, locations) = found in
            let (result, disk') = embed_features path rows locations disk in
            elim result [
              | throw e ↦ (throw e, disk')
              | fault ↦ (fault, disk')
              | ok u ↦ (ok (length rows), disk')
            ]
      ]

  -- The rows of a chunk, `none` where the path is NULL. Rows before an exception stay indexed.
  unfoldable pub pqcap_embed_index_function : List (Option FilePath) → Disk → Result (List ℕ) × Disk
  pqcap_embed_index_function [] disk = (ok [], disk)
  pqcap_embed_index_function (none ∷ rows) disk =
      (throw (invalid_input_exception "pqcap_embed_index(path): path is NULL" []), disk)
  pqcap_embed_index_function (some path ∷ rows) disk =
      let (result, disk') = embed_pqcap_index path disk in
      let (more, disk'') = pqcap_embed_index_function rows disk' in
      elim result [
        | throw e ↦ (throw e, disk')
        | fault ↦ (fault, disk')
        | ok count ↦ elim more [
          | throw e ↦ (throw e, disk'')
          | fault ↦ (fault, disk'')
          | ok counts ↦ (ok (count ∷ counts), disk'')
        ]
      ]
