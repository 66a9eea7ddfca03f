-- ===== src/Finalize.antt =====
-- `ResolveCapturePath` and `PcapngWriteFinalize` of src/pqcap_copy_function.cpp: the end of a COPY.
-- DuckDB's functions on paths and the closing of LightPcapNg's writer are parameters.
pub mod Indexing
pub mod Addressed
pub mod Sample
mod Runs
use duckdb_pqcap_reader.Base.{
  ℕ, List, [], ◌∷◌, ◌++◌, Option, none, some, Bool, not, if◌then◌else◌, drop, take, length, leb,
  ◌&&◌,
}
use duckdb_pqcap_reader.Base.{Result, ok, throw, fault, Exception}
use duckdb_pqcap_reader.Words.{Bytes, codes}
use duckdb_pqcap_reader.Words.Equality.{same_bytes}
use duckdb_pqcap_reader.Stdio.{Stdio, Disk, FilePath}
use duckdb_pqcap_reader.Scan.{PacketLocation, scan_packet_locations}
use duckdb_pqcap_reader.Embed.{embed_parquet_in_pqcap}
use duckdb_pqcap_reader.Copy.{PqcapCopyBindData}
use duckdb_pqcap_reader.Copy.Sink.{PqcapCopyGlobalState}
use duckdb_pqcap_reader.Metadata.Writer.{SqlEngine, write_metadata_parquet_via_sql}

pub record DuckdbPaths : Type 0 where
  pub file_exists : FilePath → Disk → Bool
  pub get_file_path : FilePath → FilePath
  pub get_file_name : FilePath → FilePath
  pub starts_with : Bytes → Bytes → Bool
  pub join_path : FilePath → FilePath → FilePath

unfoldable pub resolve_capture_path : DuckdbPaths → FilePath → Disk → FilePath
resolve_capture_path paths output_path disk =
    if paths.file_exists output_path disk
    then output_path
    else let path = paths.get_file_path output_path in
      let base = paths.get_file_name output_path in
      let final_path = paths.join_path path (drop 4 base) in
      if paths.starts_with base (codes "tmp_")
      then if paths.file_exists final_path disk then final_path else output_path
      else output_path

-- `std::remove(path)`
abbrev pub remove : FilePath → Disk → Disk
remove path disk q = if same_bytes q path then none else disk q

abbrev pub temp_parquet_of : FilePath → FilePath
temp_parquet_of capture_path = capture_path ++ codes ".tmp.meta.parquet"

-- A step that runs only if the one before it returned.
abbrev pub and_then :
    Result (Unit {0}) × Disk → (Disk → Result (Unit {0}) × Disk) → Result (Unit {0}) × Disk
and_then (ok u, disk) step = step disk
and_then (throw e, disk) step = (throw e, disk)
and_then (fault, disk) step = (fault, disk)

module _ (io : Stdio) (paths : DuckdbPaths) (replace : Bytes → Bytes) (engine : SqlEngine)
    (table_name : Bytes) (close_writer : PqcapCopyGlobalState → Disk → Disk) where
  -- From the scan of the written capture on.
  unfoldable pub index_capture :
      PqcapCopyBindData → PqcapCopyGlobalState → FilePath → Disk → Result (Unit {0}) × Disk
  index_capture cfg state capture_path disk = elim (scan_packet_locations io capture_path disk) [
    | throw e ↦ (throw e, disk)
    | fault ↦ (fault, disk)
    | ok locations ↦
        let temp_parquet = temp_parquet_of capture_path in
        and_then
          (write_metadata_parquet_via_sql replace engine table_name temp_parquet state.rows
            locations cfg.linktype disk)
          λ disk₁.
            and_then (embed_parquet_in_pqcap io capture_path temp_parquet disk₁)
              λ disk₂. (ok tt, remove temp_parquet disk₂)
  ]

  unfoldable pub pcapng_write_finalize :
      PqcapCopyBindData → PqcapCopyGlobalState → FilePath → Disk → Result (Unit {0}) × Disk
  pcapng_write_finalize cfg state output_path disk =
      let closed = close_writer state disk in
      if not (same_bytes cfg.mode (codes "pqcap"))
      then (ok tt, closed)
      else index_capture cfg state (resolve_capture_path paths output_path closed) closed
