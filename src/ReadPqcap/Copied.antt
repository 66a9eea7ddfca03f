-- ===== src/ReadPqcap/Copied.antt =====
-- What a COPY of src/pqcap_copy_function.cpp leaves on the disk, and what the macro `read_pqcap` of
-- src/pqcap_reader_extension.cpp reads of it.
use duckdb_pqcap_reader.Base.{◌≡◌, sym, ap, ◌∙◌, List, ok, some, true, Result}
use duckdb_pqcap_reader.Words.{Bytes, codes}
use duckdb_pqcap_reader.Stdio.{reliable, Disk, FilePath}
use duckdb_pqcap_reader.FileApi.{FileSystem, Holds}
use duckdb_pqcap_reader.Location.{read_flags}
use duckdb_pqcap_reader.Scan.{PacketLocation, scan_bytes}
use duckdb_pqcap_reader.Copy.{PqcapCopyBindData}
use duckdb_pqcap_reader.Copy.Sink.{PqcapCopyGlobalState}
use duckdb_pqcap_reader.Metadata.Writer.{SqlEngine, write_metadata_parquet_via_sql}
use duckdb_pqcap_reader.Finalize.{
  DuckdbPaths, resolve_capture_path, temp_parquet_of, pcapng_write_finalize,
}
use duckdb_pqcap_reader.Finalize.Indexing.{finalize-stored}
use duckdb_pqcap_reader.SubFile.{PqcapSubFileHandle, open_file}
use duckdb_pqcap_reader.SubFile.Refinement.{Request, replies, replies_of_memory}
use duckdb_pqcap_reader.ReadPqcap.{read_pqcap_path}
use duckdb_pqcap_reader.ReadPqcap.Roundtrip.{IsIndexed, read_pqcap-embedded}

-- A COPY in the mode pqcap followed by `read_pqcap`: where the metadata was written, every transfer is
-- complete, the Parquet bytes are not empty, the sizes of the file and of its parts are uint64s, and
-- DuckDB's file system opens what the COPY has left at the capture's path, the COPY ends
-- well, `read_pqcap` finds the index and opens it by a subfile path, and to all reads and seeks there it
-- answers as a file would that holds the Parquet bytes which the SQL engine wrote.
pub copy-read_pqcap :
    (paths : DuckdbPaths) (replace : Bytes → Bytes) (engine : SqlEngine) (table_name : Bytes)
    (close_writer : PqcapCopyGlobalState → Disk → Disk) (cfg : PqcapCopyBindData)
    (state : PqcapCopyGlobalState) (output_path capture_path : FilePath)
    (disk closed disk₁ left : Disk) (capture parquet : Bytes) (locations : List PacketLocation)
    (result : Result (Unit {0})) (fs : FileSystem) (inner : fs.Handle) (rs : List Request)
    → cfg.mode ≡ codes "pqcap"
    → close_writer state disk ≡ closed
    → resolve_capture_path paths output_path closed ≡ capture_path
    → closed capture_path ≡ some capture
    → scan_bytes capture ≡ ok locations
    → write_metadata_parquet_via_sql replace engine table_name
        (temp_parquet_of capture_path)
        state.rows
        locations
        cfg.linktype
        closed
      ≡ (ok tt, disk₁)
    → disk₁ capture_path ≡ some capture
    → disk₁ (temp_parquet_of capture_path) ≡ some parquet
    → IsIndexed capture parquet
    → pcapng_write_finalize reliable paths replace engine table_name close_writer cfg state
        output_path disk
      ≡ (result, left)
    → fs.open_file capture_path read_flags ≡ ok (some inner)
    → fs.can_seek inner ≡ true
    → ((content : Bytes) → left capture_path ≡ some content → Holds fs inner content)
    → (path : FilePath) × (h : PqcapSubFileHandle fs) × (result ≡ ok tt)
      × (read_pqcap_path fs capture_path ≡ ok path)
      × (open_file fs path read_flags (some true) ≡ ok h)
      × (replies fs h rs ≡ ok (replies_of_memory (record { bytes = parquet; position = 0 }) rs))
copy-read_pqcap paths replace engine table_name close_writer cfg state output_path capture_path disk
      closed disk₁ left capture parquet locations result fs inner rs pqcap_mode closes resolved
      at_capture scanned wrote kept at_parquet v finalized opened seekable holds =
    let (succeeds, stored) =
      finalize-stored paths replace engine table_name close_writer cfg state output_path
        capture_path disk closed capture locations pqcap_mode closes resolved at_capture scanned
        disk₁ parquet wrote kept at_parquet in
    let stays = ap (λ (o : Result (Unit {0}) × Disk). o.1 capture_path) (sym finalized) ∙ stored in
    let (path, h, located, opens, answers) =
      read_pqcap-embedded capture parquet v fs capture_path inner opened seekable (holds _ stays)
        rs in
    (
      path,
      h,
      ap (λ (o : Result (Unit {0}) × Disk). o.0) (sym finalized) ∙ succeeds,
      located,
      opens,
      answers,
    )
