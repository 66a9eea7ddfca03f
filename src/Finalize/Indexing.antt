-- ===== src/Finalize/Indexing.antt =====
-- What `PcapngWriteFinalize` of src/pqcap_copy_function.cpp leaves on the disk.
use duckdb_pqcap_reader.Base.{
  ◌≡◌, ◌≢◌, refl, ap, ◌∙◌, arith, List, some, none, true, ◌==◌, length, length-append,
}
use duckdb_pqcap_reader.Base.{Result, ok}
use duckdb_pqcap_reader.Words.{Bytes, codes}
use duckdb_pqcap_reader.Words.Equality.{same_bytes_refl, same_bytes_of_ne}
use duckdb_pqcap_reader.Stdio.{reliable, Disk, FilePath, store}
use duckdb_pqcap_reader.Scan.{PacketLocation, scan_bytes, scan_packet_locations}
use duckdb_pqcap_reader.Embed.{embedded}
use duckdb_pqcap_reader.Embed.Stored.{embed_parquet_in_pqcap-store}
use duckdb_pqcap_reader.Copy.{PqcapCopyBindData}
use duckdb_pqcap_reader.Copy.Sink.{PqcapCopyGlobalState}
use duckdb_pqcap_reader.Metadata.Writer.{SqlEngine, write_metadata_parquet_via_sql}
use duckdb_pqcap_reader.Finalize.{
  DuckdbPaths, resolve_capture_path, remove, temp_parquet_of, index_capture, pcapng_write_finalize,
}

pub scan_packet_locations-reliable :
    (path : FilePath) (disk : Disk) (content : Bytes)
    → disk path ≡ some content
    → scan_packet_locations reliable path disk ≡ scan_bytes content
unfolding scan_packet_locations
scan_packet_locations-reliable path disk content at =
    let same : (length content == length content) ≡ true = ground arith in
    rw (scan_packet_locations, at) (ground (arith, same))

pub other_path : (path : FilePath) → path ≢ temp_parquet_of path
other_path path h =
    let longer = length-append path (codes ".tmp.meta.parquet") in
    omega (arith, ap (λ (p : Bytes). length p) h, longer)

module _ (paths : DuckdbPaths) (replace : Bytes → Bytes) (engine : SqlEngine) (table_name : Bytes)
    (close_writer : PqcapCopyGlobalState → Disk → Disk) (cfg : PqcapCopyBindData)
    (state : PqcapCopyGlobalState) (output_path capture_path : FilePath) (disk closed : Disk)
    (capture : Bytes) (locations : List PacketLocation) (pqcap_mode : cfg.mode ≡ codes "pqcap")
    (closes : close_writer state disk ≡ closed)
    (resolved : resolve_capture_path paths output_path closed ≡ capture_path)
    (at_capture : closed capture_path ≡ some capture)
    (scanned : scan_bytes capture ≡ ok locations) where
  abbrev finalized : Result (Unit {0}) × Disk
  finalized =
      pcapng_write_finalize reliable paths replace engine table_name close_writer cfg state
        output_path disk

  finalized_lem :
      finalized
      ≡ index_capture reliable paths replace engine table_name close_writer cfg state capture_path
          closed
  unfolding pcapng_write_finalize
  finalized_lem = rw (pcapng_write_finalize, closes, resolved, pqcap_mode)

  module _ (disk₁ : Disk) (parquet : Bytes)
      (wrote : write_metadata_parquet_via_sql replace engine table_name
          (temp_parquet_of capture_path)
          state.rows
          locations
          cfg.linktype
          closed
        ≡ (ok tt, disk₁))
      (kept : disk₁ capture_path ≡ some capture)
      (at_parquet : disk₁ (temp_parquet_of capture_path) ≡ some parquet) where
    indexed_lem : finalized ≡ (
      ok tt,
      remove (temp_parquet_of capture_path) (store capture_path (embedded capture parquet) disk₁),
    )
    unfolding index_capture
    indexed_lem =
        finalized_lem
        ∙ rw (
          index_capture,
          scan_packet_locations-reliable capture_path closed capture at_capture,
          scanned,
          wrote,
          embed_parquet_in_pqcap-store capture_path (temp_parquet_of capture_path) disk₁ capture
              parquet kept at_parquet,
        )

    -- The indexed capture is at the capture's path.
    pub finalize-stored :
        (finalized.0 ≡ ok tt) × (finalized.1 capture_path ≡ some (embedded capture parquet))
    finalize-stored =
        let apart =
          same_bytes_of_ne capture_path (temp_parquet_of capture_path) (other_path capture_path) in
        rw indexed_lem (refl, rw (apart, same_bytes_refl capture_path))

    -- A COPY in the mode pqcap whose metadata was written ends well where every transfer is complete:
    -- the capture's path holds the indexed capture, with the Parquet bytes that the SQL engine left at
    -- the temporary path, that path is gone, and any other path is as the engine has left it.
    pub finalize-indexed :
        (q : FilePath)
        → q ≢ capture_path
        → q ≢ temp_parquet_of capture_path
        → (finalized.0 ≡ ok tt)
          × (finalized.1 capture_path ≡ some (embedded capture parquet))
          × (finalized.1 (temp_parquet_of capture_path) ≡ none)
          × (finalized.1 q ≡ disk₁ q)
    finalize-indexed q other no_temp =
        let temp = temp_parquet_of capture_path in
        let (succeeds, stored) = finalize-stored in
        (
          succeeds,
          stored,
          rw (indexed_lem, same_bytes_refl temp),
          rw (indexed_lem, same_bytes_of_ne q temp no_temp, same_bytes_of_ne q capture_path other),
        )
