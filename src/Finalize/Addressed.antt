-- ===== src/Finalize/Addressed.antt =====
-- A whole COPY of src/pqcap_copy_function.cpp: the sinks of several threads, and the end that scans the
-- capture and stores the index. What LightPcapNg's writer makes of the packets is a hypothesis.
use duckdb_pqcap_reader.Base.{
  suc, ◌+◌, ◌≡◌, refl, sym, ap, ◌∙◌, List, [], ◌∷◌, some, length, All, ok, ok-injective,
}
use mathlib.Core.Path.{subst}
use duckdb_pqcap_reader.Words.{Bytes, codes, IsByte, IsU32, IsU64}
use duckdb_pqcap_reader.Classic.{LightPacketHeader}
use duckdb_pqcap_reader.Stdio.{reliable, Disk, FilePath}
use duckdb_pqcap_reader.Scan.{PacketLocation, scan_bytes}
use duckdb_pqcap_reader.Scan.Packets.{
  CaptureBlock, IsCaptureBlock, encode_capture, packets_in, Addressed, Addressed-length,
  scan_bytes-Addressed,
}
use duckdb_pqcap_reader.Embed.{custom_body, embedded}
use duckdb_pqcap_reader.Copy.{DuckdbValues, PqcapCopyBindData}
use duckdb_pqcap_reader.Copy.Sink.{PacketRowData, PqcapCopyGlobalState}
use duckdb_pqcap_reader.Copy.Sink.Packets.{packets}
use duckdb_pqcap_reader.Copy.Session.{LightWriter, pcapng_write_initialize_global, Log, Reach, idle}
use duckdb_pqcap_reader.Copy.Session.Serial.{pcapng_write-serial}
use duckdb_pqcap_reader.Metadata.Writer.{SqlEngine, write_metadata_parquet_via_sql}
use duckdb_pqcap_reader.Finalize.{
  DuckdbPaths, resolve_capture_path, temp_parquet_of, pcapng_write_finalize,
}
use duckdb_pqcap_reader.Finalize.Indexing.{finalize-stored}

abbrev pub written_bytes : List (LightPacketHeader × Bytes) → List Bytes
written_bytes [] = []
written_bytes ((header, bytes) ∷ written) = bytes ∷ written_bytes written

-- The payloads of the rows that the COPY kept.
abbrev pub payloads : List PacketRowData → List Bytes
payloads [] = []
payloads (row ∷ rows) = row.packet_bytes ∷ payloads rows

-- LightPcapNg's writer has put each packet that it was given, in order, into an Enhanced Packet Block or
-- whole into a Simple Packet Block.
pub record IsWritten (written : List (LightPacketHeader × Bytes)) (cs : List CaptureBlock)
    : Type 0 where
  pub whole : All IsCaptureBlock cs
  pub each_packet : packets_in cs ≡ written_bytes written

written_bytes-packets :
    (cfg : PqcapCopyBindData) (rows : List PacketRowData)
    → written_bytes (packets cfg rows) ≡ payloads rows
written_bytes-packets cfg [] = refl
written_bytes-packets cfg (row ∷ rows) =
    ap (λ t. row.packet_bytes ∷ t) (written_bytes-packets cfg rows)

length-payloads : (rows : List PacketRowData) → length (payloads rows) ≡ length rows
length-payloads [] = refl
length-payloads (row ∷ rows) = ap suc (length-payloads rows)

-- A COPY in the mode pqcap, from the call that opens the output to the end, by any number of threads:
-- where LightPcapNg wrote each packet, in order, into an Enhanced Packet Block or whole into a Simple
-- Packet Block, the metadata was written for the rows with the locations that the scan returned, every
-- transfer is complete, and the sizes of the capture and of the block around the Parquet bytes fit, there
-- are as many locations as rows that the COPY kept, and in the file that is left at the capture's path
-- the location of each of these rows holds the text that the sink read from its column `payload`.
pub copy-Addressed :
    (duckdb : DuckdbValues) (lib : LightWriter) (paths : DuckdbPaths) (replace : Bytes → Bytes)
    (engine : SqlEngine) (table_name : Bytes) (close_writer : PqcapCopyGlobalState → Disk → Disk)
    (cfg : PqcapCopyBindData) (file_path output_path capture_path : FilePath)
    (disk₀ opened disk closed disk₁ : Disk) (start state : PqcapCopyGlobalState) (log : Log duckdb)
    (cs : List CaptureBlock) (locations : List PacketLocation) (parquet : Bytes)
    → cfg.mode ≡ codes "pqcap"
    → pcapng_write_initialize_global lib cfg file_path disk₀ ≡ (ok (start, output_path), opened)
    → Reach duckdb cfg start log (record { state = state; phase = idle })
    → close_writer state disk ≡ closed
    → resolve_capture_path paths output_path closed ≡ capture_path
    → closed capture_path ≡ some (encode_capture cs)
    → IsWritten state.written cs
    → scan_bytes (encode_capture cs) ≡ ok locations
    → write_metadata_parquet_via_sql replace engine table_name
        (temp_parquet_of capture_path)
        state.rows
        locations
        cfg.linktype
        closed
      ≡ (ok tt, disk₁)
    → disk₁ capture_path ≡ some (encode_capture cs)
    → disk₁ (temp_parquet_of capture_path) ≡ some parquet
    → All IsByte parquet
    → IsU64 (length (encode_capture cs) + 33)
    → IsU32 (12 + length (custom_body parquet))
    → let (result, left) =
        pcapng_write_finalize reliable paths replace engine table_name close_writer cfg state
          output_path disk in
      (content : Bytes) × (result ≡ ok tt)
      × (left capture_path ≡ some content)
      × (length locations ≡ length state.rows)
      × Addressed content locations (payloads state.rows)
copy-Addressed duckdb lib paths replace engine table_name close_writer cfg file_path output_path
      capture_path disk₀ opened disk closed disk₁ start state log cs locations parquet pqcap_mode
      initialized reached closes resolved at_capture w scanned wrote kept at_parquet bytes fits
      short =
    let capture = encode_capture cs in
    let (serial, in_step, same_path) =
      pcapng_write-serial duckdb cfg lib file_path output_path disk₀ opened start log state
        initialized reached in
    let (locs, found, found_again, in_capture, in_file) =
      scan_bytes-Addressed cs parquet w.whole bytes fits short in
    let same_locs : locs ≡ locations = ok-injective (sym found ∙ scanned) in
    let same_packets : packets_in cs ≡ payloads state.rows =
      w.each_packet ∙ (ap written_bytes in_step ∙ written_bytes-packets cfg state.rows) in
    let addressed : Addressed (embedded capture parquet) locations (payloads state.rows) =
      subst (λ l. Addressed (embedded capture parquet) l (payloads state.rows)) same_locs
        (subst (λ p. Addressed (embedded capture parquet) locs p) same_packets in_file) in
    let (succeeds, stored) =
      finalize-stored paths replace engine table_name close_writer cfg state output_path
        capture_path disk closed capture locations pqcap_mode closes resolved at_capture scanned
        disk₁ parquet wrote kept at_parquet in
    (
      embedded capture parquet,
      succeeds,
      stored,
      Addressed-length (embedded capture parquet) locations (payloads state.rows) addressed
          ∙ length-payloads state.rows,
      addressed,
    )
