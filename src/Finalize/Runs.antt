-- ===== src/Finalize/Runs.antt =====
-- The theorems on the end of a COPY, src/pqcap_copy_function.cpp, at a capture with one packet.
use duckdb_pqcap_reader.Base.{
  ◌≡◌, refl, arith, ◌∷◌, [], some, none, List, ok, if◌then◌else◌, All, length,
}
use duckdb_pqcap_reader.Words.{Bytes, codes, le_bytes}
use duckdb_pqcap_reader.Words.Equality.{same_bytes}
use duckdb_pqcap_reader.Stdio.{Disk, reliable, store}
use duckdb_pqcap_reader.Scan.{PacketLocation, scan_bytes, scan_loop, packet_location, read_le32}
use duckdb_pqcap_reader.Embed.{embedded, custom_body}
use duckdb_pqcap_reader.Embed.Layout.{custom_body_lem}
use duckdb_pqcap_reader.Copy.{default_bind_data}
use duckdb_pqcap_reader.Copy.Cells.{cells, empty}
use duckdb_pqcap_reader.Copy.Session.Runs as Session
use duckdb_pqcap_reader.Scan.Packets.{
  CaptureBlock, IsCaptureBlock, enhanced, other, encode_capture, Addressed,
}
use duckdb_pqcap_reader.Finalize.Addressed.{payloads, copy-Addressed}
use duckdb_pqcap_reader.Metadata.Writer.{write_metadata_parquet_via_sql}
use duckdb_pqcap_reader.Finalize.{resolve_capture_path, temp_parquet_of, pcapng_write_finalize}
use duckdb_pqcap_reader.Finalize.Indexing.{finalize-indexed}
use duckdb_pqcap_reader.Finalize.Sample.{
  capture, locations, scanned, row, state_of, capture_path, temp, parquet, disk, engine, paths,
  resolved, keep, wrote,
}

finalize-indexed_example :
    let (result, disk') =
      pcapng_write_finalize reliable paths keep engine
        (codes "t")
        (λ state d. d)
        default_bind_data
        (state_of (row ∷ []))
        capture_path
        disk in
    (result ≡ ok tt)
    × (disk' capture_path ≡ some (embedded capture parquet))
    × (disk' (temp_parquet_of capture_path) ≡ none)
    × (disk' (codes "x") ≡ store temp parquet disk (codes "x"))
finalize-indexed_example =
    finalize-indexed paths keep engine (codes "t") (λ state d. d) default_bind_data
      (state_of (row ∷ [])) capture_path capture_path disk disk capture locations refl refl resolved
      refl scanned (store temp parquet disk) parquet wrote refl refl (codes "x") (λ e. cc e)
      (λ e. cc e)

-- A section header and the packet of the tests of the sinks, with its row.
abbrev blocks : List CaptureBlock
blocks =
    other (record { block_type = 168627466; body = le_bytes 4 439041101 })
    ∷ enhanced (record {
      interface_id = 0;
      timestamp_high = 0;
      timestamp_low = 60;
      original_len = 60;
      packet = 1 ∷ 2 ∷ 3 ∷ 4 ∷ [];
      rest = [];
    })
    ∷ []

abbrev pcapng_disk : Disk
pcapng_disk path = if same_bytes path capture_path then some (encode_capture blocks) else none

abbrev packet_at : List PacketLocation
packet_at = record { offset = 44; size = 4 } ∷ []

packet_scanned : scan_bytes (encode_capture blocks) ≡ ok packet_at
unfolding scan_bytes scan_loop packet_location read_le32
packet_scanned = refl

wrote_row :
    write_metadata_parquet_via_sql keep engine
      (codes "t")
      temp
      Session.state.rows
      packet_at
      Session.cfg.linktype
      pcapng_disk
    ≡ (ok tt, store temp parquet pcapng_disk)
unfolding write_metadata_parquet_via_sql
wrote_row = refl

pcapng_resolved : resolve_capture_path paths capture_path pcapng_disk ≡ capture_path
unfolding resolve_capture_path
pcapng_resolved = refl

whole_blocks : All IsCaptureBlock blocks
whole_blocks = ((omega arith, λ e. omega arith, λ e. omega arith), (omega arith, tt))

copy-Addressed_example :
    let (result, left) =
      pcapng_write_finalize reliable paths keep engine
        (codes "t")
        (λ state d. d)
        Session.cfg
        Session.state
        capture_path
        pcapng_disk in
    (content : Bytes) × (result ≡ ok tt)
    × (left capture_path ≡ some content)
    × (length packet_at ≡ length Session.state.rows)
    × Addressed content packet_at (payloads Session.state.rows)
copy-Addressed_example =
    copy-Addressed cells Session.writer paths keep engine (codes "t") (λ state d. d) Session.cfg
      capture_path capture_path capture_path pcapng_disk pcapng_disk pcapng_disk pcapng_disk
      (store temp parquet pcapng_disk) empty Session.state Session.log blocks packet_at parquet refl
      (Session.initialized capture_path pcapng_disk) Session.reached refl pcapng_resolved refl
      (record { whole = whole_blocks; each_packet = refl }) packet_scanned wrote_row refl refl
      (omega arith) (omega arith) (omega (arith, length-body))
  where
    length-body : length (custom_body parquet) ≡ 32
    length-body = rw (custom_body_lem parquet)
