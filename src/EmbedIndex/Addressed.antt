-- ===== src/EmbedIndex/Addressed.antt =====
-- `EmbedPqcapIndex` of src/pqcap_copy_function.cpp on a capture with its packets in Enhanced Packet Blocks
-- and in Simple Packet Blocks that hold whole packets.
use duckdb_pqcap_reader.Base.{
  ◌+◌, ◌≡◌, sym, ap, ◌∙◌, arith, List, some, none, true, length, ◌==◌, All, ok, ok-injective,
}
use mathlib.Core.Path.{subst}
use duckdb_pqcap_reader.Words.{Bytes, IsByte, IsU32, IsU64}
use duckdb_pqcap_reader.Stdio.{reliable, Disk, FilePath}
use duckdb_pqcap_reader.FileApi.{FileSystem, Holds}
use duckdb_pqcap_reader.Location.{read_flags}
use duckdb_pqcap_reader.Scan.{PacketLocation, scan_bytes}
use duckdb_pqcap_reader.Scan.Blocks.{encode_blocks-IsByte}
use duckdb_pqcap_reader.Scan.Packets.{
  CaptureBlock, IsCaptureBlock, blocks_in, encode_capture, packets_in, Addressed, Addressed-length,
  IsBlock-blocks_in, scan_bytes-Addressed,
}
use duckdb_pqcap_reader.Embed.{custom_body, embedded}
use duckdb_pqcap_reader.Table.{PacketRow}
use duckdb_pqcap_reader.Plain.{ensure_plain_capture}
use duckdb_pqcap_reader.Plain.Refusal.{IsPlain, ensure_plain_capture_iff}
use duckdb_pqcap_reader.Metadata.Writer.{SqlEngine, write_metadata_parquet_via_sql}
use duckdb_pqcap_reader.Finalize.{temp_parquet_of}
use duckdb_pqcap_reader.Finalize.Indexing.{scan_packet_locations-reliable}
use duckdb_pqcap_reader.EmbedIndex.{
  QueryCalls, features_query, default_linktype_of, fetch_packet_features_from_capture,
  checked_features, embed_pqcap_index,
}
use duckdb_pqcap_reader.EmbedIndex.Select.{
  KeepsValues, selected, each_features, length-each_features, all_features-selected,
}
use duckdb_pqcap_reader.EmbedIndex.Once.{embed_pqcap_index-indexed}

module _ (fs : FileSystem) (lower replace expand_path : Bytes → Bytes) (con : QueryCalls)
    (engine : SqlEngine) (table_name : Bytes) (path : FilePath) (disk : Disk)
    (rows : List PacketRow) (locations : List PacketLocation) where
  checked_features-ok :
      (content : Bytes)
      → ensure_plain_capture fs path ≡ ok tt
      → KeepsValues con
      → con.query (features_query replace path) disk
        ≡ ok (selected (features_query replace path) rows)
      → disk path ≡ some content
      → scan_bytes content ≡ ok locations
      → length rows ≡ length locations
      → checked_features fs reliable lower replace expand_path con engine table_name path disk
        ≡ ok (each_features lower rows, locations)
  unfolding checked_features fetch_packet_features_from_capture
  checked_features-ok content plain keeps queried at scanned counted =
      let features = length-each_features lower rows in
      let same : (length (each_features lower rows) == length locations) ≡ true =
        ground (arith, features) in
      rw (
        checked_features,
        plain,
        queried,
        all_features-selected con keeps lower replace path rows,
        scan_packet_locations-reliable path disk content at,
        scanned,
        same,
      )

-- `pqcap_embed_index` on a capture that carries no index yet and is a sequence of whole blocks, in which
-- no Simple Packet Block has a truncated packet: where the query gives the columns that it names of rows
-- of `read_pqcap_packets`, one for each packet of the Enhanced and Simple Packet Blocks, a value keeps
-- its number or text in its own type, the metadata was written for these rows, field by field, with
-- the locations that the scan returned, every transfer is complete, and the sizes of the capture and of the
-- block around the Parquet bytes fit, the function returns the number of packets, in the file that it
-- leaves at the path each location of the index holds its packet, and the temporary file is gone.
pub embed_pqcap_index-Addressed :
    (fs : FileSystem) (lower replace expand_path : Bytes → Bytes) (con : QueryCalls)
    (engine : SqlEngine) (table_name : Bytes) (path_in : FilePath) (disk disk₁ : Disk)
    (handle : fs.Handle) (cs : List CaptureBlock) (rows : List PacketRow)
    (locations : List PacketLocation) (parquet : Bytes)
    → fs.open_file (expand_path path_in) read_flags ≡ ok (some handle)
    → Holds fs handle (encode_capture cs)
    → IsPlain (encode_capture cs)
    → disk (expand_path path_in) ≡ some (encode_capture cs)
    → All IsCaptureBlock cs
    → scan_bytes (encode_capture cs) ≡ ok locations
    → KeepsValues con
    → con.query (features_query replace (expand_path path_in)) disk
      ≡ ok (selected (features_query replace (expand_path path_in)) rows)
    → length rows ≡ length (packets_in cs)
    → write_metadata_parquet_via_sql replace engine table_name
        (temp_parquet_of (expand_path path_in))
        (each_features lower rows)
        locations
        (default_linktype_of (each_features lower rows))
        disk
      ≡ (ok tt, disk₁)
    → disk₁ (expand_path path_in) ≡ some (encode_capture cs)
    → disk₁ (temp_parquet_of (expand_path path_in)) ≡ some parquet
    → All IsByte parquet
    → IsU64 (length (encode_capture cs) + 33)
    → IsU32 (12 + length (custom_body parquet))
    → let (result, left) =
        embed_pqcap_index fs reliable lower replace expand_path con engine table_name path_in
          disk in
      (content : Bytes) × (result ≡ ok (length (packets_in cs)))
      × (left (expand_path path_in) ≡ some content)
      × (left (temp_parquet_of (expand_path path_in)) ≡ none)
      × Addressed content locations (packets_in cs)
embed_pqcap_index-Addressed fs lower replace expand_path con engine table_name path_in disk disk₁
      handle cs rows locations parquet opened held plain at vs scanned keeps queried counted wrote
      kept at_parquet bytes fits short =
    let path = expand_path path_in in
    let capture = encode_capture cs in
    let blocks = IsBlock-blocks_in cs vs in
    let (locs, found, found_again, in_capture, in_file) =
      scan_bytes-Addressed cs parquet vs bytes fits short in
    let same_locs : locs ≡ locations = ok-injective (sym found ∙ scanned) in
    let addressed : Addressed (embedded capture parquet) locations (packets_in cs) =
      subst (λ l. Addressed (embedded capture parquet) l (packets_in cs)) same_locs in_file in
    let as_many = Addressed-length (embedded capture parquet) locations (packets_in cs) addressed in
    let unindexed =
      (ensure_plain_capture_iff fs path handle capture opened held
          (encode_blocks-IsByte (blocks_in cs) blocks)).1
        plain in
    let checked =
      checked_features-ok fs lower replace expand_path con engine table_name path disk rows
        locations capture unindexed keeps queried at scanned (counted ∙ sym as_many) in
    let (returned, stored, gone) =
      embed_pqcap_index-indexed fs lower replace expand_path con engine table_name path_in disk
        disk₁ capture parquet (each_features lower rows) locations checked wrote kept at_parquet in
    (
      embedded capture parquet,
      returned ∙ ap ok (length-each_features lower rows ∙ counted),
      stored,
      gone,
      addressed,
    )
