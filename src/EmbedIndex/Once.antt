-- ===== src/EmbedIndex/Once.antt =====
-- `EmbedPqcapIndex` of src/pqcap_copy_function.cpp on a capture with an index and on one without.
use duckdb_pqcap_reader.Base.{◌+◌, ◌≡◌, refl, List, [], ◌∷◌, some, none, length}
use duckdb_pqcap_reader.Base.{ok, throw, invalid_input_exception}
use duckdb_pqcap_reader.Words.{Bytes, IsU64}
use duckdb_pqcap_reader.Words.Equality.{same_bytes_refl, same_bytes_of_ne}
use duckdb_pqcap_reader.Stdio.{Stdio, store, reliable, Disk, FilePath}
use duckdb_pqcap_reader.FileApi.{FileSystem, Holds}
use duckdb_pqcap_reader.Location.{read_flags}
use duckdb_pqcap_reader.Scan.{PacketLocation}
use duckdb_pqcap_reader.Embed.{embedded}
use duckdb_pqcap_reader.Embed.Stored.{embed_parquet_in_pqcap-store}
use duckdb_pqcap_reader.Copy.Sink.{PacketRowData}
use duckdb_pqcap_reader.Metadata.Writer.{SqlEngine, write_metadata_parquet_via_sql}
use duckdb_pqcap_reader.Finalize.{remove, temp_parquet_of}
use duckdb_pqcap_reader.Finalize.Indexing.{other_path}
use duckdb_pqcap_reader.Plain.Refusal.{ensure_plain_capture-embedded}
use duckdb_pqcap_reader.EmbedIndex.{
  QueryCalls, checked_features, embed_features, embed_pqcap_index, default_linktype_of,
}

-- A capture whose index was written by `EmbedParquetInPqcap` is refused, and nothing on the disk changes,
-- whatever the library and the SQL engine do: no capture is indexed a second time. The sizes of the
-- capture and of the Parquet bytes are uint64s.
pub embed_pqcap_index-embedded :
    (fs : FileSystem) (io : Stdio) (lower replace expand_path : Bytes → Bytes) (con : QueryCalls)
    (engine : SqlEngine) (table_name : Bytes) (path_in : FilePath) (disk : Disk)
    (handle : fs.Handle) (capture parquet : Bytes)
    → fs.open_file (expand_path path_in) read_flags ≡ ok (some handle)
    → Holds fs handle (embedded capture parquet)
    → IsU64 (length capture + 33)
    → IsU64 (length parquet)
    → embed_pqcap_index fs io lower replace expand_path con engine table_name path_in disk ≡ (
      throw (
          invalid_input_exception "pqcap_embed_index: capture already contains pqcap metadata: %s"
            (expand_path path_in ∷ [])),
      disk,
    )
unfolding embed_pqcap_index checked_features
embed_pqcap_index-embedded fs io lower replace expand_path con engine table_name path_in disk handle
      capture parquet opened held offset_fits length_fits =
    let refused =
      ensure_plain_capture-embedded fs (expand_path path_in) handle capture parquet opened held
        offset_fits length_fits in
    rw (embed_pqcap_index, checked_features, refused)

module _ (fs : FileSystem) (lower replace expand_path : Bytes → Bytes) (con : QueryCalls)
    (engine : SqlEngine) (table_name : Bytes) (path_in : FilePath) (disk disk₁ : Disk)
    (capture parquet : Bytes) (rows : List PacketRowData) (locations : List PacketLocation)
    (checked : checked_features fs reliable lower replace expand_path con engine table_name
        (expand_path path_in)
        disk
      ≡ ok (rows, locations))
    (wrote : write_metadata_parquet_via_sql replace engine table_name
        (temp_parquet_of (expand_path path_in))
        rows
        locations
        (default_linktype_of rows)
        disk
      ≡ (ok tt, disk₁))
    (kept : disk₁ (expand_path path_in) ≡ some capture)
    (at_parquet : disk₁ (temp_parquet_of (expand_path path_in)) ≡ some parquet) where
  embed_features-store :
      embed_features fs reliable lower replace expand_path con engine table_name
        (expand_path path_in)
        rows
        locations
        disk
      ≡ (
        ok tt,
        remove
            (temp_parquet_of (expand_path path_in))
            (store (expand_path path_in) (embedded capture parquet) disk₁),
      )
  unfolding embed_features
  embed_features-store = rw (
    embed_features,
    wrote,
    embed_parquet_in_pqcap-store (expand_path path_in) (temp_parquet_of (expand_path path_in)) disk₁
        capture parquet kept at_parquet,
  )

  embed_pqcap_index-store :
      embed_pqcap_index fs reliable lower replace expand_path con engine table_name path_in disk ≡ (
        ok (length rows),
        remove
            (temp_parquet_of (expand_path path_in))
            (store (expand_path path_in) (embedded capture parquet) disk₁),
      )
  unfolding embed_pqcap_index
  embed_pqcap_index-store =
      rw (embed_pqcap_index, checked, embed_features-store, embed_features-store)

  -- Where the checks pass, the metadata is written and every transfer is complete, the function
  -- returns the number of packets, the path holds the indexed capture and the temporary file is gone.
  pub embed_pqcap_index-indexed :
      let (result, disk') =
        embed_pqcap_index fs reliable lower replace expand_path con engine table_name path_in
          disk in
      (result ≡ ok (length rows))
      × (disk' (expand_path path_in) ≡ some (embedded capture parquet))
      × (disk' (temp_parquet_of (expand_path path_in)) ≡ none)
  embed_pqcap_index-indexed =
      let temp = temp_parquet_of (expand_path path_in) in
      let apart = same_bytes_of_ne (expand_path path_in) temp (other_path (expand_path path_in)) in
      rw embed_pqcap_index-store
        (refl, rw (apart, same_bytes_refl (expand_path path_in)), rw (same_bytes_refl temp))
