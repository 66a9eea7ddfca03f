-- ===== src/ReadPqcap/Roundtrip.antt =====
-- What `EmbedParquetInPqcap` of src/pqcap_copy_function.cpp appends to a capture, the macro
-- `read_pqcap` of src/pqcap_reader_extension.cpp reads by src/pqcap_subfile_fs.cpp.
use duckdb_pqcap_reader.Base.{◌+◌, ◌<◌, ◌≡◌, refl, ap, ◌∙◌, arith, List, ◌∷◌, ◌++◌}
use duckdb_pqcap_reader.Base.{length, length-append, All, ok, some, true}
use duckdb_pqcap_reader.Words.{Bytes, IsByte, IsU64}
use duckdb_pqcap_reader.Stdio.{FilePath}
use duckdb_pqcap_reader.FileApi.{FileSystem, Holds}
use duckdb_pqcap_reader.Embed.{embedded, custom_body}
use duckdb_pqcap_reader.Embed.Layout.{preamble, padding, embedded_locator, custom_body_lem}
use duckdb_pqcap_reader.Embed.Bytewise.{embedded-IsByte}
use duckdb_pqcap_reader.Embed.Locate.{footer_at_end, parquet_at_offset, length-embedded}
use duckdb_pqcap_reader.Decimal.{to_string}
use duckdb_pqcap_reader.Decimal.Format.{to_string-IsDecimal}
use duckdb_pqcap_reader.Location.{read_flags, offset_size, location_text}
use duckdb_pqcap_reader.Location.Range.{IsLocated, parse_pqcap_metadata_location_iff}
use duckdb_pqcap_reader.SubFile.{PqcapSubFileHandle, open_file, prefix}
use duckdb_pqcap_reader.SubFile.Open.{IsOpened, open_file_iff}
use duckdb_pqcap_reader.SubFile.Window.{IsWindow}
use duckdb_pqcap_reader.SubFile.Refinement.{Request, replies, replies_of_memory, replies-memory}
use duckdb_pqcap_reader.ReadPqcap.{read_pqcap_path}

-- A capture and Parquet bytes of a size for which the code's sums do not wrap around.
pub record IsIndexed (capture parquet : Bytes) : Type 0 where
  pub capture_bytes : All IsByte capture
  pub parquet_bytes : All IsByte parquet
  pub not_empty : 0 < length parquet
  pub size_fits : IsU64 (length capture + 33)
  pub length_fits : IsU64 (length parquet)

module _ (capture parquet : Bytes) (v : IsIndexed capture parquet) where
  embedded-IsLocated : IsLocated (embedded capture parquet) (embedded_locator capture parquet)
  embedded-IsLocated =
      let body_size : length (custom_body parquet)
          ≡ length (preamble (length parquet) ++ (parquet ++ padding (length parquet))) =
        ap length (custom_body_lem parquet) in
      let size = length-embedded capture parquet v.size_fits in
      record {
        has_footer = omega (arith, size);
        footer = record {
          version = 1;
          reserved = 0;
          known_version = omega arith;
          offset_fits = v.size_fits;
          length_fits = v.length_fits;
          laid_out = footer_at_end capture parquet v.size_fits;
        };
        not_empty = v.not_empty;
        in_range = omega (arith, size, body_size, length-append parquet (padding (length parquet)));
      }

  abbrev subfile_path : FilePath → FilePath
  subfile_path p = prefix ++ (location_text (embedded_locator capture parquet) ++ b'!' ∷ p)

  module _ (fs : FileSystem) (p : FilePath) (inner : fs.Handle)
      (opened : fs.open_file p read_flags ≡ ok (some inner)) (seekable : fs.can_seek inner ≡ true)
      (held : Holds fs inner (embedded capture parquet)) where
    located : read_pqcap_path fs p ≡ ok (subfile_path p)
    unfolding read_pqcap_path offset_size
    located =
        let bytes = embedded-IsByte capture parquet v.capture_bytes v.parquet_bytes v.size_fits in
        let text = location_text (embedded_locator capture parquet) in
        let found =
          (parse_pqcap_metadata_location_iff fs inner (embedded capture parquet) held bytes p
              text).1
            (embedded_locator capture parquet, embedded-IsLocated, refl) in
        rw (opened, found)

    abbrev handle : PqcapSubFileHandle fs
    handle = record {
      inner_handle = inner;
      base_offset = length capture + 33;
      sub_size = length parquet;
      seek_pos = 0;
    }

    handle-IsOpened : IsOpened fs (subfile_path p) read_flags (some true) handle
    unfolding location_text
    handle-IsOpened = record {
      for_reading = refl;
      not_for_writing = refl;
      has_context = refl;
      offset_text = to_string (length capture + 33);
      size_text = to_string (length parquet);
      underlying = p;
      spelled = refl;
      offset_is = to_string-IsDecimal (length capture + 33) v.size_fits;
      size_is = to_string-IsDecimal (length parquet) v.length_fits;
      opened = opened;
      seekable = seekable;
      at_start = refl;
    }

    -- What was embedded in a capture is what `read_pqcap` reads: on a file with the bytes that
    -- `EmbedParquetInPqcap` writes, `pqcap_offset_size` and the macro give a path that the subfile
    -- system opens, and whatever reads and seeks are made on the handle, it answers as a file would
    -- that holds the Parquet bytes alone. The Parquet bytes are not empty, and the sizes are uint64s.
    pub read_pqcap-embedded :
        (rs : List Request)
        → (path : FilePath) × (h : PqcapSubFileHandle fs) × (read_pqcap_path fs p ≡ ok path)
          × (open_file fs path read_flags (some true) ≡ ok h)
          × (replies fs h rs ≡ ok (replies_of_memory (record { bytes = parquet; position = 0 }) rs))
    read_pqcap-embedded rs =
        let window : IsWindow fs handle (embedded capture parquet) = record {
          held = held;
          in_range = embedded-IsLocated.in_range;
        } in
        let path = subfile_path p in
        (
          path,
          handle,
          located,
          (open_file_iff fs path read_flags (some true) handle).1 handle-IsOpened,
          replies-memory fs rs handle (embedded capture parquet) window
              ∙ ap (λ t. ok (replies_of_memory (record { bytes = t; position = 0 }) rs))
                  (parquet_at_offset capture parquet v.size_fits),
        )
