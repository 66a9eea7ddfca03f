-- ===== src/Embed/Parts.antt =====
-- An indexed capture of src/pqcap_copy_function.cpp in one view: what a reader finds in it.
use duckdb_pqcap_reader.Base.{◌≡◌, ◌+◌, ◌-◌, arith, ok, some, length, take, drop}
use duckdb_pqcap_reader.Words.{Bytes, IsU64, slice}
use duckdb_pqcap_reader.Footer.{parse_footer_locator}
use duckdb_pqcap_reader.Footer.Format.{format_fields}
use duckdb_pqcap_reader.Embed.{embedded}
use duckdb_pqcap_reader.Embed.Layout.{embedded_locator}
use duckdb_pqcap_reader.Embed.Locate.{footer_at_end, parquet_at_offset, take-embedded}

-- The file begins with the capture, its last 44 bytes are a footer block that the reader accepts,
-- and that block locates the Parquet bytes.
pub record Parts (capture parquet file : Bytes) : Type 0 where
  pub capture_first : take (length capture) file ≡ capture
  pub footer_last :
      parse_footer_locator (drop (length file - 44) file)
      ≡ ok (some (embedded_locator capture parquet))
  pub located :
      slice
        (embedded_locator capture parquet).parquet_offset
        (embedded_locator capture parquet).parquet_length
        file
      ≡ parquet

-- Where the offset and the length of the Parquet bytes are uint64s, `EmbedParquetInPqcap` writes the
-- capture unchanged, and at the end a footer block for which `ParseFooterLocator` returns exactly
-- where the Parquet bytes stand in the file.
pub embedded-Parts :
    (capture parquet : Bytes)
    → IsU64 (length capture + 33)
    → IsU64 (length parquet)
    → Parts capture parquet (embedded capture parquet)
embedded-Parts capture parquet offset_fits length_fits = record {
  capture_first = take-embedded capture parquet offset_fits;
  footer_last =
      rw (footer_at_end capture parquet offset_fits) (
        format_fields 1 0 (embedded_locator capture parquet) (omega arith) offset_fits length_fits);
  located = parquet_at_offset capture parquet offset_fits;
}
