-- ===== src/Embed/Layout.antt =====
-- What `EmbedParquetInPqcap` of src/pqcap_copy_function.cpp writes, part by part.
use duckdb_pqcap_reader.Base.{ℕ, ◌+◌, ◌%◌, ◌^◌, ◌<◌, ◌≡◌, refl, ap, ◌∙◌, arith}
use duckdb_pqcap_reader.Base.{◌++◌, append_assoc, length, replicate}
use duckdb_pqcap_reader.Words.{Bytes, le_bytes}
use duckdb_pqcap_reader.Footer.{FooterLocator}
use duckdb_pqcap_reader.Footer.Format.{footer_format}
use duckdb_pqcap_reader.Embed.{
  pqcap_footer_magic, pqcap_custom_block_type, pqcap_footer_block_type, pqcap_magic,
}
use duckdb_pqcap_reader.Embed.{
  pqcap_enterprise_id, custom_header, custom_body, block_of, footer_body,
}
use duckdb_pqcap_reader.Embed.{embedded}
use duckdb_pqcap_reader.Embed.Writes.{write_le16-append, write_le32-append, write_le64-append}
use duckdb_pqcap_reader.Embed.Writes.{pad_count, pad_body-append}

-- The 25 bytes in front of the Parquet bytes.
abbrev pub preamble : ℕ → Bytes
preamble n =
    le_bytes 4 pqcap_enterprise_id
    ++ (pqcap_magic ++ (le_bytes 2 1 ++ (le_bytes 2 0 ++ le_bytes 8 n)))

abbrev pub padding : ℕ → Bytes
padding n = replicate (pad_count (25 + n)) 0

abbrev pub block_format : ℕ → Bytes → Bytes
block_format block_type body =
    le_bytes 4 block_type
    ++ (le_bytes 4 ((12 + length body) % 2 ^ 32)
        ++ (body ++ le_bytes 4 ((12 + length body) % 2 ^ 32)))

abbrev pub embedded_locator : Bytes → Bytes → FooterLocator
embedded_locator capture parquet = record {
  parquet_offset = length capture + 33;
  parquet_length = length parquet;
}

custom_header_lem : (parquet : Bytes) → custom_header parquet ≡ preamble (length parquet)
unfolding custom_header
custom_header_lem parquet = simp (write_le16-append, write_le32-append, write_le64-append)

pub custom_body_lem :
    (parquet : Bytes)
    → custom_body parquet ≡ preamble (length parquet) ++ (parquet ++ padding (length parquet))
unfolding custom_body
custom_body_lem parquet =
    let n = length parquet in
    let size : length (preamble n ++ parquet) ≡ 25 + n = omega arith in
    rw (custom_header_lem, pad_body-append)
      (ap (λ k. (preamble n ++ parquet) ++ replicate (pad_count k) 0) size
        ∙ append_assoc (preamble n) parquet (padding n))

pub block_of_lem : (t : ℕ) (body : Bytes) → block_of t body ≡ block_format t body
unfolding block_of
block_of_lem t body = simp (write_le32-append, append_assoc)

footer_body_lem :
    (capture parquet : Bytes)
    → length capture + 33 < 2 ^ 64
    → footer_body capture parquet
      ≡ le_bytes 4 pqcap_enterprise_id
        ++ (pqcap_footer_magic
            ++ (le_bytes 2 1
                ++ (le_bytes 2 0
                    ++ (le_bytes 8 (length capture + 33) ++ le_bytes 8 (length parquet)))))
unfolding footer_body
footer_body_lem capture parquet h =
    let unwrapped : (length capture + 8 + 25) % 2 ^ 64 ≡ length capture + 33 = omega arith in
    simp (write_le64-append, write_le16-append, write_le32-append, unwrapped, append_assoc)

footer_block_lem :
    (capture parquet : Bytes)
    → length capture + 33 < 2 ^ 64
    → block_of pqcap_footer_block_type (footer_body capture parquet)
      ≡ footer_format 1 0 (embedded_locator capture parquet)
footer_block_lem capture parquet h = rw (footer_body_lem capture parquet h, block_of_lem) refl

-- The file is the capture, the custom block and the footer block.
pub embedded_parts :
    (capture parquet : Bytes)
    → length capture + 33 < 2 ^ 64
    → embedded capture parquet
      ≡ capture
        ++ (block_format pqcap_custom_block_type (custom_body parquet)
            ++ footer_format 1 0 (embedded_locator capture parquet))
unfolding embedded
embedded_parts capture parquet h =
    rw (footer_block_lem capture parquet h, block_of_lem, append_assoc)
