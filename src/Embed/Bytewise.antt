-- ===== src/Embed/Bytewise.antt =====
-- What `EmbedParquetInPqcap` of src/pqcap_copy_function.cpp writes consists of bytes.
use duckdb_pqcap_reader.Base.{
  ℕ, zero, suc, ◌+◌, ◌%◌, ◌^◌, arith, ◌++◌, length, All, All-append, replicate,
}
use duckdb_pqcap_reader.Words.{Bytes, IsByte, IsU64, le_bytes}
use duckdb_pqcap_reader.Footer.Format.{footer_format}
use duckdb_pqcap_reader.Embed.{custom_body, embedded, pqcap_custom_block_type}
use duckdb_pqcap_reader.Embed.Layout.{
  preamble, padding, custom_body_lem, block_format, embedded_locator, embedded_parts,
}
use duckdb_pqcap_reader.Embed.Writes.{pad_count}

zeros-IsByte : (n : ℕ) → All IsByte (replicate n 0)
zeros-IsByte zero = tt
zeros-IsByte (suc n) = (omega arith, zeros-IsByte n)

pub custom_body-IsByte : (parquet : Bytes) → All IsByte parquet → All IsByte (custom_body parquet)
custom_body-IsByte parquet h = rw custom_body_lem (
    All-append IsByte (preamble (length parquet)) (parquet ++ padding (length parquet))
      (omega arith)
      (All-append IsByte parquet (padding (length parquet)) h
        (zeros-IsByte (pad_count (25 + length parquet)))))

pub embedded-IsByte :
    (capture parquet : Bytes)
    → All IsByte capture
    → All IsByte parquet
    → IsU64 (length capture + 33)
    → All IsByte (embedded capture parquet)
embedded-IsByte capture parquet hc hp fits =
    let body = custom_body parquet in
    let size = (12 + length body) % 2 ^ 32 in
    let around : All IsByte (body ++ le_bytes 4 size) =
      All-append IsByte body (le_bytes 4 size) (custom_body-IsByte parquet hp) (omega arith) in
    let footer : All IsByte (footer_format 1 0 (embedded_locator capture parquet)) = omega arith in
    let block : All IsByte (block_format pqcap_custom_block_type body) =
      All-append IsByte (le_bytes 4 pqcap_custom_block_type)
        (le_bytes 4 size ++ (body ++ le_bytes 4 size)) (omega arith)
        (All-append IsByte (le_bytes 4 size) (body ++ le_bytes 4 size) (omega arith) around) in
    rw (embedded_parts capture parquet fits) (
      All-append IsByte capture _ hc (
        All-append IsByte (block_format pqcap_custom_block_type body)
          (footer_format 1 0 (embedded_locator capture parquet)) block footer))
