-- ===== src/Embed/Locate.antt =====
-- Where the parts of an indexed capture stand: `EmbedParquetInPqcap` of
-- src/pqcap_copy_function.cpp against `ParseFooterLocator` of src/pqcap_footer.cpp.
use duckdb_pqcap_reader.Base.{◌+◌, ◌-◌, ◌^◌, ◌≡◌, refl, sym, ap, ◌∙◌, arith, ◌%◌}
use duckdb_pqcap_reader.Base.{◌++◌, append_assoc, length, length-append, take, drop, take-append}
use duckdb_pqcap_reader.Base.{drop-append}
use duckdb_pqcap_reader.Words.{Bytes, IsU64, le_bytes, slice}
use duckdb_pqcap_reader.Words.Segments.{slice_middle}
use duckdb_pqcap_reader.Footer.Format.{footer_format}
use duckdb_pqcap_reader.Embed.{pqcap_custom_block_type, custom_body, embedded}
use duckdb_pqcap_reader.Embed.Layout.{preamble, padding, block_format, embedded_locator}
use duckdb_pqcap_reader.Embed.Layout.{custom_body_lem, embedded_parts}

module _ (capture parquet : Bytes) (offset_fits : IsU64 (length capture + 33)) where
  -- The last 44 bytes of the file.
  pub footer_at_end :
      drop (length (embedded capture parquet) - 44) (embedded capture parquet)
      ≡ footer_format 1 0 (embedded_locator capture parquet)
  footer_at_end =
      let footer = footer_format 1 0 (embedded_locator capture parquet) in
      let front = capture ++ block_format pqcap_custom_block_type (custom_body parquet) in
      let parts : embedded capture parquet ≡ front ++ footer =
        embedded_parts capture parquet offset_fits ∙ sym (append_assoc capture _ footer) in
      rw parts (drop-append front footer _ (omega (arith, length-append front footer)))

  -- The 33 bytes between the capture and the Parquet bytes, and what follows those.
  lead : Bytes
  lead =
      le_bytes 4 pqcap_custom_block_type
      ++ (le_bytes 4 ((12 + length (custom_body parquet)) % 2 ^ 32) ++ preamble (length parquet))

  trail : Bytes
  trail =
      padding (length parquet)
      ++ (le_bytes 4 ((12 + length (custom_body parquet)) % 2 ^ 32)
          ++ footer_format 1 0 (embedded_locator capture parquet))

  around_parquet : embedded capture parquet ≡ (capture ++ lead) ++ (parquet ++ trail)
  unfolding lead trail
  around_parquet =
      embedded_parts capture parquet offset_fits
      ∙ ap
          (λ t.
            capture
            ++ ((le_bytes 4 pqcap_custom_block_type
                  ++ (le_bytes 4 ((12 + length (custom_body parquet)) % 2 ^ 32)
                      ++ (t ++ le_bytes 4 ((12 + length (custom_body parquet)) % 2 ^ 32))))
                ++ footer_format 1 0 (embedded_locator capture parquet)))
          (custom_body_lem parquet)
      ∙ simp append_assoc

  pub parquet_at_offset :
      slice (length capture + 33) (length parquet) (embedded capture parquet) ≡ parquet
  unfolding lead
  parquet_at_offset = rw around_parquet (
      slice_middle (capture ++ lead) parquet trail _ _ (omega (arith, length-append capture lead))
        refl)

  pub take-embedded : take (length capture) (embedded capture parquet) ≡ capture
  take-embedded =
      rw (embedded_parts capture parquet offset_fits) (take-append capture _ (length capture) refl)

  pub length-embedded :
      length (embedded capture parquet) ≡ length capture + 12 + length (custom_body parquet) + 44
  length-embedded =
      let body = custom_body parquet in
      let size = (12 + length body) % 2 ^ 32 in
      rw (embedded_parts capture parquet offset_fits, length-append)
        (omega (
          arith,
          length-append body
              (le_bytes 4 size ++ footer_format 1 0 (embedded_locator capture parquet)),
          length-append (block_format pqcap_custom_block_type body)
              (footer_format 1 0 (embedded_locator capture parquet)),
          length-append body (le_bytes 4 size),
        ))
