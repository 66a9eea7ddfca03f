-- ===== src/Scan/Indexed.antt =====
-- The scan of src/pqcap_copy_function.cpp over a capture that has been indexed.
use duckdb_pqcap_reader.Base.{ℕ, ◌+◌, ◌%◌, ◌^◌, ◌≡◌, refl, sym, ap, ◌∙◌, arith, List, [], ◌∷◌, ◌++◌}
use duckdb_pqcap_reader.Base.{append_assoc, length, All, All-append}
use duckdb_pqcap_reader.Words.{Bytes, IsByte, IsU32, IsU64, le_bytes}
use duckdb_pqcap_reader.Footer.{FooterLocator, footer_magic, footer_block_type}
use duckdb_pqcap_reader.Footer.Format.{footer_format}
use duckdb_pqcap_reader.Embed.{pqcap_custom_block_type, pqcap_enterprise_id, custom_body, embedded}
use duckdb_pqcap_reader.Embed.Layout.{block_format, embedded_parts}
use duckdb_pqcap_reader.Embed.Layout.{embedded_locator}
use duckdb_pqcap_reader.Embed.Bytewise.{custom_body-IsByte}
use duckdb_pqcap_reader.Scan.{scan_bytes}
use duckdb_pqcap_reader.Scan.Format.{
  Block, IsBlock, encode_block, encode_blocks, location_of, locations_of, total_len,
}
use duckdb_pqcap_reader.Scan.Blocks.{scan_bytes-encode_blocks}

encode_blocks-append :
    (bs cs : List Block) → encode_blocks (bs ++ cs) ≡ encode_blocks bs ++ encode_blocks cs
encode_blocks-append [] cs = refl
encode_blocks-append (b ∷ bs) cs =
    ap (λ t. encode_block b ++ t) (encode_blocks-append bs cs)
    ∙ sym (append_assoc (encode_block b) (encode_blocks bs) (encode_blocks cs))

abbrev custom_block : Bytes → Block
custom_block parquet = record { block_type = pqcap_custom_block_type; body = custom_body parquet }

abbrev footer_block : FooterLocator → Block
footer_block loc = record {
  block_type = footer_block_type;
  body =
      le_bytes 4 pqcap_enterprise_id
      ++ (footer_magic
          ++ (le_bytes 2 1
              ++ (le_bytes 2 0
                  ++ (le_bytes 8 loc.parquet_offset ++ le_bytes 8 loc.parquet_length))));
}

-- The two blocks that are appended hold no packet.
locations_of-append_index :
    (bs : List Block) (pos : ℕ) (parquet : Bytes) (loc : FooterLocator)
    → locations_of pos (bs ++ (custom_block parquet ∷ footer_block loc ∷ [])) ≡ locations_of pos bs
locations_of-append_index [] pos parquet loc = refl
locations_of-append_index (b ∷ bs) pos parquet loc =
    ap (λ t. location_of pos b ++ t) (locations_of-append_index bs (pos + total_len b) parquet loc)

index_blocks :
    (capture parquet : Bytes)
    → IsU32 (12 + length (custom_body parquet))
    → block_format pqcap_custom_block_type (custom_body parquet)
        ++ footer_format 1 0 (embedded_locator capture parquet)
      ≡ encode_blocks (custom_block parquet ∷ footer_block (embedded_locator capture parquet) ∷ [])
index_blocks capture parquet h =
    let unwrapped : (12 + length (custom_body parquet)) % 2 ^ 32
        ≡ 12 + length (custom_body parquet) =
      omega arith in
    rw unwrapped

All-append_blocks : (bs cs : List Block) → All IsBlock bs → All IsBlock cs → All IsBlock (bs ++ cs)
All-append_blocks bs cs = All-append IsBlock bs cs

-- Indexing a capture does not move its packets: where the capture is a sequence of whole blocks and
-- the custom block is shorter than 2 ^ 32 bytes, the scan of the indexed file returns what the scan
-- of the capture returned.
pub scan_bytes-embedded :
    (bs : List Block) (parquet : Bytes)
    → All IsBlock bs
    → All IsByte parquet
    → IsU64 (length (encode_blocks bs) + 33)
    → IsU32 (12 + length (custom_body parquet))
    → scan_bytes (embedded (encode_blocks bs) parquet) ≡ scan_bytes (encode_blocks bs)
scan_bytes-embedded bs parquet vs bytes fits short =
    let loc = embedded_locator (encode_blocks bs) parquet in
    let index = custom_block parquet ∷ footer_block loc ∷ [] in
    let whole : embedded (encode_blocks bs) parquet ≡ encode_blocks (bs ++ index) =
      embedded_parts (encode_blocks bs) parquet fits
      ∙ (ap (λ t. encode_blocks bs ++ t) (index_blocks (encode_blocks bs) parquet short)
          ∙ sym (encode_blocks-append bs index)) in
    let custom : IsBlock (custom_block parquet) = record {
      type_fits = omega arith;
      length_fits = short;
      bytes = custom_body-IsByte parquet bytes;
    } in
    let footer : IsBlock (footer_block loc) = omega arith in
    rw (
      whole,
      scan_bytes-encode_blocks (bs ++ index) (All-append_blocks bs index vs (custom, (footer, tt))),
      scan_bytes-encode_blocks bs vs,
      locations_of-append_index,
    )
