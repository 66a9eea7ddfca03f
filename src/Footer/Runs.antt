-- ===== src/Footer/Runs.antt =====
-- Runs of `ParseFooterLocator`, src/pqcap_footer.cpp, and its theorems at a footer block.
use duckdb_pqcap_reader.Base.{
  ◌≡◌, ◌↔◌, refl, ok, some, none, Option, drop, take, ◌++◌, ◌∷◌, [], arith,
}
use duckdb_pqcap_reader.Words.{Bytes}
use duckdb_pqcap_reader.Footer.{
  FooterLocator, parse_footer_locator, read_u16_le, read_u32_le, read_u64_le, memcmp_eq,
}
use duckdb_pqcap_reader.Footer.Format.{
  IsFooter, footer_format, parse_footer_locator_iff, parse_footer_locator_total,
}

abbrev locator : FooterLocator
locator = record { parquet_offset = 65569; parquet_length = 4096 }

abbrev block : Bytes
block = footer_format 1 7 locator

parsed : parse_footer_locator block ≡ ok (some locator)
unfolding parse_footer_locator read_u16_le read_u32_le read_u64_le memcmp_eq
parsed = refl

-- The version 2 is unknown.
newer : parse_footer_locator (footer_format 2 0 locator) ≡ ok none
unfolding parse_footer_locator read_u16_le read_u32_le read_u64_le memcmp_eq
newer = refl

-- The last byte is missing.
short : parse_footer_locator (take 43 block) ≡ ok none
unfolding parse_footer_locator read_u16_le read_u32_le read_u64_le memcmp_eq
short = refl

parse_footer_locator_iff_example :
    (parse_footer_locator block ≡ ok (some locator)) ↔ IsFooter block locator
parse_footer_locator_iff_example = parse_footer_locator_iff block locator (omega arith)

parse_footer_locator_total_example :
    (r : Option FooterLocator) × (parse_footer_locator (drop 1 block ++ 255 ∷ []) ≡ ok r)
parse_footer_locator_total_example =
    parse_footer_locator_total (drop 1 block ++ 255 ∷ []) (omega arith)
