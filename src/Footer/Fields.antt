-- ===== src/Footer/Fields.antt =====
-- The parser of src/pqcap_footer.cpp as one test over the fields of the block.
use duckdb_pqcap_reader.Base.{ℕ, ◌+◌, ◌≤◌, ◌≡◌, refl, arith, Bool, ◌&&◌, ◌==◌, leb, if◌then◌else◌}
use duckdb_pqcap_reader.Base.{length, length-drop, All, All-drop, ok, drop, some, none}
use duckdb_pqcap_reader.Words.{Bytes, IsByte, le_value, slice}
use duckdb_pqcap_reader.Footer.{FooterLocator, parse_footer_locator, footer_magic, enterprise_id}
use duckdb_pqcap_reader.Footer.{footer_block_type, footer_block_size, read_u32_le}
use duckdb_pqcap_reader.Footer.Reads.{read_u16_le_lem, read_u32_le_lem, read_u64_le_lem}
use duckdb_pqcap_reader.Footer.Reads.{memcmp_eq_lem}
use duckdb_pqcap_reader.Words.Equality.{same_bytes}

abbrev pub field : ℕ → ℕ → Bytes → ℕ
field i n p = le_value (slice i n p)

abbrev pub locator_of : Bytes → FooterLocator
locator_of p = record { parquet_offset = field 24 8 p; parquet_length = field 32 8 p }

abbrev pub lengths_match : Bytes → Bool
lengths_match p =
    (field 0 4 p == footer_block_type)
    && ((field 4 4 p == footer_block_size) && (field 40 4 p == footer_block_size))

abbrev pub identity_matches : Bytes → Bool
identity_matches p =
    (field 8 4 p == enterprise_id)
    && (same_bytes (slice 12 8 p) footer_magic && leb (field 20 2 p) 1)

module _ (p : Bytes) (full : length p ≡ 44) (bytes : All IsByte p) where
  word_lem : (i : ℕ) → i + 4 ≤ 44 → read_u32_le (drop i p) ≡ ok (field i 4 p)
  word_lem i h =
      read_u32_le_lem (drop i p) (omega (arith, length-drop i p)) (All-drop IsByte i p bytes)

  pub parse_fields :
      parse_footer_locator p
      ≡ ok (if lengths_match p && identity_matches p then some (locator_of p) else none)
  unfolding parse_footer_locator
  parse_fields = ground (
    arith,
    word_lem 0 (omega arith),
    word_lem 4 (omega arith),
    word_lem 40 (omega arith),
    word_lem 8 (omega arith),
    memcmp_eq_lem 8 (drop 12 p) footer_magic (omega (arith, length-drop 12 p)) refl,
    read_u16_le_lem (drop 20 p) (omega (arith, length-drop 20 p)) (All-drop IsByte 20 p bytes),
    read_u64_le_lem (drop 24 p) (omega (arith, length-drop 24 p)) (All-drop IsByte 24 p bytes),
    read_u64_le_lem (drop 32 p) (omega (arith, length-drop 32 p)) (All-drop IsByte 32 p bytes),
  )
