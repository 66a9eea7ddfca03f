-- ===== src/Footer.antt =====
-- src/pqcap_footer.cpp and src/pqcap_footer.h: the parser of the 44-byte footer block. A pointer
-- is the list of the bytes from it on, and `p + n` is `drop n p`.
pub mod Reads
pub mod Fields
pub mod Format
mod Runs
use Prim.Native.Nat.{bit_or}
use duckdb_pqcap_reader.Base.{ℕ, zero, suc, Bool, true, Option, none, some, List, [], ◌∷◌, ◌&&◌}
use duckdb_pqcap_reader.Base.{Result, ok, fault, ◌>>=◌, if◌then◌else◌, ◌==◌, ltb, not, ◌||◌}
use duckdb_pqcap_reader.Base.{length, drop}
use duckdb_pqcap_reader.Words.{Bytes, byte_at, shl, codes}

abbrev pub footer_block_type : ℕ
footer_block_type = 0xBEE

abbrev pub footer_block_size : ℕ
footer_block_size = 44

-- "QXIP"
abbrev pub enterprise_id : ℕ
enterprise_id = 0x51584950

abbrev pub footer_magic : Bytes
footer_magic = codes "PQCAPFTR"

pub record FooterLocator : Type 0 where
  pub parquet_offset : ℕ
  pub parquet_length : ℕ

unfoldable pub read_u16_le : Bytes → Result ℕ
read_u16_le p = do b0 ← byte_at p 0; b1 ← byte_at p 1; ok (bit_or b0 (shl b1 8))

unfoldable pub read_u32_le : Bytes → Result ℕ
read_u32_le p = do
  b0 ← byte_at p 0
  b1 ← byte_at p 1
  b2 ← byte_at p 2
  b3 ← byte_at p 3
  ok (bit_or (bit_or (bit_or b0 (shl b1 8)) (shl b2 16)) (shl b3 24))

unfoldable pub read_u64_le : Bytes → Result ℕ
unfolding read_u32_le
read_u64_le p = do lo ← read_u32_le p; hi ← read_u32_le (drop 4 p); ok (bit_or lo (shl hi 32))

-- `memcmp(p, q, n) == 0`
unfoldable pub memcmp_eq : ℕ → Bytes → Bytes → Result Bool
memcmp_eq zero p q = ok true
memcmp_eq (suc n) [] q = fault
memcmp_eq (suc n) (a ∷ p) [] = fault
memcmp_eq (suc n) (a ∷ p) (b ∷ q) = do same ← memcmp_eq n p q; ok (a == b && same)

-- The fields behind the enterprise id, the magic and the version.
locator_fields : Bytes → Result (Option FooterLocator)
locator_fields p = do
  parquet_offset ← read_u64_le (drop 24 p)
  parquet_length ← read_u64_le (drop 32 p)
  ok (some (record { parquet_offset = parquet_offset; parquet_length = parquet_length }))

checked_version : Bytes → Result (Option FooterLocator)
unfolding locator_fields
checked_version p = do
  version ← read_u16_le (drop 20 p)
  if ltb 1 version then ok none else locator_fields p

checked_magic : Bytes → Result (Option FooterLocator)
unfolding checked_version
checked_magic p = do
  same ← memcmp_eq 8 (drop 12 p) footer_magic
  if not same then ok none else checked_version p

checked_enterprise : Bytes → Result (Option FooterLocator)
unfolding checked_magic
checked_enterprise p = do
  enterprise ← read_u32_le (drop 8 p)
  if not (enterprise == enterprise_id) then ok none else checked_magic p

-- `none` is the result `false`, and `some` is `true` with what `out` then holds.
unfoldable pub parse_footer_locator : Bytes → Result (Option FooterLocator)
unfolding checked_enterprise
parse_footer_locator bytes = if not (length bytes == footer_block_size) then ok none else do
  block_type ← read_u32_le bytes
  block_len ← read_u32_le (drop 4 bytes)
  tail_len ← read_u32_le (drop 40 bytes)
  if not (block_type == footer_block_type)
        || (not (block_len == footer_block_size) || not (tail_len == footer_block_size))
      then ok none
      else checked_enterprise bytes
