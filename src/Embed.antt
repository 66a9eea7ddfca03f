-- ===== src/Embed.antt =====
-- `WriteLE16`, `WriteLE32`, `WriteLE64` and `EmbedParquetInPqcap` of src/pqcap_copy_function.cpp:
-- the custom block that carries the Parquet bytes and the footer block that locates them.
pub mod Writes
pub mod Layout
pub mod Bytewise
pub mod Locate
pub mod Parts
pub mod Stored
mod Runs
use Prim.Native.Nat.{bit_and}
use duckdb_pqcap_reader.Base.{ℕ, zero, suc, ◌+◌, ◌*◌, ◌%◌, ◌^◌, [], ◌∷◌, ◌++◌, length, ◌==◌}
use duckdb_pqcap_reader.Base.{if◌then◌else◌, Result, ok, throw, fault}
use duckdb_pqcap_reader.Words.{Bytes, shr, codes}
use duckdb_pqcap_reader.Stdio.{Stdio, Disk, FilePath, read_file_bytes, write_file_bytes}

abbrev pub pqcap_custom_block_type : ℕ
pqcap_custom_block_type = 0xBAD

abbrev pub pqcap_footer_block_type : ℕ
pqcap_footer_block_type = 0xBEE

abbrev pub pqcap_enterprise_id : ℕ
pqcap_enterprise_id = 0x51584950

abbrev pub pqcap_magic : Bytes
pqcap_magic = codes "PQCAPMETA"

abbrev pub pqcap_footer_magic : Bytes
pqcap_footer_magic = codes "PQCAPFTR"

-- `buf.push_back(static_cast<uint8_t>(v & 0xff))`
abbrev pub push_low_byte : Bytes → ℕ → Bytes
push_low_byte buf v = buf ++ (bit_and v 0xff % 256) ∷ []

unfoldable pub write_le16 : Bytes → ℕ → Bytes
write_le16 buf v = push_low_byte (push_low_byte buf v) (shr v 8)

unfoldable pub write_le32 : Bytes → ℕ → Bytes
write_le32 buf v =
    push_low_byte (push_low_byte (push_low_byte (push_low_byte buf v) (shr v 8)) (shr v 16))
      (shr v 24)

-- The rounds that are left, and `i`.
write_le64_loop : ℕ → ℕ → Bytes → ℕ → Bytes
write_le64_loop zero i buf v = buf
write_le64_loop (suc rounds) i buf v =
    write_le64_loop rounds (i + 1) (push_low_byte buf (shr v (i * 8))) v

unfoldable pub write_le64 : Bytes → ℕ → Bytes
unfolding write_le64_loop
write_le64 buf v = write_le64_loop 8 0 buf v

-- `while ((body.size() % 4) != 0) body.push_back(0)`, on fuel.
unfoldable pub pad_body : ℕ → Bytes → Bytes
pad_body zero body = body
pad_body (suc fuel) body =
    let rest = pad_body fuel (body ++ 0 ∷ []) in if length body % 4 == 0 then body else rest

-- The body of the custom block up to the Parquet bytes: 25 bytes.
unfoldable pub custom_header : Bytes → Bytes
custom_header parquet =
    write_le64 (write_le16 (write_le16 (write_le32 [] pqcap_enterprise_id ++ pqcap_magic) 1) 0)
      (length parquet)

unfoldable pub custom_body : Bytes → Bytes
custom_body parquet = pad_body 4 (custom_header parquet ++ parquet)

-- A block: its type, its length, its body and its length again.
unfoldable pub block_of : ℕ → Bytes → Bytes
block_of block_type body =
    let total_len = (12 + length body) % 2 ^ 32 in
    write_le32 (write_le32 (write_le32 [] block_type) total_len ++ body) total_len

unfoldable pub footer_body : Bytes → Bytes → Bytes
footer_body capture parquet =
    let parquet_abs_offset = (length capture + 8 + 25) % 2 ^ 64 in
    let header = write_le32 [] pqcap_enterprise_id ++ pqcap_footer_magic in
    write_le64 (write_le64 (write_le16 (write_le16 header 1) 0) parquet_abs_offset) (length parquet)

-- What is written in place of the capture.
unfoldable pub embedded : Bytes → Bytes → Bytes
embedded capture parquet =
    (capture ++ block_of pqcap_custom_block_type (custom_body parquet))
    ++ block_of pqcap_footer_block_type (footer_body capture parquet)

module _ (io : Stdio) where
  unfoldable pub embed_parquet_in_pqcap : FilePath → FilePath → Disk → Result (Unit {0}) × Disk
  embed_parquet_in_pqcap pcap_path parquet_path disk = elim (read_file_bytes io pcap_path disk) [
    | throw e ↦ (throw e, disk)
    | fault ↦ (fault, disk)
    | ok capture ↦ elim (read_file_bytes io parquet_path disk) [
      | throw e ↦ (throw e, disk)
      | fault ↦ (fault, disk)
      | ok parquet ↦ write_file_bytes io pcap_path (embedded capture parquet) disk
    ]
  ]
