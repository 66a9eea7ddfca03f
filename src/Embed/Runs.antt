-- ===== src/Embed/Runs.antt =====
-- Runs of `EmbedParquetInPqcap`, src/pqcap_copy_function.cpp, and its theorems at small files.
use duckdb_pqcap_reader.Base.{◌≡◌, refl, some, none, if◌then◌else◌, length, ◌∷◌, [], arith}
use duckdb_pqcap_reader.Words.{Bytes, codes}
use duckdb_pqcap_reader.Words.Equality.{same_bytes}
use duckdb_pqcap_reader.Stdio.{Disk, reliable, FilePath}
use duckdb_pqcap_reader.Embed.{
  embedded, embed_parquet_in_pqcap, block_of, custom_body, custom_header, footer_body, pad_body,
  write_le16, write_le32, write_le64,
}
use duckdb_pqcap_reader.Embed.Parts.{embedded-Parts, Parts}
use duckdb_pqcap_reader.Embed.Stored.{Embedding, embed_parquet_in_pqcap-Embedding}

abbrev capture : Bytes
capture = 10 ∷ 13 ∷ 13 ∷ 10 ∷ 12 ∷ 0 ∷ 0 ∷ 0 ∷ 12 ∷ 0 ∷ 0 ∷ 0 ∷ []

abbrev parquet : Bytes
parquet = codes "PAR1x"

-- 12 bytes, a custom block of 44 bytes with two bytes of padding, and the footer block.
size : length (embedded capture parquet) ≡ 100
unfolding embedded block_of custom_body custom_header footer_body pad_body write_le16 write_le32
    write_le64
size = refl

embedded-Parts_example : Parts capture parquet (embedded capture parquet)
embedded-Parts_example = embedded-Parts capture parquet (omega arith) (omega arith)

abbrev capture_path : FilePath
capture_path = codes "a.pqcap"

abbrev parquet_path : FilePath
parquet_path = codes "a.parquet"

abbrev other_path : FilePath
other_path = codes "b"

abbrev disk : Disk
disk path =
    if same_bytes path capture_path
    then some capture
    else if same_bytes path parquet_path
    then some parquet
    else none

embed_parquet_in_pqcap-Embedding_example :
    let (r, disk') = embed_parquet_in_pqcap reliable capture_path parquet_path disk in
    Embedding reliable capture_path capture parquet r (disk' capture_path)
    × (disk' other_path ≡ disk other_path)
embed_parquet_in_pqcap-Embedding_example =
    embed_parquet_in_pqcap-Embedding reliable capture_path parquet_path disk capture parquet refl
      refl refl refl other_path (λ e. cc e) (omega arith)
