-- ===== src/ReadPqcap/Runs.antt =====
-- The round trip of the macro `read_pqcap`, src/pqcap_reader_extension.cpp, at a small file.
use duckdb_pqcap_reader.Base.{◌≡◌, refl, ok, some, true, List, ◌∷◌, [], arith, length}
use duckdb_pqcap_reader.Words.{Bytes, codes}
use duckdb_pqcap_reader.Stdio.{FilePath}
use duckdb_pqcap_reader.FileApi.OneFile.{one_file, one_file-Holds}
use duckdb_pqcap_reader.FileApi.{Holds, FileSystem}
use duckdb_pqcap_reader.Embed.{embedded, custom_body}
use duckdb_pqcap_reader.Embed.Locate.{length-embedded}
use duckdb_pqcap_reader.Embed.Layout.{custom_body_lem}
use duckdb_pqcap_reader.Location.{read_flags}
use duckdb_pqcap_reader.SubFile.{PqcapSubFileHandle, open_file}
use duckdb_pqcap_reader.SubFile.Refinement.{
  Request, read_bytes, seek_to, ask_size, replies, replies_of_memory,
}
use duckdb_pqcap_reader.ReadPqcap.{read_pqcap_path}
use duckdb_pqcap_reader.ReadPqcap.Roundtrip.{IsIndexed, read_pqcap-embedded}

abbrev capture : Bytes
capture = codes "capture"

abbrev parquet : Bytes
parquet = codes "PAR1dataPAR1"

capture-IsIndexed : IsIndexed capture parquet
capture-IsIndexed = record {
  capture_bytes = omega arith;
  parquet_bytes = omega arith;
  not_empty = omega arith;
  size_fits = omega arith;
  length_fits = omega arith;
}

abbrev fs : FileSystem
fs = one_file (embedded capture parquet)

indexed-Holds : Holds fs tt (embedded capture parquet)
indexed-Holds =
    one_file-Holds (embedded capture parquet)
      (omega (arith, length-embedded capture parquet (omega arith), length-body))
  where
    length-body : length (custom_body parquet) ≡ 40
    length-body = rw (custom_body_lem parquet)

abbrev requests : List Request
requests = ask_size ∷ seek_to 8 ∷ read_bytes (codes "........") 8 ∷ []

read_pqcap-embedded_example :
    (path : FilePath) × (h : PqcapSubFileHandle fs) × (read_pqcap_path fs (codes "a.pqcap")
      ≡ ok path)
    × (open_file fs path read_flags (some true) ≡ ok h)
    × (replies fs h requests
        ≡ ok (replies_of_memory (record { bytes = parquet; position = 0 }) requests))
read_pqcap-embedded_example =
    read_pqcap-embedded capture parquet capture-IsIndexed fs (codes "a.pqcap") tt refl refl
      indexed-Holds requests
