-- ===== src/Location/Runs.antt =====
-- The theorems of src/pqcap_reader_extension.cpp at a small indexed capture.
use duckdb_pqcap_reader.Base.{◌≡◌, ◌↔◌, ok, some, none, List, Option, ◌++◌, ◌∷◌, [], arith}
use duckdb_pqcap_reader.Words.{Bytes, codes}
use duckdb_pqcap_reader.Stdio.{FilePath}
use duckdb_pqcap_reader.Footer.Format.{footer_format}
use duckdb_pqcap_reader.FileApi.OneFile.{one_file, one_file-Holds}
use duckdb_pqcap_reader.Decimal.{parse_decimal_uint64}
use duckdb_pqcap_reader.Decimal.Parse.{IsDecimal, parse_decimal_uint64_iff}
use duckdb_pqcap_reader.Decimal.{to_string}
use duckdb_pqcap_reader.Decimal.Format.{to_string-IsDecimal}
use duckdb_pqcap_reader.Location.{parse_pqcap_metadata_location, string_scalar_loop, offset_size}
use duckdb_pqcap_reader.Location.Range.{Located, parse_pqcap_metadata_location_iff}
use duckdb_pqcap_reader.Location.Rows.{Answers, string_scalar_loop_iff}

abbrev file : Bytes
file = codes "captPAR1" ++ footer_format 1 0 (record { parquet_offset = 4; parquet_length = 4 })

abbrev source : FilePath
source = codes "a.pqcap"

parse_pqcap_metadata_location_iff_example :
    (parse_pqcap_metadata_location (one_file file) tt source ≡ ok (codes "4_4"))
    ↔ Located file (codes "4_4")
parse_pqcap_metadata_location_iff_example =
    parse_pqcap_metadata_location_iff (one_file file) tt file (one_file-Holds file (omega arith))
      (omega arith) source (codes "4_4")

abbrev rows : List (Option Bytes)
rows = some source ∷ none ∷ some source ∷ []

string_scalar_loop_iff_example :
    (string_scalar_loop (codes "pqcap_offset_size") (offset_size (one_file file)) rows ≡ ok [])
    ↔ Answers (offset_size (one_file file)) rows []
string_scalar_loop_iff_example =
    string_scalar_loop_iff (codes "pqcap_offset_size") (offset_size (one_file file)) rows []

parse_decimal_uint64_iff_example :
    (parse_decimal_uint64 (codes "0042") (codes "size") source ≡ ok 42)
    ↔ IsDecimal (codes "0042") 42
parse_decimal_uint64_iff_example = parse_decimal_uint64_iff (codes "0042") (codes "size") source 42

to_string-IsDecimal_example : IsDecimal (to_string 18446744073709551615) 18446744073709551615
to_string-IsDecimal_example = to_string-IsDecimal 18446744073709551615 (omega arith)
