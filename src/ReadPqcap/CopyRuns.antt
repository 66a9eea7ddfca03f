-- ===== src/ReadPqcap/CopyRuns.antt =====
-- The macro `read_pqcap`, src/pqcap_reader_extension.cpp, on what a small COPY has left.
use duckdb_pqcap_reader.Base.{
  ◌≡◌, refl, sym, ◌∙◌, Result, arith, ◌∷◌, [], some, true, List, ok, length,
}
use duckdb_pqcap_reader.Words.{Bytes, codes}
use duckdb_pqcap_reader.Stdio.{Disk, FilePath, reliable, store}
use duckdb_pqcap_reader.Embed.{embedded, custom_body}
use duckdb_pqcap_reader.Embed.Layout.{custom_body_lem}
use duckdb_pqcap_reader.Copy.{default_bind_data}
use mathlib.Core.Path.{subst}
use duckdb_pqcap_reader.FileApi.{FileSystem, Holds}
use duckdb_pqcap_reader.FileApi.OneFile.{one_file, one_file-Holds}
use duckdb_pqcap_reader.Embed.Locate.{length-embedded}
use duckdb_pqcap_reader.Location.{read_flags}
use duckdb_pqcap_reader.SubFile.{PqcapSubFileHandle, open_file}
use duckdb_pqcap_reader.SubFile.Refinement.{
  Request, read_bytes, seek_to, ask_size, replies, replies_of_memory,
}
use duckdb_pqcap_reader.ReadPqcap.{read_pqcap_path}
use duckdb_pqcap_reader.ReadPqcap.Roundtrip.{IsIndexed}
use duckdb_pqcap_reader.ReadPqcap.Copied.{copy-read_pqcap}
use duckdb_pqcap_reader.Finalize.{pcapng_write_finalize}
use duckdb_pqcap_reader.Finalize.Indexing.{finalize-stored}
use duckdb_pqcap_reader.Finalize.Sample.{
  capture, locations, scanned, row, state_of, capture_path, temp, parquet, disk, engine, paths,
  resolved, keep, wrote,
}

abbrev ending : Result (Unit {0}) × Disk
ending =
    pcapng_write_finalize reliable paths keep engine (codes "t") (λ state d. d) default_bind_data
      (state_of (row ∷ [])) capture_path disk

stored_capture : ending.1 capture_path ≡ some (embedded capture parquet)
stored_capture =
    let (succeeds, stored) =
      finalize-stored paths keep engine (codes "t") (λ state d. d) default_bind_data
        (state_of (row ∷ [])) capture_path capture_path disk disk capture locations refl refl
        resolved refl scanned (store temp parquet disk) parquet wrote refl refl in
    stored

capture-IsIndexed : IsIndexed capture parquet
capture-IsIndexed = record {
  capture_bytes = omega arith;
  parquet_bytes = omega arith;
  not_empty = omega arith;
  size_fits = omega arith;
  length_fits = omega arith;
}

abbrev fs : FileSystem
fs = one_file (embedded capture parquet)

opened-Holds : (content : Bytes) → ending.1 capture_path ≡ some content → Holds fs tt content
opened-Holds content e =
    let same : embedded capture parquet ≡ content = some-injective (sym stored_capture ∙ e) in
    subst (Holds fs tt) same (
      one_file-Holds (embedded capture parquet)
        (omega (arith, length-embedded capture parquet (omega arith), length-body)))
  where
    length-body : length (custom_body parquet) ≡ 32
    length-body = rw (custom_body_lem parquet)

    some-injective : {a b : Bytes} → some a ≡ some b → a ≡ b
    some-injective h = cc

abbrev requests : List Request
requests = ask_size ∷ seek_to 1 ∷ read_bytes (codes "...") 3 ∷ []

copy-read_pqcap_example :
    (path : FilePath) × (h : PqcapSubFileHandle fs) × (ending.0 ≡ ok tt)
    × (read_pqcap_path fs capture_path ≡ ok path)
    × (open_file fs path read_flags (some true) ≡ ok h)
    × (replies fs h requests
        ≡ ok (replies_of_memory (record { bytes = parquet; position = 0 }) requests))
copy-read_pqcap_example =
    copy-read_pqcap paths keep engine (codes "t") (λ state d. d) default_bind_data
      (state_of (row ∷ [])) capture_path capture_path disk disk (store temp parquet disk) ending.1
      capture parquet locations ending.0 fs tt requests refl refl resolved refl scanned wrote refl
      refl capture-IsIndexed refl refl refl opened-Holds
