-- ===== src/Plain/Runs.antt =====
-- The theorems on `EnsurePlainCapture`, src/pqcap_copy_function.cpp, at small captures.
use duckdb_pqcap_reader.Base.{
  ◌≡◌, ◌↔◌, ◌<◌, refl, arith, length, throw, ok, invalid_input_exception, ◌∷◌, [],
}
use duckdb_pqcap_reader.Words.{Bytes, codes}
use duckdb_pqcap_reader.Stdio.{FilePath}
use duckdb_pqcap_reader.FileApi.OneFile.{one_file, one_file-Holds}
use duckdb_pqcap_reader.Embed.{embedded, custom_body}
use duckdb_pqcap_reader.Embed.Layout.{custom_body_lem}
use duckdb_pqcap_reader.Embed.Locate.{length-embedded}
use duckdb_pqcap_reader.Plain.{ensure_plain_capture}
use duckdb_pqcap_reader.Plain.Refusal.{
  IsPlain, ensure_plain_capture_iff, ensure_plain_capture-embedded,
}

abbrev path : FilePath
path = codes "a.pcapng"

abbrev plain : Bytes
plain = codes "a capture of more than forty-four bytes, not indexed"

ensure_plain_capture_iff_example :
    (ensure_plain_capture (one_file plain) path ≡ ok tt) ↔ IsPlain plain
ensure_plain_capture_iff_example =
    ensure_plain_capture_iff (one_file plain) path tt plain refl
      (one_file-Holds plain (omega arith)) (omega arith)

abbrev capture : Bytes
capture = codes "capture"

abbrev parquet : Bytes
parquet = codes "PAR1"

length-embedded_files : length (embedded capture parquet) < 1000
length-embedded_files = omega (arith, length-embedded capture parquet (omega arith), body)
  where
    body : length (custom_body parquet) ≡ 32
    body = rw (custom_body_lem parquet)

ensure_plain_capture-embedded_example :
    ensure_plain_capture (one_file (embedded capture parquet)) path
    ≡ throw (
        invalid_input_exception "pqcap_embed_index: capture already contains pqcap metadata: %s"
          (path ∷ []))
ensure_plain_capture-embedded_example =
    ensure_plain_capture-embedded (one_file (embedded capture parquet)) path tt capture parquet refl
      (one_file-Holds (embedded capture parquet) (let small = length-embedded_files in omega arith))
      (omega arith) (omega arith)
