-- ===== src/ReadPqcap.antt =====
-- The macro `read_pqcap` of src/pqcap_reader_extension.cpp, which ties the parts together: it asks
-- `pqcap_offset_size` where the Parquet bytes of a file stand and reads them by a pqcap-subfile path.
pub mod Roundtrip
pub mod Copied
mod Runs
mod CopyRuns
use duckdb_pqcap_reader.Base.{◌∷◌, ◌++◌, Result, ok, ◌>>=◌}
use duckdb_pqcap_reader.Stdio.{FilePath}
use duckdb_pqcap_reader.FileApi.{FileSystem}
use duckdb_pqcap_reader.Location.{offset_size}
use duckdb_pqcap_reader.SubFile.{prefix}

-- `'pqcap-subfile://' || pqcap_offset_size(p) || '!' || p`
unfoldable pub read_pqcap_path : FileSystem → FilePath → Result FilePath
read_pqcap_path fs p = do location ← offset_size fs p; ok (prefix ++ (location ++ b'!' ∷ p))
