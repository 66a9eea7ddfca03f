-- ===== src/FileApi/OneFile.antt =====
-- A file system where every path opens the same bytes: it shows that what src/ asks of DuckDB's can
-- be had.
use duckdb_pqcap_reader.Base.{refl, length, some, ok, true}
use duckdb_pqcap_reader.Words.{Bytes, IsU64, slice}
use duckdb_pqcap_reader.FileApi.{FileSystem, Holds}

abbrev pub one_file : Bytes → FileSystem
one_file content = record {
  Handle = Unit {0};
  open_file = λ path flags. ok (some tt);
  get_file_size = λ h. length content;
  read = λ h nr_bytes location. ok (slice location nr_bytes content);
  can_seek = λ h. true;
  on_disk_file = λ h. true;
  get_file_type = λ h. 0;
  get_last_modified_time = λ h. 0;
}

pub one_file-Holds :
    (content : Bytes) → IsU64 (length content) → Holds (one_file content) tt content
one_file-Holds content fits = record {
  size_fits = fits;
  size_is = refl;
  read_is = λ nr_bytes location inside. refl;
}
