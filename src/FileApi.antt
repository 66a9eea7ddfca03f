-- ===== src/FileApi.antt =====
-- The part of DuckDB's file system that src/pqcap_subfile_fs.cpp, src/pqcap_reader_extension.cpp
-- and src/pqcap_copy_function.cpp call. It is not code of the repository, so it is a parameter.
pub mod OneFile
use duckdb_pqcap_reader.Base.{ℕ, ◌+◌, ◌≤◌, ◌≡◌, Bool, Option, Result, ok, length}
use duckdb_pqcap_reader.Words.{Bytes, IsU64, slice}
use duckdb_pqcap_reader.Stdio.{FilePath}

pub record FileOpenFlags : Type 0 where
  pub open_for_reading : Bool
  pub open_for_writing : Bool

-- `none` is a null handle. `read` is the positional read: the bytes that it puts into the buffer.
pub record FileSystem : Type 1 where
  pub Handle : Type 0
  pub open_file : FilePath → FileOpenFlags → Result (Option Handle)
  pub get_file_size : Handle → ℕ
  pub read : Handle → ℕ → ℕ → Result Bytes
  pub can_seek : Handle → Bool
  pub on_disk_file : Handle → Bool
  pub get_file_type : Handle → ℕ
  pub get_last_modified_time : Handle → ℕ

-- A handle on a file with these bytes: DuckDB's `Read(buffer, nr_bytes, location)` reads exactly
-- the bytes asked for where the file has them.
pub record Holds (fs : FileSystem) (h : fs.Handle) (content : Bytes) : Type 0 where
  pub size_fits : IsU64 (length content)
  pub size_is : fs.get_file_size h ≡ length content
  pub read_is :
      (nr_bytes location : ℕ)
      → location + nr_bytes ≤ length content
      → fs.read h nr_bytes location ≡ ok (slice location nr_bytes content)
