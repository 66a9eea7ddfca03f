-- ===== src/Stdio.antt =====
-- The files that the code reads and writes through the C library (`ReadFileBytes` and
-- `WriteFileBytes` of src/pqcap_copy_function.cpp). A disk maps a path to what is stored there.
use duckdb_pqcap_reader.Base.{ℕ, Bool, true, Option, none, some, ◌&&◌, not, ◌==◌, if◌then◌else◌}
use duckdb_pqcap_reader.Base.{Result, ok, throw, io_exception, [], ◌∷◌, length, take, ◌≡◌}
use duckdb_pqcap_reader.Words.{Bytes}
use duckdb_pqcap_reader.Words.Equality.{same_bytes, same_bytes_refl}

abbrev pub FilePath : Type 0
FilePath = Bytes

-- `none` where `fopen(path, "rb")` returns a null pointer.
abbrev pub Disk : Type 0
Disk = FilePath → Option Bytes

-- What the C library answers: whether a path opens for writing, and how many of `n` bytes one
-- `fread` or `fwrite` of a whole file transfers.
pub record Stdio : Type 0 where
  pub opens_for_write : FilePath → Bool
  pub fread_count : FilePath → ℕ → ℕ
  pub fwrite_count : FilePath → ℕ → ℕ

-- Every transfer is complete.
abbrev pub reliable : Stdio
reliable = record {
  opens_for_write = λ path. true;
  fread_count = λ path n. n;
  fwrite_count = λ path n. n;
}

abbrev pub store : FilePath → Bytes → Disk → Disk
store path bytes disk q = if same_bytes q path then some bytes else disk q

module _ (io : Stdio) where
  unfoldable pub read_file_bytes : FilePath → Disk → Result Bytes
  read_file_bytes path disk = elim (disk path) [
    | none ↦ throw (io_exception "Failed opening %s" (path ∷ []))
    | some out ↦
        let size = length out in
        if not (size == 0) && not (io.fread_count path size == size)
        then throw (io_exception "Failed reading %s" (path ∷ []))
        else ok out
  ]

  -- `fopen(path, "wb")` empties the file before anything is written to it.
  unfoldable pub write_file_bytes : FilePath → Bytes → Disk → Result (Unit {0}) × Disk
  write_file_bytes path bytes disk =
      let size = length bytes in
      let written = io.fwrite_count path size in
      if not (io.opens_for_write path)
      then (throw (io_exception "Failed opening %s for write" (path ∷ [])), disk)
      else if not (size == 0) && not (written == size)
      then (
        throw (io_exception "Failed writing %s" (path ∷ [])),
        store path (take written bytes) disk,
      )
      else (ok tt, store path bytes disk)

pub lookup-store_self :
    (path : FilePath) (bytes : Bytes) (disk : Disk) → store path bytes disk path ≡ some bytes
lookup-store_self path bytes disk = rw (same_bytes_refl path)
