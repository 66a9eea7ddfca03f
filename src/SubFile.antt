-- ===== src/SubFile.antt =====
-- src/pqcap_subfile_fs.cpp and src/include/pqcap_subfile_fs.hpp: the file system of the paths
-- `pqcap-subfile://OFFSET_SIZE!PATH`, whose files are byte ranges of other files.
pub mod Open
pub mod Window
pub mod Refinement
mod Runs
use duckdb_pqcap_reader.Base.{
  ℕ, zero, suc, ◌+◌, ◌-◌, ◌%◌, ◌^◌, List, [], ◌∷◌, ◌++◌, Option, none, some,
}
use duckdb_pqcap_reader.Base.{Bool, true, false, ltb, leb, ◌==◌, ◌||◌, ◌&&◌, not, if◌then◌else◌}
use duckdb_pqcap_reader.Base.{Result, ok, throw, ◌>>=◌, io_exception, length, take, drop, min}
use duckdb_pqcap_reader.Words.{Bytes, codes}
use duckdb_pqcap_reader.Words.Equality.{same_bytes}
use duckdb_pqcap_reader.Decimal.{parse_decimal_uint64}
use duckdb_pqcap_reader.Stdio.{FilePath}
use duckdb_pqcap_reader.FileApi.{FileSystem, FileOpenFlags}

abbrev pub prefix : Bytes
prefix = codes "pqcap-subfile://"

abbrev pub prefix_len : ℕ
prefix_len = 16

-- `GetName`
abbrev pub get_name : Bytes
get_name = codes "PqcapSubFileSystem"

unfoldable pub can_handle_file : FilePath → Bool
can_handle_file fpath = ltb prefix_len (length fpath) && same_bytes (take prefix_len fpath) prefix

-- `s.find(c)`: the text in front of the first `c`, and the text behind it.
unfoldable pub cut_at : ℕ → Bytes → Option (Bytes × Bytes)
cut_at c [] = none
cut_at c (b ∷ s) =
    let later : Option (Bytes × Bytes) = elim (cut_at c s) [
      | none ↦ none
      | some (front, back) ↦ some (b ∷ front, back)
    ] in
    if b == c then some ([], s) else later

-- `FileExists` and the test of `Glob`.
unfoldable pub file_exists : FilePath → Bool
file_exists filename = leb 16 (length filename) && same_bytes (take 16 filename) prefix

unfoldable pub glob : FilePath → List FilePath
unfolding file_exists
glob path = if file_exists path then path ∷ [] else []

-- A buffer after bytes were read into its front.
abbrev pub fill : Bytes → Bytes → Bytes
fill bytes buffer = bytes ++ drop (length bytes) buffer

module _ (fs : FileSystem) where
  pub record PqcapSubFileHandle : Type 0 where
    pub inner_handle : fs.Handle
    pub base_offset : ℕ
    pub sub_size : ℕ
    pub seek_pos : ℕ

  -- What follows the parse of the path: the underlying file has to open and to be seekable.
  open_underlying : FilePath → FileOpenFlags → FilePath → Bool → ℕ → ℕ → Result PqcapSubFileHandle
  open_underlying path flags underlying has_context offset size =
      if not has_context
      then throw (io_exception "pqcap-subfile filesystem requires a ClientContext: %s" (path ∷ []))
      else do
        inner ← fs.open_file underlying flags
        elim inner [
          | none ↦ throw (io_exception "could not open underlying file: %s" (underlying ∷ []))
          | some h ↦
              if not (fs.can_seek h)
              then throw (
                  io_exception "underlying file is not seekable, pqcap requires range reads: %s"
                    (underlying ∷ []))
              else ok
                  (record { inner_handle = h; base_offset = offset; sub_size = size; seek_pos = 0 })
        ]

  open_ranged :
      FilePath
      → FileOpenFlags
      → FilePath
      → Bool
      → Option (Bytes × Bytes)
      → Result PqcapSubFileHandle
  open_ranged path flags underlying has_context none =
      throw (io_exception "malformed pqcap-subfile path (missing '_' separator): %s" (path ∷ []))
  open_ranged path flags underlying has_context (some (offset_text, size_text)) = do
    offset ← parse_decimal_uint64 offset_text (codes "offset") path
    size ← parse_decimal_uint64 size_text (codes "size") path
    open_underlying path flags underlying has_context offset size

  open_stripped :
      FilePath → FileOpenFlags → Bool → Option (Bytes × Bytes) → Result PqcapSubFileHandle
  open_stripped path flags has_context none =
      throw (io_exception "malformed pqcap-subfile path (missing '!' separator): %s" (path ∷ []))
  open_stripped path flags has_context (some (header, underlying)) =
      open_ranged path flags underlying has_context (cut_at b'_' header)

  -- The opener is `none` if it is null, else whether it has a client context.
  unfoldable pub open_file : FilePath → FileOpenFlags → Option Bool → Result PqcapSubFileHandle
  unfolding open_underlying open_ranged open_stripped
  open_file path flags opener =
      if not flags.open_for_reading || flags.open_for_writing
      then throw (io_exception "pqcap-subfile filesystem is read-only" [])
      else elim opener [
        | none ↦ throw (
            io_exception "pqcap-subfile filesystem requires a FileOpener for context: %s"
              (path ∷ []))
        | some has_context ↦
            if not (can_handle_file path)
            then throw (io_exception "not a pqcap-subfile path: %s" (path ∷ []))
            else open_stripped path flags has_context (cut_at b'!' (drop prefix_len path))
      ]

  -- `Read(handle, buffer, nr_bytes, location)`. The count is an int64 that the code converts to
  -- `idx_t`, so it is the uint64 of the same bits; the sum with the base is a uint64 sum.
  unfoldable pub read_at : PqcapSubFileHandle → Bytes → ℕ → ℕ → Result Bytes
  read_at h buffer nr_bytes location =
      if leb h.sub_size location
      then ok buffer
      else let to_read = min nr_bytes (h.sub_size - location) in
        if to_read == 0 then ok buffer else do
          bytes ← fs.read h.inner_handle to_read ((location + h.base_offset) % 2 ^ 64)
          ok (fill bytes buffer)

  -- `Read(handle, buffer, nr_bytes)`: the count that it returns, the buffer and the handle.
  unfoldable pub read_next :
      PqcapSubFileHandle → Bytes → ℕ → Result (ℕ × Bytes × PqcapSubFileHandle)
  read_next h buffer nr_bytes =
      if leb h.sub_size h.seek_pos
      then ok (0, buffer, h)
      else let to_read = min nr_bytes (h.sub_size - h.seek_pos) in
        if to_read == 0 then ok (0, buffer, h) else do
          bytes ← fs.read h.inner_handle to_read ((h.seek_pos + h.base_offset) % 2 ^ 64)
          ok (to_read, fill bytes buffer, record h { seek_pos = (h.seek_pos + to_read) % 2 ^ 64 })

  -- The source returns the int64 of the same bits, which its callers convert back to `idx_t`.
  unfoldable pub get_file_size : PqcapSubFileHandle → ℕ
  get_file_size h = h.sub_size

  unfoldable pub seek : PqcapSubFileHandle → ℕ → PqcapSubFileHandle
  seek h location = record h { seek_pos = location }

  unfoldable pub reset : PqcapSubFileHandle → PqcapSubFileHandle
  reset h = record h { seek_pos = 0 }

  unfoldable pub seek_position : PqcapSubFileHandle → ℕ
  seek_position h = h.seek_pos

  unfoldable pub on_disk_file : PqcapSubFileHandle → Bool
  on_disk_file h = fs.on_disk_file h.inner_handle

  unfoldable pub get_file_type : PqcapSubFileHandle → ℕ
  get_file_type h = fs.get_file_type h.inner_handle

  unfoldable pub get_last_modified_time : PqcapSubFileHandle → ℕ
  get_last_modified_time h = fs.get_last_modified_time h.inner_handle
