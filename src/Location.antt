-- ===== src/Location.antt =====
-- `ParsePqcapMetadataLocation`, `PqcapOffsetSizeFunction` and `StringScalarLoop` of
-- src/pqcap_reader_extension.cpp: where the Parquet bytes of a file stand, as text.
pub mod Range
pub mod Rows
mod Runs
use duckdb_pqcap_reader.Base.{
  ℕ, ◌+◌, ◌-◌, ◌%◌, ◌^◌, List, [], ◌∷◌, ◌++◌, Option, none, some, length,
}
use duckdb_pqcap_reader.Base.{true, false, ltb, ◌==◌, ◌||◌, if◌then◌else◌, String, ◌≡◌}
use duckdb_pqcap_reader.Base.{Result, ok, throw, ◌>>=◌, io_exception, invalid_input_exception}
use duckdb_pqcap_reader.Words.{Bytes, codes}
use duckdb_pqcap_reader.Footer.{FooterLocator, parse_footer_locator}
use duckdb_pqcap_reader.Decimal.{to_string}
use duckdb_pqcap_reader.Stdio.{FilePath}
use duckdb_pqcap_reader.FileApi.{FileSystem, FileOpenFlags}

abbrev pub pqcap_footer_block_size : ℕ
pqcap_footer_block_size = 44

-- `std::to_string(offset) + "_" + std::to_string(length)`
unfoldable pub location_text : FooterLocator → Bytes
location_text loc = to_string loc.parquet_offset ++ (b'_' ∷ to_string loc.parquet_length)

-- The tests on the locator. `offset + length` is a uint64 sum, which wraps around.
unfoldable pub checked_location : FooterLocator → ℕ → FilePath → Result Bytes
checked_location loc file_size source =
    let end = (loc.parquet_offset + loc.parquet_length) % 2 ^ 64 in
    if loc.parquet_length == 0
    then throw (invalid_input_exception "pqcap embedded metadata length is zero: %s" (source ∷ []))
    else if ltb end loc.parquet_offset || ltb file_size end
    then throw (invalid_input_exception "pqcap footer offset/length out of range: %s" (source ∷ []))
    else ok (location_text loc)

unfoldable pub locate : Option FooterLocator → ℕ → FilePath → Result Bytes
locate none file_size source =
    throw (invalid_input_exception "invalid pqcap footer locator: %s" (source ∷ []))
locate (some loc) file_size source = checked_location loc file_size source

-- The flags `FileFlags::FILE_FLAGS_READ`.
abbrev pub read_flags : FileOpenFlags
read_flags = record { open_for_reading = true; open_for_writing = false }

-- The loop over the rows of a chunk; `none` is a row that is NULL.
unfoldable pub string_scalar_loop :
    Bytes → (Bytes → Result Bytes) → List (Option Bytes) → Result (List Bytes)
string_scalar_loop fn body [] = ok []
string_scalar_loop fn body (none ∷ rows) =
    throw (invalid_input_exception "%s: path argument is NULL" (fn ∷ []))
string_scalar_loop fn body (some path ∷ rows) = do
  value ← body path
  values ← string_scalar_loop fn body rows
  ok (value ∷ values)

module _ (fs : FileSystem) where
  unfoldable pub parse_pqcap_metadata_location : fs.Handle → FilePath → Result Bytes
  parse_pqcap_metadata_location handle source =
      let file_size = fs.get_file_size handle in
      if ltb file_size pqcap_footer_block_size
      then throw (invalid_input_exception "pqcap file too small: %s" (source ∷ []))
      else do
        tail ← fs.read handle pqcap_footer_block_size (file_size - pqcap_footer_block_size)
        loc ← parse_footer_locator tail
        locate loc file_size source

  -- The body that `PqcapOffsetSizeFunction` hands to the loop.
  unfoldable pub offset_size : FilePath → Result Bytes
  offset_size path = do
    handle ← fs.open_file path read_flags
    elim handle [
      | none ↦ throw (io_exception "pqcap_offset_size: could not open %s" (path ∷ []))
      | some h ↦ parse_pqcap_metadata_location h path
    ]

  unfoldable pub pqcap_offset_size_function : List (Option Bytes) → Result (List Bytes)
  pqcap_offset_size_function = string_scalar_loop (codes "pqcap_offset_size") offset_size
