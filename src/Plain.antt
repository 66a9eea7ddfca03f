-- ===== src/Plain.antt =====
-- `EnsurePlainCapture` of src/pqcap_copy_function.cpp: a capture is indexed only once.
pub mod Refusal
mod Runs
use duckdb_pqcap_reader.Base.{
  ℕ, ◌-◌, ◌∷◌, [], Option, none, some, ltb, if◌then◌else◌, Result, ok, throw, ◌>>=◌,
}
use duckdb_pqcap_reader.Base.{io_exception, invalid_input_exception}
use duckdb_pqcap_reader.Footer.{FooterLocator, parse_footer_locator}
use duckdb_pqcap_reader.Stdio.{FilePath}
use duckdb_pqcap_reader.FileApi.{FileSystem}
use duckdb_pqcap_reader.Location.{read_flags, pqcap_footer_block_size}

-- What follows the parse of the last 44 bytes.
unfoldable pub without_locator : FilePath → Option FooterLocator → Result (Unit {0})
without_locator path none = ok tt
without_locator path (some loc) = throw (
    invalid_input_exception "pqcap_embed_index: capture already contains pqcap metadata: %s"
      (path ∷ []))

module _ (fs : FileSystem) where
  unfoldable pub handle_without_locator : FilePath → Option fs.Handle → Result (Unit {0})
  handle_without_locator path none =
      throw (io_exception "pqcap_embed_index: could not open %s" (path ∷ []))
  handle_without_locator path (some handle) =
      let file_size = fs.get_file_size handle in
      if ltb file_size pqcap_footer_block_size then ok tt else do
        tail ← fs.read handle pqcap_footer_block_size (file_size - pqcap_footer_block_size)
        loc ← parse_footer_locator tail
        without_locator path loc

  unfoldable pub ensure_plain_capture : FilePath → Result (Unit {0})
  ensure_plain_capture path = do
    handle ← fs.open_file path read_flags
    handle_without_locator path handle
