-- ===== src/Plain/Refusal.antt =====
-- Which captures `EnsurePlainCapture` of src/pqcap_copy_function.cpp lets through.
use duckdb_pqcap_reader.Base.{◌+◌, ◌-◌, ◌≤◌, ◌<◌, ◌≡◌, ◌⊎◌, ◌↔◌, arith, inl, inr}
use duckdb_pqcap_reader.Base.{
  Option, none, some, Bool-cases, ok, throw, All, ltb, ltb→lt, lt→ltb, ltb_of_le,
}
use duckdb_pqcap_reader.Base.{
  length, length-drop, take-length, All-drop, drop, [], ◌∷◌, invalid_input_exception,
}
use duckdb_pqcap_reader.Words.{Bytes, IsByte, IsU64, slice}
use duckdb_pqcap_reader.Footer.{FooterLocator, parse_footer_locator}
use duckdb_pqcap_reader.Footer.Format.{
  IsFooter, format_fields, parse_footer_locator_iff, parse_footer_locator_total,
}
use duckdb_pqcap_reader.Stdio.{FilePath}
use duckdb_pqcap_reader.FileApi.{FileSystem, Holds}
use duckdb_pqcap_reader.Location.{read_flags}
use duckdb_pqcap_reader.Embed.{embedded}
use duckdb_pqcap_reader.Embed.Layout.{embedded_locator}
use duckdb_pqcap_reader.Embed.Locate.{footer_at_end, length-embedded}
use duckdb_pqcap_reader.Plain.{ensure_plain_capture, handle_without_locator, without_locator}

-- No footer block stands at the end.
abbrev pub IsPlain : Bytes → Type 0
IsPlain content =
    (length content < 44)
    ⊎ ((loc : FooterLocator) → ¬ IsFooter (drop (length content - 44) content) loc)

module _ (fs : FileSystem) (path : FilePath) (handle : fs.Handle) (content : Bytes)
    (opened : fs.open_file path read_flags ≡ ok (some handle))
    (held : Holds fs handle content) where
  abbrev tail_bytes : Bytes
  tail_bytes = drop (length content - 44) content

  -- A short file is plain without a look at it.
  short_lem : length content < 44 → ensure_plain_capture fs path ≡ ok tt
  unfolding ensure_plain_capture handle_without_locator
  short_lem h = rw (opened, held.size_is, lt→ltb (length content) 44 h)

  long_lem :
      (r : Option FooterLocator)
      → 44 ≤ length content
      → parse_footer_locator tail_bytes ≡ ok r
      → ensure_plain_capture fs path ≡ without_locator path r
  unfolding ensure_plain_capture handle_without_locator
  long_lem r h parsed =
      let tail_is : slice (length content - 44) 44 content ≡ tail_bytes =
        take-length tail_bytes 44 (omega (arith, length-drop (length content - 44) content)) in
      rw (opened, held.size_is, ltb_of_le (length content) 44 h)
        (rw (held.read_is 44 (length content - 44) (omega arith), tail_is, parsed))

  module _ (bytes : All IsByte content) where
    by_tail :
        (r : Option FooterLocator)
        → 44 ≤ length content
        → parse_footer_locator tail_bytes ≡ ok r
        → (ensure_plain_capture fs path ≡ ok tt) ↔ IsPlain content
    unfolding without_locator
    by_tail none h parsed = (
      λ e. inr λ loc footer. cc (
        parsed,
        (parse_footer_locator_iff tail_bytes loc (All-drop IsByte _ content bytes)).1 footer,
      ),
      λ p. long_lem none h parsed,
    )
    by_tail (some loc) h parsed = (
      λ e. absurd (cc (long_lem (some loc) h parsed, e)),
      λ p. elim p [
        | inl short ↦ short_lem short
        | inr plain ↦ absurd (
            plain loc (
              (parse_footer_locator_iff tail_bytes loc (All-drop IsByte _ content bytes)).0 parsed))
      ],
    )

    -- On a file that opens, `EnsurePlainCapture` returns exactly if the file does not end with a footer
    -- block of 44 bytes that the reader would accept.
    pub ensure_plain_capture_iff : (ensure_plain_capture fs path ≡ ok tt) ↔ IsPlain content
    ensure_plain_capture_iff = elim (Bool-cases (ltb (length content) 44)) [
      | inl short ↦
          let small = ltb→lt (length content) 44 short in (λ e. inl small, λ p. short_lem small)
      | inr long ↦
          let (r, parsed) =
            parse_footer_locator_total tail_bytes (All-drop IsByte _ content bytes) in
          by_tail r (ground arith) parsed
    ]

-- A capture that `EmbedParquetInPqcap` has written is refused, whatever the Parquet bytes were: the
-- index is embedded only once.
pub ensure_plain_capture-embedded :
    (fs : FileSystem) (path : FilePath) (handle : fs.Handle) (capture parquet : Bytes)
    → fs.open_file path read_flags ≡ ok (some handle)
    → Holds fs handle (embedded capture parquet)
    → IsU64 (length capture + 33)
    → IsU64 (length parquet)
    → ensure_plain_capture fs path
      ≡ throw (
          invalid_input_exception "pqcap_embed_index: capture already contains pqcap metadata: %s"
            (path ∷ []))
unfolding without_locator
ensure_plain_capture-embedded fs path handle capture parquet opened held offset_fits length_fits =
    long_lem fs path handle (embedded capture parquet) opened held
      (some (embedded_locator capture parquet))
      (omega (arith, length-embedded capture parquet offset_fits))
      (rw (footer_at_end capture parquet offset_fits) (
        format_fields 1 0 (embedded_locator capture parquet) (omega arith) offset_fits length_fits))
