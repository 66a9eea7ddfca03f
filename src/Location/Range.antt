-- ===== src/Location/Range.antt =====
-- Which files `ParsePqcapMetadataLocation` of src/pqcap_reader_extension.cpp accepts.
use duckdb_pqcap_reader.Base.{ℕ, ◌+◌, ◌-◌, ◌≤◌, ◌<◌, ◌≡◌, ◌↔◌, sym, ◌∙◌, arith}
use duckdb_pqcap_reader.Base.{Option, none, some, Bool-cases, inl, inr, ok, All, ltb}
use duckdb_pqcap_reader.Base.{
  length, length-drop, take-length, All-drop, drop, >>=-eq-ok, ◌>>=◌, ltb→lt, lt→ltb, ltb_of_le,
}
use duckdb_pqcap_reader.Words.{Bytes, IsByte, IsU64, slice}
use duckdb_pqcap_reader.Footer.{FooterLocator, parse_footer_locator}
use duckdb_pqcap_reader.Footer.Format.{IsFooter, parse_footer_locator_iff}
use duckdb_pqcap_reader.Stdio.{FilePath}
use duckdb_pqcap_reader.FileApi.{FileSystem, Holds}
use duckdb_pqcap_reader.Location.{parse_pqcap_metadata_location, locate, checked_location}
use duckdb_pqcap_reader.Location.{location_text}

-- A file that ends with a footer block whose locator names a part of the file, not an empty one.
pub record IsLocated (content : Bytes) (loc : FooterLocator) : Type 0 where
  pub has_footer : 44 ≤ length content
  pub footer : IsFooter (drop (length content - 44) content) loc
  pub not_empty : 0 < loc.parquet_length
  pub in_range : loc.parquet_offset + loc.parquet_length ≤ length content

abbrev pub Located : Bytes → Bytes → Type 0
Located content text = (loc : FooterLocator) × IsLocated content loc × (text ≡ location_text loc)

-- The sum may wrap around, but only below its first summand.
checked_location_iff :
    (loc : FooterLocator) (file_size : ℕ) (source text : Bytes)
    → IsU64 loc.parquet_offset
    → IsU64 loc.parquet_length
    → (checked_location loc file_size source ≡ ok text) ↔ (
        (0 < loc.parquet_length)
        × (loc.parquet_offset + loc.parquet_length ≤ file_size)
        × (IsU64 (loc.parquet_offset + loc.parquet_length))
        × (text ≡ location_text loc))
unfolding checked_location
checked_location_iff loc file_size source text ho hl = (λ h. ground arith, λ h. ground arith)

module _ (fs : FileSystem) (handle : fs.Handle) (content : Bytes) (held : Holds fs handle content)
    (bytes : All IsByte content) (source : FilePath) where
  abbrev tail_bytes : Bytes
  tail_bytes = drop (length content - 44) content

  -- On a file that has a tail, the code parses it.
  tail_parsed :
      44 ≤ length content
      → parse_pqcap_metadata_location fs handle source
        ≡ (parse_footer_locator tail_bytes >>= λ loc. locate loc (length content) source)
  unfolding parse_pqcap_metadata_location
  tail_parsed h =
      let tail_is : slice (length content - 44) 44 content ≡ tail_bytes =
        take-length tail_bytes 44 (omega (arith, length-drop (length content - 44) content)) in
      rw (held.size_is, ltb_of_le (length content) 44 h)
        (rw (held.read_is 44 (length content - 44) (omega arith), tail_is))

  too_small :
      length content < 44
      → (text : Bytes) → parse_pqcap_metadata_location fs handle source ≡ ok text
      → Located content text
  unfolding parse_pqcap_metadata_location
  too_small h text p =
      absurd (let short = lt→ltb (length content) 44 h in ground (arith, held.size_is, short))

  parsed-Located :
      44 ≤ length content
      → (text : Bytes) (r : Option FooterLocator) → parse_footer_locator tail_bytes ≡ ok r
      → locate r (length content) source ≡ ok text
      → Located content text
  unfolding locate
  parsed-Located h text none parsed found = cc
  parsed-Located h text (some loc) parsed found =
      let footer =
        (parse_footer_locator_iff tail_bytes loc
            (All-drop IsByte (length content - 44) content bytes)).0
          parsed in
      let facts =
        (checked_location_iff loc (length content) source text footer.offset_fits
            footer.length_fits).0
          found in
      (
        loc,
        record { has_footer = h; footer = footer; not_empty = facts.0; in_range = facts.1 },
        facts.3,
      )

  -- `pqcap_offset_size` succeeds on a file exactly when the file ends with a footer block whose
  -- locator names a part of the file that is not empty, and the text is that offset and length.
  pub parse_pqcap_metadata_location_iff :
      (text : Bytes)
      → (parse_pqcap_metadata_location fs handle source ≡ ok text) ↔ Located content text
  unfolding locate
  parse_pqcap_metadata_location_iff text = (found, answered)
    where
      long_enough :
          44 ≤ length content
          → parse_pqcap_metadata_location fs handle source ≡ ok text
          → Located content text
      long_enough h p =
          let (r, parsed, answer) =
            >>=-eq-ok (parse_footer_locator tail_bytes) (λ loc. locate loc (length content) source)
              (sym (tail_parsed h) ∙ p) in
          parsed-Located h text r parsed answer

      found : parse_pqcap_metadata_location fs handle source ≡ ok text → Located content text
      found p = elim (Bool-cases (ltb (length content) 44)) [
        | inl short ↦ too_small (ltb→lt (length content) 44 short) text p
        | inr long ↦ long_enough (ground arith) p
      ]

      answered : Located content text → parse_pqcap_metadata_location fs handle source ≡ ok text
      answered (loc, l, written) =
          let footer = l.footer in
          let parsed =
            (parse_footer_locator_iff tail_bytes loc
                (All-drop IsByte (length content - 44) content bytes)).1
              footer in
          tail_parsed l.has_footer
          ∙ rw parsed (
              (checked_location_iff loc (length content) source text footer.offset_fits
                  footer.length_fits).1
                (
                  l.not_empty,
                  l.in_range,
                  (let fits = held.size_fits in let inside = l.in_range in omega arith),
                  written,
                ))
