-- ===== src/Footer/Format.antt =====
-- The footer block of src/pqcap_footer.cpp, written out, and what the parser accepts.
use duckdb_pqcap_reader.Base.{ℕ, ◌+◌, ◌≤◌, ◌≡◌, refl, sym, ap, ◌∙◌, arith, Bool, true, false, ◌↔◌}
use duckdb_pqcap_reader.Base.{[], ◌++◌, length, length-drop, length-take}
use duckdb_pqcap_reader.Base.{Option, All, All-drop, All-take, ok, some, none, drop}
use duckdb_pqcap_reader.Base.{take-append-drop, drop-drop, drop-length, Bool-cases, inl, inr, ◌==◌}
use duckdb_pqcap_reader.Base.{leb→le, eq_of_==, &&-eq-true, ◌&&◌, if◌then◌else◌}
use mathlib.Core.Path.{ap₂, subst}
use duckdb_pqcap_reader.Words.{Bytes, IsByte, IsU64, le_bytes, slice}
use duckdb_pqcap_reader.Words.Value.{le_value-lt_pow, le_bytes-le_value}
use duckdb_pqcap_reader.Words.Value.{le_value-le_bytes_2, le_value-le_bytes_8}
use duckdb_pqcap_reader.Footer.{FooterLocator, parse_footer_locator, footer_magic, enterprise_id}
use duckdb_pqcap_reader.Footer.{footer_block_type, footer_block_size}
use duckdb_pqcap_reader.Words.Equality.{same_bytes, same_bytes→eq}
use duckdb_pqcap_reader.Footer.Fields.{
  field, locator_of, lengths_match, identity_matches, parse_fields,
}

-- The 44 bytes of a block with this version, these reserved bytes and this locator.
abbrev pub footer_format : ℕ → ℕ → FooterLocator → Bytes
footer_format version reserved loc =
    le_bytes 4 footer_block_type
    ++ (le_bytes 4 footer_block_size
        ++ (le_bytes 4 enterprise_id
            ++ (footer_magic
                ++ (le_bytes 2 version
                    ++ (le_bytes 2 reserved
                        ++ (le_bytes 8 loc.parquet_offset
                            ++ (le_bytes 8 loc.parquet_length ++ le_bytes 4 footer_block_size)))))))

pub record IsFooter (p : Bytes) (loc : FooterLocator) : Type 0 where
  pub version : ℕ
  pub reserved : ℕ
  pub known_version : version ≤ 1
  pub offset_fits : IsU64 loc.parquet_offset
  pub length_fits : IsU64 loc.parquet_length
  pub laid_out : p ≡ footer_format version reserved loc

module _ (p : Bytes) (full : length p ≡ 44) (bytes : All IsByte p) where
  field-IsByte : (i n : ℕ) → All IsByte (slice i n p)
  field-IsByte i n = All-take IsByte n (drop i p) (All-drop IsByte i p bytes)

  length-field : (i n : ℕ) → i + n ≤ 44 → length (slice i n p) ≡ n
  length-field i n h = length-take n (drop i p) (omega (arith, length-drop i p))

  -- The bytes from a field on are the field and what is known of the rest.
  slice_then :
      (i n j : ℕ) (v rest : Bytes)
      → j ≡ n + i
      → slice i n p ≡ v
      → drop j p ≡ rest
      → drop i p ≡ v ++ rest
  slice_then i n j v rest e named h =
      sym (take-append-drop n (drop i p)) ∙ ap₂ ◌++◌ named (drop-drop p n i j e ∙ h)

  field_then :
      (i n j v : ℕ) (rest : Bytes)
      → j ≡ n + i
      → i + n ≤ 44
      → field i n p ≡ v
      → drop j p ≡ rest
      → drop i p ≡ le_bytes n v ++ rest
  field_then i n j v rest e fits named h =
      slice_then i n j (le_bytes n v) rest e
        (sym (le_bytes-le_value (slice i n p) n (sym (length-field i n fits)) (field-IsByte i n))
          ∙ ap (le_bytes n) named)
        h

  field-IsU64 : (i : ℕ) → i + 8 ≤ 44 → IsU64 (field i 8 p)
  field-IsU64 i h = le_value-lt_pow (slice i 8 p) 8 (length-field i 8 h) (field-IsByte i 8)

  -- The fields that the parser does not test are the version, the reserved bytes and the locator.
  laid_out_of_tests :
      field 0 4 p ≡ footer_block_type
      → field 4 4 p ≡ footer_block_size
      → field 40 4 p ≡ footer_block_size
      → field 8 4 p ≡ enterprise_id
      → slice 12 8 p ≡ footer_magic
      → p ≡ footer_format (field 20 2 p) (field 22 2 p) (locator_of p)
  laid_out_of_tests kind size tail enterprise magic =
      field_then 0 4 4 footer_block_type _ refl (omega arith) kind (
        field_then 4 4 8 footer_block_size _ refl (omega arith) size (
          field_then 8 4 12 enterprise_id _ refl (omega arith) enterprise (
            slice_then 12 8 20 footer_magic _ refl magic (
              field_then 20 2 22 (field 20 2 p) _ refl (omega arith) refl (
                field_then 22 2 24 (field 22 2 p) _ refl (omega arith) refl (
                  field_then 24 8 32 (field 24 8 p) _ refl (omega arith) refl (
                    field_then 32 8 40 (field 32 8 p) _ refl (omega arith) refl (
                      field_then 40 4 44 footer_block_size [] refl (omega arith) tail
                        (drop-length p 44 (omega arith))))))))))

  IsFooter-of_tests : lengths_match p && identity_matches p ≡ true → IsFooter p (locator_of p)
  IsFooter-of_tests h =
      let (lengths, identity) = &&-eq-true (lengths_match p) (identity_matches p) h in
      let (kind, sizes) = &&-eq-true (field 0 4 p == footer_block_type) _ lengths in
      let (size, tail) = &&-eq-true (field 4 4 p == footer_block_size) _ sizes in
      let (enterprise, named) = &&-eq-true (field 8 4 p == enterprise_id) _ identity in
      let (magic, version) = &&-eq-true (same_bytes (slice 12 8 p) footer_magic) _ named in
      record {
        version = field 20 2 p;
        reserved = field 22 2 p;
        known_version = leb→le (field 20 2 p) 1 version;
        offset_fits = field-IsU64 24 (omega arith);
        length_fits = field-IsU64 32 (omega arith);
        laid_out =
            laid_out_of_tests (eq_of_== _ footer_block_type kind)
              (eq_of_== _ footer_block_size size) (eq_of_== _ footer_block_size tail)
              (eq_of_== _ enterprise_id enterprise)
              (same_bytes→eq (slice 12 8 p) footer_magic magic);
      }

-- The parser returns the locator of every block that is laid out as a footer.
pub format_fields :
    (version reserved : ℕ) (loc : FooterLocator)
    → version ≤ 1
    → IsU64 loc.parquet_offset
    → IsU64 loc.parquet_length
    → parse_footer_locator (footer_format version reserved loc) ≡ ok (some loc)
format_fields version reserved loc known offset_fits length_fits =
    rw (parse_fields (footer_format version reserved loc) refl bytes) (
      ground (
        arith,
        le_value-le_bytes_2 version (omega arith),
        le_value-le_bytes_8 loc.parquet_offset offset_fits,
        le_value-le_bytes_8 loc.parquet_length length_fits,
      ))
  where
    bytes : All IsByte (footer_format version reserved loc)
    bytes = omega arith

-- A text of another length is refused before it is read.
pub parse_footer_locator-length :
    (p : Bytes) → (length p == 44) ≡ false → parse_footer_locator p ≡ ok none
unfolding parse_footer_locator
parse_footer_locator-length p h = rw h

accepted_fields :
    (p : Bytes) (loc : FooterLocator)
    → All IsByte p
    → length p ≡ 44
    → parse_footer_locator p ≡ ok (some loc)
    → (lengths_match p && identity_matches p ≡ true) × (locator_of p ≡ loc)
accepted_fields p loc bytes full h =
    inverted (lengths_match p && identity_matches p) (sym (parse_fields p full bytes) ∙ h)
  where
    inverted :
        (b : Bool)
        → ok (if b then some (locator_of p) else none) ≡ ok (some loc)
        → (b ≡ true) × (locator_of p ≡ loc)
    inverted true e = (refl, cc)
    inverted false e = cc

-- On bytes, the parser accepts exactly what is laid out as a footer block with the version 0 or 1,
-- whatever its reserved bytes, and it returns the offset and the length that the block holds.
pub parse_footer_locator_iff :
    (p : Bytes) (loc : FooterLocator)
    → All IsByte p
    → (parse_footer_locator p ≡ ok (some loc)) ↔ IsFooter p loc
parse_footer_locator_iff p loc bytes = (accepted, laid_out)
  where
    accepted : parse_footer_locator p ≡ ok (some loc) → IsFooter p loc
    accepted h = elim (Bool-cases (length p == 44)) [
      | inl full ↦
          let (tests, same) = accepted_fields p loc bytes (eq_of_== (length p) 44 full) h in
          subst (IsFooter p) same (IsFooter-of_tests p (eq_of_== (length p) 44 full) bytes tests)
      | inr short ↦ cc (parse_footer_locator-length p short)
    ]

    laid_out : IsFooter p loc → parse_footer_locator p ≡ ok (some loc)
    laid_out f =
        rw f.laid_out
          (format_fields f.version f.reserved loc f.known_version f.offset_fits f.length_fits)

-- The parser ends with an answer on all bytes: it reads nothing outside of them.
pub parse_footer_locator_total :
    (p : Bytes) → All IsByte p → (r : Option FooterLocator) × (parse_footer_locator p ≡ ok r)
parse_footer_locator_total p bytes = elim (Bool-cases (length p == 44)) [
  | inl full ↦ (_, parse_fields p (eq_of_== (length p) 44 full) bytes)
  | inr short ↦ (none, parse_footer_locator-length p short)
]
