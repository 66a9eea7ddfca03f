-- ===== src/SubFile/Open.antt =====
-- Which paths src/pqcap_subfile_fs.cpp opens, and as which byte range.
use duckdb_pqcap_reader.Base.{ℕ, ◌<◌, ◌≡◌, ◌≢◌, ◌↔◌, ◌⊎◌, sym, ap, ◌∙◌, arith, true, false, Bool}
use duckdb_pqcap_reader.Base.{[], ◌∷◌, ◌++◌, All, All-append, length, take, drop, take-append-drop}
use duckdb_pqcap_reader.Base.{
  length-append, lt→ltb, ltb, &&-eq-true, Option, none, some, Option-cases, Bool-cases, inl, inr,
  ok, >>=-eq-ok, ◌==◌,
}
use duckdb_pqcap_reader.Words.{Bytes, codes}
use duckdb_pqcap_reader.Words.Equality.{same_bytes→eq}
use duckdb_pqcap_reader.Decimal.{parse_decimal_uint64}
use duckdb_pqcap_reader.Decimal.Parse.{IsDecimal, IsDigit, parse_decimal_uint64_iff}
use duckdb_pqcap_reader.Stdio.{FilePath}
use duckdb_pqcap_reader.FileApi.{FileSystem, FileOpenFlags}
use duckdb_pqcap_reader.SubFile.{PqcapSubFileHandle, open_file, open_underlying, open_ranged}
use duckdb_pqcap_reader.SubFile.{open_stripped, can_handle_file, cut_at, prefix, prefix_len}

abbrev Lacks : ℕ → Bytes → Type 0
Lacks c = All (λ b. b ≢ c)

cut_at-append :
    (c : ℕ) (front back : Bytes) → Lacks c front → cut_at c (front ++ c ∷ back) ≡ some (front, back)
unfolding cut_at
cut_at-append c [] back h = ground arith
cut_at-append c (b ∷ front) back (hb, h) = ground (arith, cut_at-append c front back h)

cut_at_sound :
    (c : ℕ) (s front back : Bytes) → cut_at c s ≡ some (front, back) → s ≡ front ++ c ∷ back
unfolding cut_at
cut_at_sound c [] front back h = cc
cut_at_sound c (b ∷ s) front back h = elim (Bool-cases (b == c)) [
  | inl here ↦ ground arith
  | inr later ↦ elim (Option-cases (cut_at c s)) [
    | inl missing ↦ absurd (ground arith)
    | inr ((front', back'), found) ↦ ground (arith, cut_at_sound c s front' back' found)
  ]
]

digits-Lacks : (c : ℕ) (s : Bytes) → (c < 48) ⊎ (57 < c) → All IsDigit s → Lacks c s
digits-Lacks c [] h d = tt
digits-Lacks c (b ∷ s) h (hb, d) = (ground arith, digits-Lacks c s h d)

module _ (fs : FileSystem) (path : FilePath) (flags : FileOpenFlags) where
  -- The path names a range by two decimal numbers, and a file that opens and is seekable.
  pub record IsOpened (opener : Option Bool) (h : PqcapSubFileHandle fs) : Type 0 where
    pub for_reading : flags.open_for_reading ≡ true
    pub not_for_writing : flags.open_for_writing ≡ false
    pub has_context : opener ≡ some true
    pub offset_text : Bytes
    pub size_text : Bytes
    pub underlying : FilePath
    pub spelled : path ≡ prefix ++ ((offset_text ++ b'_' ∷ size_text) ++ b'!' ∷ underlying)
    pub offset_is : IsDecimal offset_text h.base_offset
    pub size_is : IsDecimal size_text h.sub_size
    pub opened : fs.open_file underlying flags ≡ ok (some h.inner_handle)
    pub seekable : fs.can_seek h.inner_handle ≡ true
    pub at_start : h.seek_pos ≡ 0

  opened_underlying :
      (underlying : FilePath) (has_context : Bool) (offset size : ℕ) (h : PqcapSubFileHandle fs)
      → open_underlying fs path flags underlying has_context offset size ≡ ok h
      → (has_context ≡ true)
        × (fs.open_file underlying flags ≡ ok (some h.inner_handle))
        × (fs.can_seek h.inner_handle ≡ true)
        × (h.base_offset ≡ offset)
        × (h.sub_size ≡ size)
        × (h.seek_pos ≡ 0)
  unfolding open_underlying
  opened_underlying underlying has_context offset size h e = ground arith

  IsOpened-ranged :
      (underlying header : Bytes) (has_context : Bool) (h : PqcapSubFileHandle fs)
      → path ≡ prefix ++ (header ++ b'!' ∷ underlying)
      → flags.open_for_reading ≡ true
      → flags.open_for_writing ≡ false
      → open_ranged fs path flags underlying has_context (cut_at b'_' header) ≡ ok h
      → IsOpened (some has_context) h
  unfolding open_ranged
  IsOpened-ranged underlying header has_context h spelled reading writing e =
      elim (Option-cases (cut_at b'_' header)) [
        | inl missing ↦ absurd (ground arith)
        | inr ((offset_text, size_text), found) ↦
            let (offset, offset_is, e₁) =
              >>=-eq-ok (parse_decimal_uint64 offset_text (codes "offset") path) _
                (rw found at e) in
            let (size, size_is, e₂) =
              >>=-eq-ok (parse_decimal_uint64 size_text (codes "size") path) _ e₁ in
            let (context, opened, seekable, offset_eq, size_eq, start) =
              opened_underlying underlying has_context offset size h e₂ in
            record {
              for_reading = reading;
              not_for_writing = writing;
              has_context = ap some context;
              offset_text = offset_text;
              size_text = size_text;
              underlying = underlying;
              spelled =
                  spelled
                  ∙ ap (λ t. prefix ++ (t ++ b'!' ∷ underlying))
                      (cut_at_sound b'_' header offset_text size_text found);
              offset_is =
                  rw offset_eq (
                    (parse_decimal_uint64_iff offset_text (codes "offset") path offset).0
                      offset_is);
              size_is =
                  rw size_eq
                    ((parse_decimal_uint64_iff size_text (codes "size") path size).0 size_is);
              opened = opened;
              seekable = seekable;
              at_start = start;
            }
      ]

  IsOpened-stripped :
      (has_context : Bool) (h : PqcapSubFileHandle fs)
      → path ≡ prefix ++ drop prefix_len path
      → flags.open_for_reading ≡ true
      → flags.open_for_writing ≡ false
      → open_stripped fs path flags has_context (cut_at b'!' (drop prefix_len path)) ≡ ok h
      → IsOpened (some has_context) h
  unfolding open_stripped
  IsOpened-stripped has_context h spelled reading writing e =
      elim (Option-cases (cut_at b'!' (drop prefix_len path))) [
        | inl missing ↦ absurd (ground arith)
        | inr ((header, underlying), found) ↦
            IsOpened-ranged underlying header has_context h
              (spelled ∙ ap (λ t. prefix ++ t) (cut_at_sound b'!' _ header underlying found))
              reading writing (rw found at e)
      ]

  prefixed : can_handle_file path ≡ true → path ≡ prefix ++ drop prefix_len path
  unfolding can_handle_file
  prefixed h =
      let same =
        same_bytes→eq (take prefix_len path) prefix
          (&&-eq-true (ltb prefix_len (length path)) _ h).1 in
      sym (take-append-drop prefix_len path) ∙ ap (λ t. t ++ drop prefix_len path) same

  opened :
      (opener : Option Bool) (h : PqcapSubFileHandle fs)
      → open_file fs path flags opener ≡ ok h
      → IsOpened opener h
  unfolding open_file
  opened none h e = absurd (ground arith)
  opened (some has_context) h e =
      IsOpened-stripped has_context h (prefixed (ground arith)) (ground arith) (ground arith)
        (ground arith)

can_handle_file-prefix : (rest : Bytes) → 0 < length rest → can_handle_file (prefix ++ rest) ≡ true
unfolding can_handle_file
can_handle_file-prefix rest h = rw (lt→ltb 16 (length (prefix ++ rest)) (omega arith))

header-Lacks :
    (offset_text size_text : Bytes)
    → All IsDigit offset_text
    → All IsDigit size_text
    → Lacks b'!' (offset_text ++ b'_' ∷ size_text)
header-Lacks offset_text size_text ho hs =
    All-append (λ b. b ≢ b'!') offset_text (b'_' ∷ size_text)
      (digits-Lacks b'!' offset_text (inl (omega arith)) ho)
      (omega arith, digits-Lacks b'!' size_text (inl (omega arith)) hs)

module _ (fs : FileSystem) (flags : FileOpenFlags) (h : PqcapSubFileHandle fs)
    (offset_text size_text underlying : Bytes) (offset_is : IsDecimal offset_text h.base_offset)
    (size_is : IsDecimal size_text h.sub_size)
    (found : fs.open_file underlying flags ≡ ok (some h.inner_handle))
    (seekable : fs.can_seek h.inner_handle ≡ true) (at_start : h.seek_pos ≡ 0) where
  open_underlying-eq_ok :
      (path : FilePath)
      → open_underlying fs path flags underlying true h.base_offset h.sub_size ≡ ok h
  unfolding open_underlying
  open_underlying-eq_ok path =
      rw (found, seekable) (ap (λ k. ok (record h { seek_pos = k })) (sym at_start))

  open_ranged-eq_ok :
      (path : FilePath)
      → open_ranged fs path flags underlying true (cut_at b'_' (offset_text ++ b'_' ∷ size_text))
        ≡ ok h
  unfolding open_ranged
  open_ranged-eq_ok path =
      rw
        (
          cut_at-append b'_' offset_text size_text
              (digits-Lacks b'_' offset_text (inr (omega arith)) offset_is.digits),
          (parse_decimal_uint64_iff offset_text (codes "offset") path h.base_offset).1 offset_is,
          (parse_decimal_uint64_iff size_text (codes "size") path h.sub_size).1 size_is,
        )
        (open_underlying-eq_ok path)

  open_file-eq_ok :
      flags.open_for_reading ≡ true
      → flags.open_for_writing ≡ false
      → open_file fs
          (prefix ++ ((offset_text ++ b'_' ∷ size_text) ++ b'!' ∷ underlying))
          flags
          (some true)
        ≡ ok h
  unfolding open_file
  open_file-eq_ok reading writing =
      let header = offset_text ++ b'_' ∷ size_text in
      let handled =
        can_handle_file-prefix (header ++ b'!' ∷ underlying)
          (omega (arith, length-append header (b'!' ∷ underlying))) in
      let cut =
        cut_at-append b'!' header underlying
          (header-Lacks offset_text size_text offset_is.digits size_is.digits) in
      simp (reading, writing)
        (rw (handled, cut) (open_ranged-eq_ok (prefix ++ (header ++ b'!' ∷ underlying))))

-- `OpenFile` succeeds exactly on the paths `pqcap-subfile://OFFSET_SIZE!PATH` with two decimal
-- uint64s, for reading only and with a client context, whose underlying file opens and is seekable;
-- the handle is at the start of that range of that file.
pub open_file_iff :
    (fs : FileSystem) (path : FilePath) (flags : FileOpenFlags) (opener : Option Bool)
    (h : PqcapSubFileHandle fs)
    → (open_file fs path flags opener ≡ ok h) ↔ IsOpened fs path flags opener h
open_file_iff fs path flags opener h = (opened fs path flags opener h, back)
  where
    back : IsOpened fs path flags opener h → open_file fs path flags opener ≡ ok h
    back o =
        rw (o.spelled, o.has_context)
          (open_file-eq_ok fs flags h o.offset_text o.size_text o.underlying o.offset_is o.size_is
            o.opened o.seekable o.at_start o.for_reading o.not_for_writing)
