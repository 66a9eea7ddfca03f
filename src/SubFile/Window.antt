-- ===== src/SubFile/Window.antt =====
-- The reads of src/pqcap_subfile_fs.cpp: a handle shows a byte range of the underlying file.
use duckdb_pqcap_reader.Base.{ℕ, ◌+◌, ◌-◌, ◌%◌, ◌^◌, ◌≤◌, ◌<◌, ◌≡◌, refl, sym, ap, ◌∙◌, arith, min}
use duckdb_pqcap_reader.Base.{
  length-take-min, take-nil, [], length, length-drop, take, drop, drop-take, drop-drop,
  take-take-min, ok,
}
use duckdb_pqcap_reader.Base.{Bool-cases, leb, leb→le, inl, inr, ◌==◌, eq_of_==, drop-length}
use duckdb_pqcap_reader.Words.{Bytes, slice}
use duckdb_pqcap_reader.Words.Segments.{length-slice}
use duckdb_pqcap_reader.FileApi.{FileSystem, Holds}
use duckdb_pqcap_reader.SubFile.{PqcapSubFileHandle, read_at, read_next, fill}

-- A slice of a slice.
pub slice-slice :
    (whole : Bytes) (base size location n : ℕ)
    → slice location n (slice base size whole)
      ≡ slice (location + base) (min n (size - location)) whole
slice-slice whole base size location n =
    ap (take n) (drop-take (drop base whole) location size)
    ∙ (take-take-min (drop location (drop base whole)) n (size - location)
        ∙ ap (take (min n (size - location)))
            (drop-drop whole location base (location + base) refl))

module _ (fs : FileSystem) where
  -- The handle's range lies inside of the underlying file, which holds `whole`.
  pub record IsWindow (h : PqcapSubFileHandle fs) (whole : Bytes) : Type 0 where
    pub held : Holds fs h.inner_handle whole
    pub in_range : h.base_offset + h.sub_size ≤ length whole

  abbrev pub content : PqcapSubFileHandle fs → Bytes → Bytes
  content h whole = slice h.base_offset h.sub_size whole

  module _ (h : PqcapSubFileHandle fs) (whole : Bytes) (w : IsWindow h whole) where
    inner_read :
        (location n : ℕ)
        → location < h.sub_size
        → fs.read h.inner_handle
            (min n (h.sub_size - location))
            ((location + h.base_offset) % 2 ^ 64)
          ≡ ok (slice location n (content h whole))
    inner_read location n inside =
        let fits = w.held.size_fits in
        let range = w.in_range in
        let unwrapped : (location + h.base_offset) % 2 ^ 64 ≡ location + h.base_offset =
          omega arith in
        rw unwrapped (
          w.held.read_is (min n (h.sub_size - location)) (location + h.base_offset) (omega arith)
          ∙ ap ok (sym (slice-slice whole h.base_offset h.sub_size location n)))

    pub length-content : length (content h whole) ≡ h.sub_size
    length-content = length-slice h.base_offset h.sub_size whole (w.in_range)

    nothing_left :
        (location n : ℕ) → h.sub_size ≤ location → slice location n (content h whole) ≡ []
    nothing_left location n past =
        ap (take n) (drop-length (content h whole) location (omega (arith, length-content)))
        ∙ take-nil n

    no_bytes :
        (location n : ℕ)
        → location < h.sub_size
        → min n (h.sub_size - location) ≡ 0
        → slice location n (content h whole) ≡ []
    no_bytes location n inside none_asked =
        let nothing : n ≡ 0 = omega arith in ap (λ k. slice location k (content h whole)) nothing

    -- As many bytes as are asked for and left in the range.
    length-slice-content :
        (location n : ℕ)
        → length (slice location n (content h whole)) ≡ min n (h.sub_size - location)
    length-slice-content location n =
        length-take-min n (drop location (content h whole))
        ∙ ap (min n)
            (length-drop location (content h whole) ∙ ap (λ k. k - location) length-content)

    stays : h ≡ record h { seek_pos = h.seek_pos + 0 }
    stays = ap (λ k. record h { seek_pos = k }) (omega arith)

    in_uint64 :
        (n : ℕ)
        → h.seek_pos < h.sub_size
        → (h.seek_pos + min n (h.sub_size - h.seek_pos)) % 2 ^ 64
          ≡ h.seek_pos + min n (h.sub_size - h.seek_pos)
    in_uint64 n inside = let fits = w.held.size_fits in let range = w.in_range in omega arith

    -- A positional read puts into the front of the buffer the bytes that the range has from the
    -- location on, at most as many as are asked for, and leaves the rest of the buffer alone.
    pub read_at_lem :
        (buffer : Bytes) (n location : ℕ)
        → read_at fs h buffer n location ≡ ok (fill (slice location n (content h whole)) buffer)
    unfolding read_at
    read_at_lem buffer n location = elim (Bool-cases (leb h.sub_size location)) [
      | inl past ↦ rw (past, nothing_left location n (leb→le h.sub_size location past))
      | inr inside ↦ elim (Bool-cases (min n (h.sub_size - location) == 0)) [
        | inl nothing ↦
            rw (inside, nothing, no_bytes location n (ground arith) (eq_of_== _ 0 nothing))
        | inr some_left ↦ rw (inside, some_left, inner_read location n (ground arith))
      ]
    ]

    -- A sequential read returns the same bytes from the position on, and moves it behind them.
    pub read_next_lem :
        (buffer : Bytes) (n : ℕ)
        → let bytes = slice h.seek_pos n (content h whole) in
          read_next fs h buffer n
          ≡ ok (length bytes, fill bytes buffer, record h { seek_pos = h.seek_pos + length bytes })
    unfolding read_next
    read_next_lem buffer n = elim (Bool-cases (leb h.sub_size h.seek_pos)) [
      | inl past ↦
          rw (past, nothing_left h.seek_pos n (leb→le h.sub_size h.seek_pos past))
            (ap (λ t. ok (0, buffer, t)) stays)
      | inr inside ↦ elim (Bool-cases (min n (h.sub_size - h.seek_pos) == 0)) [
        | inl nothing ↦
            rw (inside, nothing, no_bytes h.seek_pos n (ground arith) (eq_of_== _ 0 nothing))
              (ap (λ t. ok (0, buffer, t)) stays)
        | inr some_left ↦ rw (
          inside,
          some_left,
          inner_read h.seek_pos n (ground arith),
          length-slice-content,
          in_uint64 n (ground arith),
        )
      ]
    ]
