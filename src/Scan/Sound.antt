-- ===== src/Scan/Sound.antt =====
-- The scan of src/pqcap_copy_function.cpp on any bytes: it ends, it reads nothing outside of them,
-- and what it returns lies in the file.
use duckdb_pqcap_reader.Base.{ℕ, zero, suc, ◌+◌, ◌≤◌, ◌<◌, ◌≡◌, arith, List, [], ◌∷◌, ◌++◌}
use duckdb_pqcap_reader.Base.{length, length-drop, All, All-drop, drop, ok, Bool-cases, inl, inr}
use duckdb_pqcap_reader.Base.{leb, ltb, ◌==◌, ◌&&◌, ◌||◌, Result}
use duckdb_pqcap_reader.Words.{Bytes, IsByte, le_value, slice}
use duckdb_pqcap_reader.Scan.{PacketLocation, read_le32, packet_location, scan_loop, scan_bytes}
use duckdb_pqcap_reader.Scan.Format.{read_le32_lem}

-- The offsets rise strictly, from `lo` on and below `hi`.
abbrev pub Ascending : ℕ → ℕ → List PacketLocation → Type 0
Ascending lo hi [] = lo ≤ hi
Ascending lo hi (l ∷ ls) = (lo ≤ l.offset) × Ascending (l.offset + 1) hi ls

Ascending-append :
    (lo mid hi : ℕ) (xs ys : List PacketLocation)
    → Ascending lo mid xs
    → Ascending mid hi ys
    → Ascending lo hi (xs ++ ys)
Ascending-append lo mid hi [] [] h k = omega arith
Ascending-append lo mid hi [] (y ∷ ys) h k = (omega arith, k.1)
Ascending-append lo mid hi (x ∷ xs) ys (hx, h) k =
    (hx, Ascending-append (x.offset + 1) mid hi xs ys h k)

Ascending-widen :
    (lo mid hi : ℕ) (xs : List PacketLocation) → mid ≤ hi → Ascending lo mid xs → Ascending lo hi xs
Ascending-widen lo mid hi [] e h = omega arith
Ascending-widen lo mid hi (x ∷ xs) e (hx, h) = (hx, Ascending-widen (x.offset + 1) mid hi xs e h)

module _ (content : Bytes) (bytes : All IsByte content) where
  readable :
      (pos : ℕ)
      → pos + 4 ≤ length content
      → read_le32 (drop pos content) ≡ ok (le_value (slice pos 4 content))
  readable pos h =
      read_le32_lem (drop pos content) (omega (arith, length-drop pos content))
        (All-drop IsByte pos content bytes)

  -- The packet of a block that lies in the file.
  packet_in_block :
      (pos kind len : ℕ)
      → 12 ≤ len
      → pos + len ≤ length content
      → (found : List PacketLocation) × (packet_location content pos kind len ≡ ok found)
        × Ascending pos (pos + len) found
  unfolding packet_location
  packet_in_block pos kind len large inside = elim (Bool-cases (kind == 6 && leb 32 len)) [
    | inl enhanced ↦ (
      record { offset = pos + 28; size = le_value (slice (pos + 8 + 12) 4 content) } ∷ [],
      rw (enhanced, readable (pos + 8 + 12) (ground arith)),
      ground arith,
    )
    | inr other ↦ elim (Bool-cases (kind == 3 && leb 16 len)) [
      | inl simple ↦ (
        record { offset = pos + 12; size = le_value (slice (pos + 8) 4 content) } ∷ [],
        rw (other, simple, readable (pos + 8) (ground arith)),
        ground arith,
      )
      | inr none ↦ ([], rw (other, none), omega arith)
    ]
  ]

  abbrev Scanned : Result (List PacketLocation) → Type 0
  Scanned r = (found : List PacketLocation) × (r ≡ ok found) × Ascending 0 (length content) found

  scan_loop_sound :
      (fuel pos : ℕ) (out : List PacketLocation)
      → pos ≤ length content
      → length content < pos + fuel
      → Ascending 0 pos out
      → Scanned (scan_loop fuel content pos out)
  unfolding scan_loop
  scan_loop_sound zero pos out inside enough h = absurd (omega arith)
  scan_loop_sound (suc fuel) pos out inside enough h =
      let kind = le_value (slice pos 4 content) in
      let len = le_value (slice (pos + 4) 4 content) in
      elim (Bool-cases (leb (pos + 12) (length content))) [
        | inr past ↦ (out, rw past, Ascending-widen 0 pos (length content) out inside h)
        | inl more ↦
            rw (more, readable pos (ground arith), readable (pos + 4) (ground arith))
              (elim (Bool-cases (ltb len 12 || ltb (length content) (pos + len))) [
                | inl stop ↦ (out, rw stop, Ascending-widen 0 pos (length content) out inside h)
                | inr block ↦
                    let (found, e, rising) =
                      packet_in_block pos kind len (ground arith) (ground arith) in
                    rw (block, e)
                      (scan_loop_sound fuel (pos + len) (out ++ found) (ground arith) (ground arith)
                        (Ascending-append 0 pos (pos + len) out found h rising))
              ])
      ]

  -- On any bytes the scan ends with a list of locations: it reads nothing outside of the file, its
  -- rounds are no more than the fuel, and the offsets rise strictly and lie inside of the file.
  pub scan_bytes_sound :
      (found : List PacketLocation) × (scan_bytes content ≡ ok found)
      × Ascending 0 (length content) found
  unfolding scan_bytes
  scan_bytes_sound =
      scan_loop_sound (suc (length content)) 0 [] (omega arith) (omega arith) (omega arith)
