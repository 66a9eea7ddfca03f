-- ===== src/Table/Rows.antt =====
-- One row of `read_pqcap_packets`, src/pqcap_packet_table.cpp.
use duckdb_pqcap_reader.Base.{
  ℕ, ◌%◌, ◌^◌, ◌<◌, ◌≤◌, ltb, fault, false, ◌≡◌, refl, arith, List, [], ◌∷◌, some,
}
use duckdb_pqcap_reader.Base.{String, length, take-length, ok, leb, ◌==◌, true}
use duckdb_pqcap_reader.Words.{Bytes, IsU32}
use duckdb_pqcap_reader.Classic.{LightPacketHeader}
use duckdb_pqcap_reader.Layers.{ParsedL4Fields, no_fields, parse_l4_fields}
use duckdb_pqcap_reader.Layers.Safe.{parse_l4_fields_safe}
use duckdb_pqcap_reader.Table.{
  micros, timestamp_micros_of, PacketRow, packet_row, packet_copy, packet_size, set_row,
  text_or_null,
}

-- The packet is all there, and an int64 of microseconds holds its time.
pub record IsWhole (p : LightPacketHeader × Bytes) : Type 0 where
  pub same_length : p.0.captured_length ≡ length p.1
  pub length_fits : IsU32 (length p.1)
  pub time_fits : micros p.0 < 2 ^ 63

module _ (format : String → List ℕ → Bytes) where
  -- The row of a packet: its header's columns, the fields of the dissector on its bytes, and these
  -- bytes, or NULL if there are none.
  abbrev pub RowOf : LightPacketHeader × Bytes → PacketRow → Type 0
  RowOf p row =
      (parsed : ParsedL4Fields) × (parse_l4_fields format p.0.data_link (text_or_null p.1)
          (length p.1)
        ≡ ok parsed)
      × (row ≡ set_row (micros p.0) p.0 (text_or_null p.1) parsed)

  abbrev pub RowsOf : List (LightPacketHeader × Bytes) → List PacketRow → Type 0
  RowsOf [] [] = Unit
  RowsOf [] (row ∷ rows) = ⊥
  RowsOf (p ∷ ps) [] = ⊥
  RowsOf (p ∷ ps) (row ∷ rows) = RowOf p row × RowsOf ps rows

  copied :
      (n : ℕ) (bytes : Bytes)
      → n ≡ length bytes
      → packet_copy n (some bytes) ≡ ok (text_or_null bytes)
  unfolding packet_copy
  copied n [] h = ground arith
  copied n (b ∷ bytes) h =
      let some_left : (n == 0) ≡ false = ground arith in
      let enough : leb n (length (b ∷ bytes)) ≡ true = ground arith in
      rw (some_left, enough, take-length (b ∷ bytes) n (omega arith))

  size_of_copy : (bytes : Bytes) → packet_size (text_or_null bytes) ≡ length bytes
  size_of_copy [] = refl
  size_of_copy (b ∷ bytes) = refl

  dissected :
      (data_link : ℕ) (bytes : Bytes)
      → (parsed : ParsedL4Fields) × (parse_l4_fields format data_link
            (text_or_null bytes)
            (length bytes)
          ≡ ok parsed)
  unfolding parse_l4_fields
  dissected data_link [] = (no_fields, refl)
  dissected data_link (b ∷ bytes) =
      let (parsed, e, consistent) =
        parse_l4_fields_safe format data_link (b ∷ bytes) (length (b ∷ bytes)) (omega arith) in
      (parsed, e)

  -- A time that an int64 of microseconds does not hold: the sum overflows.
  pub packet_row-overflow :
      (header : LightPacketHeader) (bytes : Bytes)
      → header.captured_length ≡ length bytes
      → IsU32 (length bytes)
      → 2 ^ 63 ≤ micros header
      → packet_row format header (some bytes) ≡ fault
  unfolding packet_row timestamp_micros_of
  packet_row-overflow header bytes same_length length_fits late =
      let (parsed, e) = dissected header.data_link bytes in
      let timed : ltb (micros header) (2 ^ 63) ≡ false = ground arith in
      let unwrapped : length bytes % 2 ^ 32 ≡ length bytes = omega arith in
      rw (copied header.captured_length bytes same_length, size_of_copy bytes, unwrapped, e, timed)

  pub packet_row-RowOf :
      (p : LightPacketHeader × Bytes)
      → IsWhole p
      → (row : PacketRow) × (packet_row format p.0 (some p.1) ≡ ok row) × RowOf p row
  unfolding packet_row timestamp_micros_of
  packet_row-RowOf (header, bytes) w =
      let (parsed, e) = dissected header.data_link bytes in
      let fits = w.length_fits in
      let time_fits = w.time_fits in
      let timed : ltb (micros header) (2 ^ 63) ≡ true = ground arith in
      let unwrapped : length bytes % 2 ^ 32 ≡ length bytes = omega arith in
      (
        set_row (micros header) header (text_or_null bytes) parsed,
        rw (
          copied header.captured_length bytes w.same_length,
          size_of_copy bytes,
          unwrapped,
          e,
          timed,
        ),
        (parsed, e, refl),
      )
