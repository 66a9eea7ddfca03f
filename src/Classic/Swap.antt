-- ===== src/Classic/Swap.antt =====
-- The byte swaps of src/pqcap_packet_table.cpp.
use duckdb_pqcap_reader.Base.{ℕ, ◌*◌, ◌/◌, ◌%◌, ◌^◌, ◌≡◌, arith, [], ◌∷◌}
use duckdb_pqcap_reader.Words.{Bytes, IsU16, IsU32, le_value, shl, shr}
use duckdb_pqcap_reader.Words.Bits.{bit_and-byte, bit_and_clear}
use duckdb_pqcap_reader.Words.Value.{join_two, join_four}
use duckdb_pqcap_reader.Classic.{swap_u16, swap32}
use Prim.Native.Nat.{bit_and}

second_byte : (v : ℕ) → bit_and v 0xFF00 ≡ v / 256 % 256 * 256
second_byte v = omega (arith, bit_and_clear v 255, bit_and-byte (v / 256))

third_byte : (v : ℕ) → bit_and v 0xFF0000 ≡ v / 65536 % 256 * 65536
third_byte v = omega (arith, bit_and_clear v 65280, second_byte (v / 256))

fourth_byte : (v : ℕ) → bit_and v 0xFF000000 ≡ v / 16777216 % 256 * 16777216
fourth_byte v = omega (arith, bit_and_clear v 16711680, third_byte (v / 256))

-- The bytes of a word, highest first.
abbrev pub be_bytes_2 : ℕ → Bytes
be_bytes_2 v = (v / 256 % 256) ∷ (v % 256) ∷ []

abbrev pub be_bytes_4 : ℕ → Bytes
be_bytes_4 v =
    (v / 256 / 256 / 256 % 256) ∷ (v / 256 / 256 % 256) ∷ (v / 256 % 256) ∷ (v % 256) ∷ []

-- The bytes of a word, lowest first, one by one.
abbrev pub le_bytes_4 : ℕ → Bytes
le_bytes_4 v =
    (v % 256) ∷ (v / 256 % 256) ∷ (v / 256 / 256 % 256) ∷ (v / 256 / 256 / 256 % 256) ∷ []

pub swap_u16-be_bytes : (v : ℕ) → IsU16 v → swap_u16 (le_value (be_bytes_2 v)) ≡ v
unfolding swap_u16
swap_u16-be_bytes v h =
    let w = le_value (be_bytes_2 v) in
    let high : shr w 8 ≡ v % 256 = omega arith in
    let low : bit_and w 0xFF ≡ v / 256 = omega (arith, bit_and-byte w) in
    rw (high, low, join_two (v % 256) (v / 256) (omega arith)) (omega arith)

-- Swapping the word that a file of the other byte order holds gives the number back.
pub swap32-be_bytes : (v : ℕ) → IsU32 v → swap32 (le_value (be_bytes_4 v)) ≡ v
unfolding swap32
swap32-be_bytes v h =
    let w = le_value (be_bytes_4 v) in
    let b0 : bit_and (shr w 24) 0xFF ≡ v % 256 = omega (arith, bit_and-byte (shr w 24)) in
    let b1 : bit_and (shr w 8) 0xFF00 ≡ shl (v / 256 % 256) 8 =
      omega (arith, second_byte (shr w 8)) in
    let b2 : bit_and (shl w 8 % 2 ^ 32) 0xFF0000 ≡ shl (v / 256 / 256 % 256) 16 =
      omega (arith, third_byte (shl w 8 % 2 ^ 32)) in
    let b3 : bit_and (shl w 24 % 2 ^ 32) 0xFF000000 ≡ shl (v / 256 / 256 / 256) 24 =
      omega (arith, fourth_byte (shl w 24 % 2 ^ 32)) in
    rw (b0, b1, b2, b3)
      (rw
        (join_four (v % 256) (v / 256 % 256) (v / 256 / 256 % 256) (v / 256 / 256 / 256)
          (omega arith) (omega arith) (omega arith))
        (omega arith))
