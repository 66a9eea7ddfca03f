-- ===== src/Words/Value.antt =====
-- Little-endian words and the bytes that spell them.
use duckdb_pqcap_reader.Base.{ℕ, zero, suc, ◌+◌, ◌*◌, ◌/◌, ◌%◌, ◌^◌, ◌<◌, ◌≡◌, refl, ap, arith}
use duckdb_pqcap_reader.Base.{[], ◌∷◌, length, All}
use duckdb_pqcap_reader.Words.{Bytes, IsByte, le_value, le_bytes, shl}
use duckdb_pqcap_reader.Words.Bits.{bit_or_disjoint, disjoint_bit_or}
use Prim.Native.Nat.{bit_or}
use mathlib.Core.Path.{subst}
use native.Mathlib.Nat.{pow-suc}

pub length-le_bytes : (n v : ℕ) → length (le_bytes n v) ≡ n
length-le_bytes zero v = refl
length-le_bytes (suc n) v = ap suc (length-le_bytes n (v / 256))

pub le_bytes-IsByte : (n v : ℕ) → All IsByte (le_bytes n v)
le_bytes-IsByte zero v = tt
le_bytes-IsByte (suc n) v = (omega arith, le_bytes-IsByte n (v / 256))

pub le_bytes-le_value :
    (p : Bytes) (n : ℕ) → n ≡ length p → All IsByte p → le_bytes n (le_value p) ≡ p
le_bytes-le_value [] zero e h = refl
le_bytes-le_value [] (suc n) e h = absurd (omega arith)
le_bytes-le_value (b ∷ p) zero e h = absurd (omega arith)
le_bytes-le_value (b ∷ p) (suc n) e (hb, h) =
    let low : (b + 256 * le_value p) % 256 ≡ b = omega arith in
    let high : (b + 256 * le_value p) / 256 ≡ le_value p = omega arith in
    rw (low, high, le_bytes-le_value p n (omega arith) h)

pub le_value-lt : (p : Bytes) → All IsByte p → le_value p < 256 ^ length p
le_value-lt [] h = omega arith
le_value-lt (b ∷ p) (hb, h) = omega (arith, le_value-lt p h, pow-suc 256 (length p))

-- The bound at a known length.
pub le_value-lt_pow : (p : Bytes) (n : ℕ) → length p ≡ n → All IsByte p → le_value p < 256 ^ n
le_value-lt_pow p n e h = subst (λ (k : ℕ). le_value p < 256 ^ k) e (le_value-lt p h)

pub le_value-le_bytes_2 : (v : ℕ) → v < 65536 → le_value (le_bytes 2 v) ≡ v
le_value-le_bytes_2 v h = omega arith

pub le_value-le_bytes_4 : (v : ℕ) → v < 4294967296 → le_value (le_bytes 4 v) ≡ v
le_value-le_bytes_4 v h = omega arith

pub le_value-le_bytes_8 : (v : ℕ) → v < 18446744073709551616 → le_value (le_bytes 8 v) ≡ v
le_value-le_bytes_8 v h = omega arith

-- Shifted bytes joined by `|` are added.
pub join_two : (a b : ℕ) → a < 256 → bit_or a (shl b 8) ≡ a + 256 * b
join_two a b ha = omega (arith, bit_or_disjoint 8 a b ha)

pub join_two_high : (a b : ℕ) → a < 256 → bit_or (shl b 8) a ≡ a + 256 * b
join_two_high a b ha = omega (arith, disjoint_bit_or 8 a b ha)

pub join_four :
    (a b c d : ℕ)
    → a < 256
    → b < 256
    → c < 256
    → bit_or (bit_or (bit_or a (shl b 8)) (shl c 16)) (shl d 24)
      ≡ a + 256 * (b + 256 * (c + 256 * d))
join_four a b c d ha hb hc =
    rw (join_two a b ha, bit_or_disjoint 16 (a + 256 * b) c (omega arith))
      (omega (arith, bit_or_disjoint 24 (a + 256 * b + c * 65536) d (omega arith)))

pub join_words : (lo hi : ℕ) → lo < 4294967296 → bit_or lo (shl hi 32) ≡ lo + 4294967296 * hi
join_words lo hi h = omega (arith, bit_or_disjoint 32 lo hi h)
