-- ===== src/Footer/Reads.antt =====
-- What the little-endian reads of src/pqcap_footer.cpp return on bytes that are there.
use duckdb_pqcap_reader.Base.{ℕ, zero, suc, ◌+◌, ◌*◌, ◌≤◌, ◌≡◌, refl, ap, arith}
use duckdb_pqcap_reader.Base.{
  [], ◌∷◌, length, length-drop, length-take, All-take, All, All-drop, ok, take, drop,
}
use duckdb_pqcap_reader.Words.{Bytes, IsByte, le_value}
use duckdb_pqcap_reader.Words.Value.{join_two, join_four, join_words, le_value-lt_pow}
use duckdb_pqcap_reader.Words.Equality.{same_bytes}
use duckdb_pqcap_reader.Footer.{read_u16_le, read_u32_le, read_u64_le, memcmp_eq}

pub read_u16_le_lem :
    (p : Bytes) → 2 ≤ length p → All IsByte p → read_u16_le p ≡ ok (le_value (take 2 p))
unfolding read_u16_le
read_u16_le_lem [] h bytes = absurd (omega arith)
read_u16_le_lem (a ∷ []) h bytes = absurd (omega arith)
read_u16_le_lem (a ∷ b ∷ p) h (ha, (hb, _)) = rw (join_two a b ha) (ap ok (omega arith))

pub read_u32_le_lem :
    (p : Bytes) → 4 ≤ length p → All IsByte p → read_u32_le p ≡ ok (le_value (take 4 p))
unfolding read_u32_le
read_u32_le_lem [] h bytes = absurd (omega arith)
read_u32_le_lem (a ∷ []) h bytes = absurd (omega arith)
read_u32_le_lem (a ∷ b ∷ []) h bytes = absurd (omega arith)
read_u32_le_lem (a ∷ b ∷ c ∷ []) h bytes = absurd (omega arith)
read_u32_le_lem (a ∷ b ∷ c ∷ d ∷ p) h (ha, (hb, (hc, (hd, _)))) =
    rw (join_four a b c d ha hb hc) (ap ok (omega arith))

le_value_8 :
    (p : Bytes)
    → 8 ≤ length p
    → le_value (take 8 p) ≡ le_value (take 4 p) + 4294967296 * le_value (take 4 (drop 4 p))
le_value_8 [] h = absurd (omega arith)
le_value_8 (a ∷ []) h = absurd (omega arith)
le_value_8 (a ∷ b ∷ []) h = absurd (omega arith)
le_value_8 (a ∷ b ∷ c ∷ []) h = absurd (omega arith)
le_value_8 (a ∷ b ∷ c ∷ d ∷ []) h = absurd (omega arith)
le_value_8 (a ∷ b ∷ c ∷ d ∷ e ∷ []) h = absurd (omega arith)
le_value_8 (a ∷ b ∷ c ∷ d ∷ e ∷ f ∷ []) h = absurd (omega arith)
le_value_8 (a ∷ b ∷ c ∷ d ∷ e ∷ f ∷ g ∷ []) h = absurd (omega arith)
le_value_8 (a ∷ b ∷ c ∷ d ∷ e ∷ f ∷ g ∷ i ∷ p) h = omega arith

pub read_u64_le_lem :
    (p : Bytes) → 8 ≤ length p → All IsByte p → read_u64_le p ≡ ok (le_value (take 8 p))
unfolding read_u64_le
read_u64_le_lem p h bytes =
    rw
      (
        read_u32_le_lem p (omega arith) bytes,
        read_u32_le_lem (drop 4 p) (omega (arith, length-drop 4 p)) (All-drop IsByte 4 p bytes),
        join_words _ (le_value (take 4 (drop 4 p))) (
            le_value-lt_pow (take 4 p) 4 (length-take 4 p (omega arith))
              (All-take IsByte 4 p bytes)),
      )
      (ap ok (omega (arith, le_value_8 p h)))

pub memcmp_eq_lem :
    (n : ℕ) (p q : Bytes)
    → n ≤ length p
    → n ≡ length q
    → memcmp_eq n p q ≡ ok (same_bytes (take n p) q)
unfolding memcmp_eq
memcmp_eq_lem zero p [] hp hq = refl
memcmp_eq_lem zero p (b ∷ q) hp hq = absurd (omega arith)
memcmp_eq_lem (suc n) [] q hp hq = absurd (omega arith)
memcmp_eq_lem (suc n) (a ∷ p) [] hp hq = absurd (omega arith)
memcmp_eq_lem (suc n) (a ∷ p) (b ∷ q) hp hq = rw (memcmp_eq_lem n p q (omega arith) (omega arith))
