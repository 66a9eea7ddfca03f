-- ===== src/Embed/Writes.antt =====
-- The little-endian writers append the bytes of the number.
use duckdb_pqcap_reader.Base.{ℕ, zero, suc, ◌+◌, ◌/◌, ◌%◌, ◌≤◌, ◌≡◌, refl, ap, ◌∙◌, arith}
use duckdb_pqcap_reader.Base.{
  [], ◌∷◌, ◌++◌, append_assoc, append-nil, length, length-append, replicate, sym, ◌==◌, ◌-◌, false,
  Bool-cases, inl, inr, eq_of_==,
}
use duckdb_pqcap_reader.Words.{Bytes, le_bytes}
use duckdb_pqcap_reader.Words.Bits.{bit_and-byte}
use duckdb_pqcap_reader.Embed.{push_low_byte, write_le16, write_le32, write_le64, pad_body}

push_low_byte_lem : (buf : Bytes) (v : ℕ) → push_low_byte buf v ≡ buf ++ (v % 256) ∷ []
push_low_byte_lem buf v = ap (λ (t : ℕ). buf ++ t ∷ []) (omega (arith, bit_and-byte v))

pub write_le16-append : (buf : Bytes) (v : ℕ) → write_le16 buf v ≡ buf ++ le_bytes 2 v
unfolding write_le16
write_le16-append buf v = simp (push_low_byte_lem, append_assoc)

pub write_le32-append : (buf : Bytes) (v : ℕ) → write_le32 buf v ≡ buf ++ le_bytes 4 v
unfolding write_le32
write_le32-append buf v =
    let second : v / 65536 ≡ v / 256 / 256 = omega arith in
    let third : v / 16777216 ≡ v / 256 / 256 / 256 = omega arith in
    simp (push_low_byte_lem, append_assoc, second, third)

pub write_le64-append : (buf : Bytes) (v : ℕ) → write_le64 buf v ≡ buf ++ le_bytes 8 v
unfolding write_le64
write_le64-append buf v =
    let b0 : v / 1 ≡ v = omega arith in
    let b2 : v / 65536 ≡ v / 256 / 256 = omega arith in
    let b3 : v / 16777216 ≡ v / 256 / 256 / 256 = omega arith in
    let b4 : v / 4294967296 ≡ v / 256 / 256 / 256 / 256 = omega arith in
    let b5 : v / 1099511627776 ≡ v / 256 / 256 / 256 / 256 / 256 = omega arith in
    let b6 : v / 281474976710656 ≡ v / 256 / 256 / 256 / 256 / 256 / 256 = omega arith in
    let b7 : v / 72057594037927936 ≡ v / 256 / 256 / 256 / 256 / 256 / 256 / 256 = omega arith in
    simp (push_low_byte_lem, append_assoc, b0, b2, b3, b4, b5, b6, b7)

-- How many zeros fill up the last word.
abbrev pub pad_count : ℕ → ℕ
pad_count n = (4 - n % 4) % 4

pad_done :
    (body : Bytes) → length body % 4 ≡ 0 → body ≡ body ++ replicate (pad_count (length body)) 0
pad_done body h =
    let none_left : pad_count (length body) ≡ 0 = omega arith in
    rw none_left (sym (append-nil body))

pad_more :
    (body : Bytes) (n : ℕ)
    → n ≡ length body
    → (n % 4 == 0) ≡ false
    → (body ++ 0 ∷ []) ++ replicate (pad_count (length (body ++ 0 ∷ []))) 0
      ≡ body ++ replicate (pad_count n) 0
pad_more body n e h =
    let longer : pad_count (length (body ++ 0 ∷ [])) ≡ pad_count (n + 1) =
      ap pad_count (omega (arith, length-append body (0 ∷ []))) in
    let more : pad_count n ≡ suc (pad_count (n + 1)) = ground arith in
    rw (longer, more, append_assoc)

pad_body-fuel :
    (fuel : ℕ) (body : Bytes)
    → pad_count (length body) ≤ fuel
    → pad_body fuel body ≡ body ++ replicate (pad_count (length body)) 0
unfolding pad_body
pad_body-fuel zero body h = pad_done body (omega arith)
pad_body-fuel (suc fuel) body h = elim (Bool-cases (length body % 4 == 0)) [
  | inl full ↦ rw full (pad_done body (eq_of_== _ 0 full))
  | inr more ↦ rw more (
      pad_body-fuel fuel (body ++ 0 ∷ []) (ground (arith, length-append body (0 ∷ [])))
      ∙ pad_more body (length body) refl more)
]

-- The loop ends within its fuel: it appends 0 to 3 zeros and leaves whole words.
pub pad_body-append :
    (body : Bytes) → pad_body 4 body ≡ body ++ replicate (pad_count (length body)) 0
pad_body-append body = pad_body-fuel 4 body (omega arith)
