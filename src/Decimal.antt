-- ===== src/Decimal.antt =====
-- Decimal text: `std::to_string` and `std::stoull` of the C++ library, as
-- src/pqcap_reader_extension.cpp and src/pqcap_subfile_fs.cpp use them, and `ParseDecimalUint64`.
pub mod Format
pub mod Parse
use duckdb_pqcap_reader.Base.{
  ℕ, zero, suc, ◌+◌, ◌-◌, ◌*◌, ◌/◌, ◌%◌, ◌^◌, [], ◌∷◌, length, Bool, true,
}
use duckdb_pqcap_reader.Base.{ltb, leb, ◌==◌, ◌||◌, ◌&&◌, not, if◌then◌else◌, false}
use duckdb_pqcap_reader.Base.{Result, ok, throw, io_exception, ◌>>=◌}
use duckdb_pqcap_reader.Words.{Bytes}

-- The digits of `n` in front of `out`, on fuel.
digits_onto : ℕ → ℕ → Bytes → Bytes
digits_onto zero n out = out
digits_onto (suc fuel) n out =
    let digit = 48 + n % 10 in
    let rest = digits_onto fuel (n / 10) (digit ∷ out) in if n / 10 == 0 then digit ∷ out else rest

-- A uint64 has at most 20 digits.
unfoldable pub to_string : ℕ → Bytes
unfolding digits_onto
to_string n = digits_onto 20 n []

-- `c < '0' || c > '9'`, negated
abbrev pub is_digit : ℕ → Bool
is_digit c = not (ltb c 48 || ltb 57 c)

unfoldable pub all_digits : Bytes → Bool
all_digits [] = true
all_digits (c ∷ s) = is_digit c && all_digits s

pub data Stoull : Type 0 where
  converted : ℕ → ℕ → Stoull
  out_of_range : Stoull
  invalid_argument : Stoull

-- The longest run of digits: how many, and the number that they spell after `n`.
digit_run : Bytes → ℕ → ℕ → ℕ × ℕ
digit_run [] n consumed = (n, consumed)
digit_run (c ∷ s) n consumed =
    let more = digit_run s (n * 10 + (c - 48)) (consumed + 1) in
    if is_digit c then more else (n, consumed)

-- `std::stoull(s, &consumed, 10)` on a text that does not begin with a space or a sign: the code
-- calls it on digits only.
stoull : Bytes → Stoull
unfolding digit_run
stoull s =
    let (n, consumed) = digit_run s 0 0 in
    if consumed == 0
    then invalid_argument
    else if ltb n (2 ^ 64)
    then converted n consumed
    else out_of_range

unfoldable pub parse_decimal_uint64 : Bytes → Bytes → Bytes → Result ℕ
unfolding all_digits stoull
parse_decimal_uint64 s field path =
    if length s == 0
    then throw (io_exception "malformed pqcap-subfile path (empty %s): %s" (field ∷ path ∷ []))
    else if not (all_digits s)
    then throw
        (io_exception "malformed pqcap-subfile path (non-digit in %s): %s" (field ∷ path ∷ []))
    else elim (stoull s) [
      | converted v consumed ↦
          if not (consumed == length s)
          then throw (
              io_exception "malformed pqcap-subfile path (trailing chars in %s): %s"
                (field ∷ path ∷ []))
          else ok v
      | out_of_range ↦
          throw (
            io_exception "malformed pqcap-subfile path (%s exceeds uint64): %s" (field ∷ path ∷ []))
      | invalid_argument ↦
          throw (
            io_exception "malformed pqcap-subfile path (could not parse %s): %s"
              (field ∷ path ∷ []))
    ]
