-- ===== src/Decimal/Format.antt =====
-- `std::to_string` writes the digits of the number.
use duckdb_pqcap_reader.Base.{ℕ, zero, suc, ◌+◌, ◌/◌, ◌%◌, ◌^◌, ◌<◌, ◌≡◌, ◌≢◌, arith}
use duckdb_pqcap_reader.Base.{[], ◌∷◌, All}
use native.Mathlib.Nat.{pow-suc}
use duckdb_pqcap_reader.Words.{Bytes, IsU64}
use duckdb_pqcap_reader.Decimal.{digits_onto, to_string}
use duckdb_pqcap_reader.Decimal.Parse.{IsDigit, value_after, IsDecimal}

-- Reading what was written and then `out` is reading `out` after the number.
value_after-digits_onto :
    (fuel n : ℕ) (out : Bytes)
    → n < 10 ^ suc fuel
    → value_after 0 (digits_onto (suc fuel) n out) ≡ value_after n out
unfolding digits_onto
value_after-digits_onto zero n out h = ground arith
value_after-digits_onto (suc fuel) n out h = ground (
  arith,
  value_after-digits_onto fuel (n / 10) ((48 + n % 10) ∷ out)
      (omega (arith, pow-suc 10 (suc fuel))),
)

digits_onto-IsDigit :
    (fuel n : ℕ) (out : Bytes) → All IsDigit out → All IsDigit (digits_onto fuel n out)
unfolding digits_onto
digits_onto-IsDigit zero n out h = h
digits_onto-IsDigit (suc fuel) n out h =
    ground (arith, digits_onto-IsDigit fuel (n / 10) ((48 + n % 10) ∷ out))

digits_onto-ne-nil : (fuel n : ℕ) (out : Bytes) → digits_onto (suc fuel) n out ≢ []
unfolding digits_onto
digits_onto-ne-nil zero n out h = ground arith
digits_onto-ne-nil (suc fuel) n out h =
    ground (arith, digits_onto-ne-nil fuel (n / 10) ((48 + n % 10) ∷ out))

-- Every uint64 is written as a decimal number that spells it.
pub to_string-IsDecimal : (n : ℕ) → IsU64 n → IsDecimal (to_string n) n
unfolding to_string
to_string-IsDecimal n h = record {
  not_empty = digits_onto-ne-nil 19 n [];
  digits = digits_onto-IsDigit 20 n [] tt;
  spelled = value_after-digits_onto 19 n [] (omega arith);
  fits = h;
}
