-- ===== src/Decimal/Parse.antt =====
-- What `ParseDecimalUint64` of src/pqcap_subfile_fs.cpp accepts, and what it returns.
use duckdb_pqcap_reader.Base.{ℕ, ◌+◌, ◌-◌, ◌*◌, ◌≤◌, ◌≡◌, ◌≢◌, refl, arith, ◌↔◌, ◌∙◌, ap}
use duckdb_pqcap_reader.Base.{[], ◌∷◌, length, All, true, ok, Bool-cases, inl, inr}
use mathlib.Core.List.{cons-ne-nil}
use duckdb_pqcap_reader.Words.{Bytes, IsU64}
use duckdb_pqcap_reader.Decimal.{all_digits, digit_run, parse_decimal_uint64}

abbrev pub IsDigit : ℕ → Type 0
IsDigit c = (48 ≤ c) × (c ≤ 57)

-- The number that digits spell after `n`, with no bound.
abbrev pub value_after : ℕ → Bytes → ℕ
value_after n [] = n
value_after n (c ∷ s) = value_after (n * 10 + (c - 48)) s

pub all_digits_iff : (s : Bytes) → (all_digits s ≡ true) ↔ All IsDigit s
unfolding all_digits
all_digits_iff [] = (λ h. tt, λ h. refl)
all_digits_iff (c ∷ s) = ground (arith, all_digits_iff s)

digit_run_lem :
    (s : Bytes) (n consumed : ℕ)
    → All IsDigit s
    → digit_run s n consumed ≡ (value_after n s, consumed + length s)
unfolding digit_run
digit_run_lem [] n consumed h = ground arith
digit_run_lem (c ∷ s) n consumed (hc, h) =
    ground (arith, digit_run_lem s (n * 10 + (c - 48)) (consumed + 1) h)

-- The decimal number of a text: one or more digits that spell a uint64.
pub record IsDecimal (s : Bytes) (v : ℕ) : Type 0 where
  pub not_empty : s ≢ []
  pub digits : All IsDigit s
  pub spelled : value_after 0 s ≡ v
  pub fits : IsU64 v

parse_value :
    (c : ℕ) (s field path : Bytes)
    → All IsDigit (c ∷ s)
    → IsU64 (value_after 0 (c ∷ s))
    → parse_decimal_uint64 (c ∷ s) field path ≡ ok (value_after 0 (c ∷ s))
unfolding parse_decimal_uint64
parse_value c s field path h fits =
    ground (arith, (all_digits_iff (c ∷ s)).1 h, digit_run_lem (c ∷ s) 0 0 h)

parsed-IsDecimal :
    (s field path : Bytes) (v : ℕ) → parse_decimal_uint64 s field path ≡ ok v → IsDecimal s v
unfolding parse_decimal_uint64
parsed-IsDecimal [] field path v h = cc
parsed-IsDecimal (c ∷ s) field path v h = elim (Bool-cases (all_digits (c ∷ s))) [
  | inr other ↦ absurd (ground (arith, other))
  | inl all ↦
      let run = digit_run_lem (c ∷ s) 0 0 ((all_digits_iff (c ∷ s)).0 all) in
      record {
        not_empty = cons-ne-nil c s;
        digits = (all_digits_iff (c ∷ s)).0 all;
        spelled = ground (arith, all, run);
        fits = ground (arith, all, run);
      }
]

-- A field of a pqcap-subfile path is accepted exactly when it is one or more decimal digits that
-- spell a number below 2 ^ 64, and the result is that number.
pub parse_decimal_uint64_iff :
    (s field path : Bytes) (v : ℕ) → (parse_decimal_uint64 s field path ≡ ok v) ↔ IsDecimal s v
parse_decimal_uint64_iff s field path v = (parsed-IsDecimal s field path v, parsed s)
  where
    parsed : (t : Bytes) → IsDecimal t v → parse_decimal_uint64 t field path ≡ ok v
    parsed [] d = absurd (d.not_empty refl)
    parsed (c ∷ t) d =
        parse_value c t field path d.digits (ground (arith, d.spelled, d.fits)) ∙ ap ok d.spelled
