-- ===== src/Words/Bits.antt =====
-- `|` and `&` on numbers of any width as arithmetic, from the digit recursion that they stand for.
use Prim.Native.Nat.{ℕ, zero, suc, ◌+◌, ◌*◌, ◌/◌, ◌%◌, ◌^◌, ◌≤◌, ◌<◌, min, max}
use Prim.Native.Nat.{bit_and, bit_or, digits, bit_and-bitwise, bit_or-bitwise}
use mathlib.Core.Path.{◌≡◌, refl, ap}
use native.Mathlib.Nat.{pow-suc}
use native.Mathlib.Omega.{arith}

-- The recursion on a pair of numbers: at 0 it returns `end b`, and else it joins a pair of digits.
module _ (end : ℕ → ℕ) (join : ℕ → ℕ → ℕ) where
  digits_at_zero : (fuel b : ℕ) → digits end join fuel 0 b ≡ end b
  digits_at_zero zero b = refl
  digits_at_zero (suc fuel) b = refl

  digits_enough :
      (a fuel more b : ℕ)
      → a ≤ fuel
      → a ≤ more
      → digits end join fuel a b ≡ digits end join more a b
  digits_enough zero fuel more b p q = rw (digits_at_zero fuel b, digits_at_zero more b)
  digits_enough (suc a) zero more b p q = absurd (omega arith)
  digits_enough (suc a) (suc fuel) zero b p q = absurd (omega arith)
  digits_enough (suc a) (suc fuel) (suc more) b p q =
      let half = suc a / 2 in
      omega (arith, digits_enough half fuel more (b / 2) (omega arith) (omega arith))

  digits_step :
      (a b : ℕ)
      → let half = suc a / 2 in
        digits end join (suc a) (suc a) b
        ≡ digits end join half half (b / 2) * 2 + join (suc a % 2) (b % 2)
  digits_step a b =
      let half = suc a / 2 in
      omega (arith, digits_enough half a half (b / 2) (omega arith) (omega arith))

-- Each digit of a conjunction is the smaller one, each digit of a disjunction the larger one.
bit_and_step : (a b : ℕ) → bit_and a b ≡ min (a % 2) (b % 2) + 2 * bit_and (a / 2) (b / 2)
bit_and_step zero b = omega (arith, bit_and-bitwise 0 b, bit_and-bitwise 0 (b / 2))
bit_and_step (suc a) b =
    let half = suc a / 2 in
    omega (
      arith,
      bit_and-bitwise (suc a) b,
      digits_step (λ t. zero) min a b,
      bit_and-bitwise half (b / 2),
    )

bit_or_step : (a b : ℕ) → bit_or a b ≡ max (a % 2) (b % 2) + 2 * bit_or (a / 2) (b / 2)
bit_or_step zero b = omega (arith, bit_or-bitwise 0 b, bit_or-bitwise 0 (b / 2))
bit_or_step (suc a) b =
    let half = suc a / 2 in
    omega
      (arith, bit_or-bitwise (suc a) b, digits_step (λ t. t) max a b, bit_or-bitwise half (b / 2))

zero-bit_or : (b : ℕ) → bit_or 0 b ≡ b
zero-bit_or b = bit_or-bitwise 0 b

-- Both operations with 0 on the right, by induction on a bound of the left side.
at_zero : (bound a : ℕ) → a ≤ bound → (bit_and a 0 ≡ 0) × (bit_or a 0 ≡ a)
at_zero bound zero h = (bit_and-bitwise 0 0, bit_or-bitwise 0 0)
at_zero zero (suc a) h = absurd (omega arith)
at_zero (suc bound) (suc a) h =
    let (conj, disj) = at_zero bound (suc a / 2) (omega arith) in
    (omega (arith, conj, bit_and_step (suc a) 0), omega (arith, disj, bit_or_step (suc a) 0))

bit_and-zero : (a : ℕ) → bit_and a 0 ≡ 0
bit_and-zero a = (at_zero a a (omega arith)).0

double_shift : (b k : ℕ) → b * 2 ^ suc k ≡ 2 * (b * 2 ^ k)
double_shift b k = omega (arith, ap (λ (t : ℕ). b * t) (pow-suc 2 k))

-- Numbers with no digit in common: `|` is their sum.
pub bit_or_disjoint : (k a b : ℕ) → a < 2 ^ k → bit_or a (b * 2 ^ k) ≡ a + b * 2 ^ k
bit_or_disjoint zero a b h =
    let e : a ≡ 0 = omega arith in rw e (omega (arith, zero-bit_or (b * 1)))
bit_or_disjoint (suc k) a b h = rw (double_shift b k) (
    omega (
      arith,
      bit_or_step a (2 * (b * 2 ^ k)),
      ap (bit_or (a / 2)) half,
      bit_or_disjoint k (a / 2) b (omega (arith, pow-suc 2 k)),
    ))
  where
    half : 2 * (b * 2 ^ k) / 2 ≡ b * 2 ^ k
    half = omega arith

pub disjoint_bit_or : (k a b : ℕ) → a < 2 ^ k → bit_or (b * 2 ^ k) a ≡ b * 2 ^ k + a
disjoint_bit_or zero a b h =
    let e : a ≡ 0 = omega arith in rw e (omega (arith, (at_zero (b * 1) (b * 1) (omega arith)).1))
disjoint_bit_or (suc k) a b h = rw (double_shift b k) (
    omega (
      arith,
      bit_or_step (2 * (b * 2 ^ k)) a,
      ap (λ (t : ℕ). bit_or t (a / 2)) half,
      disjoint_bit_or k (a / 2) b (omega (arith, pow-suc 2 k)),
    ))
  where
    half : 2 * (b * 2 ^ k) / 2 ≡ b * 2 ^ k
    half = omega arith

bit_and-three : (a : ℕ) → bit_and a 0x3 ≡ a % 4
bit_and-three a = omega (arith, bit_and-zero (a / 2 / 2), bit_and_step (a / 2) 1, bit_and_step a 3)

pub bit_and-nibble : (a : ℕ) → bit_and a 0xf ≡ a % 16
bit_and-nibble a =
    omega (arith, bit_and_step a 15, bit_and_step (a / 2) 7, bit_and-three (a / 2 / 2))

pub bit_and-byte : (a : ℕ) → bit_and a 0xff ≡ a % 256
bit_and-byte a = omega (
  arith,
  bit_and_step a 255,
  bit_and_step (a / 2) 127,
  bit_and_step (a / 2 / 2) 63,
  bit_and_step (a / 2 / 2 / 2) 31,
  bit_and-nibble (a / 2 / 2 / 2 / 2),
)

bit_and_double : (a m : ℕ) → bit_and a (2 * m) ≡ 2 * bit_and (a / 2) m
bit_and_double a m =
    let half : 2 * m / 2 ≡ m = omega arith in
    omega (arith, bit_and_step a (2 * m), ap (bit_and (a / 2)) half)

-- A mask with its last eight digits clear.
pub bit_and_clear : (a m : ℕ) → bit_and a (m * 256) ≡ bit_and (a / 256) m * 256
bit_and_clear a m =
    let twice : m * 256 ≡ 2 * (2 * (2 * (2 * (2 * (2 * (2 * (2 * m))))))) = omega arith in
    let eighth : a / 2 / 2 / 2 / 2 / 2 / 2 / 2 / 2 ≡ a / 256 = omega arith in
    rw (twice, bit_and_double, bit_and_double, bit_and_double, bit_and_double)
      (rw (bit_and_double, bit_and_double, bit_and_double, bit_and_double, eighth) (omega arith))
