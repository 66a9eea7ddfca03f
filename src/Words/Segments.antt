-- ===== src/Words/Segments.antt =====
-- Reads at a position in bytes that are put together from parts.
use duckdb_pqcap_reader.Base.{ℕ, zero, suc, ◌+◌, ◌≤◌, ◌≡◌, refl, ap, arith}
use duckdb_pqcap_reader.Base.{[], ◌∷◌, ◌++◌, length, All, All-take, All-drop}
use duckdb_pqcap_reader.Base.{drop, length-take, length-drop}
use duckdb_pqcap_reader.Base.{take-append, drop-append}
use duckdb_pqcap_reader.Words.{Bytes, IsByte, byte_at, slice}

pub byte_at-drop : (p : Bytes) (i j : ℕ) → byte_at p (i + j) ≡ byte_at (drop i p) j
byte_at-drop p zero j = let e : zero + j ≡ j = omega arith in rw e refl
byte_at-drop [] (suc i) j = refl
byte_at-drop (b ∷ p) (suc i) j =
    let e : suc i + j ≡ suc (i + j) = omega arith in rw e (byte_at-drop p i j)

pub length-slice : (i n : ℕ) (p : Bytes) → i + n ≤ length p → length (slice i n p) ≡ n
length-slice i n p h = length-take n (drop i p) (omega (arith, length-drop i p))

pub slice-IsByte : (i n : ℕ) (p : Bytes) → All IsByte p → All IsByte (slice i n p)
slice-IsByte i n p h = All-take IsByte n (drop i p) (All-drop IsByte i p h)

-- The part in the middle is what stands at its position.
pub slice_middle :
    (front part back : Bytes) (i n : ℕ)
    → i ≡ length front
    → n ≡ length part
    → slice i n (front ++ (part ++ back)) ≡ part
slice_middle front part back i n hi hn =
    rw (drop-append front (part ++ back) i hi) (take-append part back n hn)

-- A slice of the first part.
pub slice-append_left :
    (p q : Bytes) (i n : ℕ) → i + n ≤ length p → slice i n (p ++ q) ≡ slice i n p
slice-append_left p q zero zero h = refl
slice-append_left [] q zero (suc n) h = absurd (omega arith)
slice-append_left (b ∷ p) q zero (suc n) h =
    ap (λ t. b ∷ t) (slice-append_left p q zero n (omega arith))
slice-append_left [] q (suc i) zero h = absurd (omega arith)
slice-append_left [] q (suc i) (suc n) h = absurd (omega arith)
slice-append_left (b ∷ p) q (suc i) n h = slice-append_left p q i n (omega arith)
