-- ===== src/Words/Equality.antt =====
-- The comparison of two `std::string`s or byte vectors.
use duckdb_pqcap_reader.Base.{◌≡◌, refl, arith, Bool, true, false, [], ◌∷◌, ◌&&◌, ◌==◌, ◌≢◌}
use duckdb_pqcap_reader.Words.{Bytes}

abbrev pub same_bytes : Bytes → Bytes → Bool
same_bytes [] [] = true
same_bytes [] (b ∷ q) = false
same_bytes (a ∷ p) [] = false
same_bytes (a ∷ p) (b ∷ q) = a == b && same_bytes p q

pub same_bytes→eq : (p q : Bytes) → same_bytes p q ≡ true → p ≡ q
same_bytes→eq [] [] h = refl
same_bytes→eq [] (b ∷ q) h = cc
same_bytes→eq (a ∷ p) [] h = cc
same_bytes→eq (a ∷ p) (b ∷ q) h = ground (arith, same_bytes→eq p q)

pub same_bytes_refl : (p : Bytes) → same_bytes p p ≡ true
same_bytes_refl [] = refl
same_bytes_refl (a ∷ p) = ground (arith, same_bytes_refl p)

pub same_bytes_of_ne : (p q : Bytes) → p ≢ q → same_bytes p q ≡ false
same_bytes_of_ne [] [] h = absurd (h refl)
same_bytes_of_ne [] (b ∷ q) h = refl
same_bytes_of_ne (a ∷ p) [] h = refl
same_bytes_of_ne (a ∷ p) (b ∷ q) h = ground (arith, same_bytes_of_ne p q)
