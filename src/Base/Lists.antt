-- ===== src/Base/Lists.antt =====
-- Lists measured and cut by native numbers, and the predicate that holds of every element.
use Prim.Native.Nat.{ℕ, zero, suc, ◌+◌, ◌-◌, ◌≤◌, min}
use mathlib.Core.Path.{◌≡◌, refl, ap, sym}
use mathlib.Core.List.{List, [], ◌∷◌, ◌++◌}
use native.Mathlib.Omega.{arith}

module _ {ℓ} {A : Type ℓ} where
  abbrev pub length : List A → ℕ
  length [] = 0
  length (x ∷ xs) = suc (length xs)

  abbrev pub take : ℕ → List A → List A
  take zero xs = []
  take (suc n) [] = []
  take (suc n) (x ∷ xs) = x ∷ take n xs

  abbrev pub drop : ℕ → List A → List A
  drop zero xs = xs
  drop (suc n) [] = []
  drop (suc n) (x ∷ xs) = drop n xs

  abbrev pub replicate : ℕ → A → List A
  replicate zero a = []
  replicate (suc n) a = a ∷ replicate n a

  abbrev pub All {κ} : (A → Type κ) → List A → Type κ
  All P [] = Unit {κ}
  All P (x ∷ xs) = P x × All P xs

  pub length-append : (xs ys : List A) → length (xs ++ ys) ≡ length xs + length ys
  length-append [] ys = omega arith
  length-append (x ∷ xs) ys = omega (arith, length-append xs ys)

module _ {ℓ} {A : Type ℓ} where
  pub length-take : (n : ℕ) (xs : List A) → n ≤ length xs → length (take n xs) ≡ n
  length-take zero xs h = refl
  length-take (suc n) [] h = absurd (omega arith)
  length-take (suc n) (x ∷ xs) h = ap suc (length-take n xs (omega arith))

  pub length-take-min : (n : ℕ) (xs : List A) → length (take n xs) ≡ min n (length xs)
  length-take-min zero xs = omega arith
  length-take-min (suc n) [] = omega arith
  length-take-min (suc n) (x ∷ xs) = omega (arith, length-take-min n xs)

  pub length-take-le : (n : ℕ) (xs : List A) → length (take n xs) ≤ n
  length-take-le zero xs = omega arith
  length-take-le (suc n) [] = omega arith
  length-take-le (suc n) (x ∷ xs) = omega (arith, length-take-le n xs)

  pub length-drop : (n : ℕ) (xs : List A) → length (drop n xs) ≡ length xs - n
  length-drop zero xs = omega arith
  length-drop (suc n) [] = omega arith
  length-drop (suc n) (x ∷ xs) = omega (arith, length-drop n xs)

  pub take-append-drop : (n : ℕ) (xs : List A) → take n xs ++ drop n xs ≡ xs
  take-append-drop zero xs = refl
  take-append-drop (suc n) [] = refl
  take-append-drop (suc n) (x ∷ xs) = ap (λ t. x ∷ t) (take-append-drop n xs)

  -- The length of the first part is a variable, so that the lemmas fit an equation at hand.
  pub drop-append : (xs ys : List A) (n : ℕ) → n ≡ length xs → drop n (xs ++ ys) ≡ ys
  drop-append [] ys zero e = refl
  drop-append [] ys (suc n) e = absurd (omega arith)
  drop-append (x ∷ xs) ys zero e = absurd (omega arith)
  drop-append (x ∷ xs) ys (suc n) e = drop-append xs ys n (omega arith)

  pub take-append : (xs ys : List A) (n : ℕ) → n ≡ length xs → take n (xs ++ ys) ≡ xs
  take-append [] ys zero e = refl
  take-append [] ys (suc n) e = absurd (omega arith)
  take-append (x ∷ xs) ys zero e = absurd (omega arith)
  take-append (x ∷ xs) ys (suc n) e = ap (λ t. x ∷ t) (take-append xs ys n (omega arith))

  pub take-length : (xs : List A) (n : ℕ) → length xs ≤ n → take n xs ≡ xs
  take-length [] zero h = refl
  take-length [] (suc n) h = refl
  take-length (x ∷ xs) zero h = absurd (omega arith)
  take-length (x ∷ xs) (suc n) h = ap (λ t. x ∷ t) (take-length xs n (omega arith))

  pub drop-length : (xs : List A) (n : ℕ) → length xs ≤ n → drop n xs ≡ []
  drop-length [] zero h = refl
  drop-length [] (suc n) h = refl
  drop-length (x ∷ xs) zero h = absurd (omega arith)
  drop-length (x ∷ xs) (suc n) h = drop-length xs n (omega arith)

  drop-nil : (n : ℕ) → drop {A = A} n [] ≡ []
  drop-nil zero = refl
  drop-nil (suc n) = refl

  pub take-nil : (n : ℕ) → take {A = A} n [] ≡ []
  take-nil zero = refl
  take-nil (suc n) = refl

  pub drop-drop : (xs : List A) (n m k : ℕ) → k ≡ n + m → drop n (drop m xs) ≡ drop k xs
  drop-drop [] n m k e = rw (drop-nil m, drop-nil n, drop-nil k)
  drop-drop (x ∷ xs) n zero zero e = let e' : n ≡ 0 = omega arith in rw e' refl
  drop-drop (x ∷ xs) n zero (suc k) e = let e' : n ≡ suc k = omega arith in rw e' refl
  drop-drop (x ∷ xs) n (suc m) zero e = absurd (omega arith)
  drop-drop (x ∷ xs) n (suc m) (suc k) e = drop-drop xs n m k (omega arith)

  -- A cut of a cut.
  pub take-take : (xs : List A) (n m : ℕ) → n ≤ m → take n (take m xs) ≡ take n xs
  take-take xs zero m h = refl
  take-take [] (suc n) zero h = refl
  take-take [] (suc n) (suc m) h = refl
  take-take (x ∷ xs) (suc n) zero h = absurd (omega arith)
  take-take (x ∷ xs) (suc n) (suc m) h = ap (λ t. x ∷ t) (take-take xs n m (omega arith))

  pub take-take-min : (xs : List A) (n m : ℕ) → take n (take m xs) ≡ take (min n m) xs
  take-take-min xs zero m = let e : min 0 m ≡ 0 = omega arith in rw e refl
  take-take-min xs (suc n) zero = let e : min (suc n) 0 ≡ 0 = omega arith in rw e refl
  take-take-min [] (suc n) (suc m) =
      let e : min (suc n) (suc m) ≡ suc (min n m) = omega arith in rw e refl
  take-take-min (x ∷ xs) (suc n) (suc m) =
      let e : min (suc n) (suc m) ≡ suc (min n m) = omega arith in
      rw e (ap (λ t. x ∷ t) (take-take-min xs n m))

  pub drop-take : (xs : List A) (n m : ℕ) → drop n (take m xs) ≡ take (m - n) (drop n xs)
  drop-take xs zero m = let e : m - 0 ≡ m = omega arith in rw e refl
  drop-take [] (suc n) zero = let e : 0 - suc n ≡ 0 = omega arith in rw e refl
  drop-take [] (suc n) (suc m) = sym (take-nil (suc m - suc n))
  drop-take (x ∷ xs) (suc n) zero = let e : 0 - suc n ≡ 0 = omega arith in rw e refl
  drop-take (x ∷ xs) (suc n) (suc m) =
      let e : suc m - suc n ≡ m - n = omega arith in rw e (drop-take xs n m)

  pub append-take-drop :
      (xs : List A) (n m k : ℕ) → k ≡ n + m → take n xs ++ take m (drop n xs) ≡ take k xs
  append-take-drop xs zero m k e = let e' : k ≡ m = omega arith in rw e' refl
  append-take-drop [] (suc n) zero zero e = refl
  append-take-drop [] (suc n) zero (suc k) e = refl
  append-take-drop [] (suc n) (suc m) zero e = refl
  append-take-drop [] (suc n) (suc m) (suc k) e = refl
  append-take-drop (x ∷ xs) (suc n) m zero e = absurd (omega arith)
  append-take-drop (x ∷ xs) (suc n) m (suc k) e =
      ap (λ t. x ∷ t) (append-take-drop xs n m k (omega arith))

module _ {ℓ κ} {A : Type ℓ} (P : A → Type κ) where
  pub All-append : (xs ys : List A) → All P xs → All P ys → All P (xs ++ ys)
  All-append [] ys _ hy = hy
  All-append (x ∷ xs) ys (px, hx) hy = (px, All-append xs ys hx hy)

  pub All-take : (n : ℕ) (xs : List A) → All P xs → All P (take n xs)
  All-take zero xs h = tt
  All-take (suc n) [] h = tt
  All-take (suc n) (x ∷ xs) (px, h) = (px, All-take n xs h)

  pub All-drop : (n : ℕ) (xs : List A) → All P xs → All P (drop n xs)
  All-drop zero xs h = h
  All-drop (suc n) [] h = tt
  All-drop (suc n) (x ∷ xs) (px, h) = All-drop n xs h
