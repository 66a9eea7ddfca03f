-- ===== src/Base/Outcome.antt =====
-- How a call of the C++ code ends: with a value, with an exception, or with undefined behaviour.
use Prim.Native.String.{String}
use mathlib.Core.Path.{◌≡◌, refl, subst}
use mathlib.Core.List.{List}
use Prim.Native.Nat.{ℕ}
use mathlib.Core.Bool.{Bool, true, false}
use duckdb_pqcap_reader.Base.Tests.{if◌then◌else◌}

-- The exception classes that the code throws. The text is the message with `%s` where a run-time
-- text stands, and the lists are those texts in order.
pub data Exception : Type 0 where
  io_exception : String → List (List ℕ) → Exception
  invalid_input_exception : String → List (List ℕ) → Exception
  binder_exception : String → List (List ℕ) → Exception

-- `fault` is no C++ value: a read outside of the bytes that a pointer was given for.
pub data Result {ℓ} (A : Type ℓ) : Type ℓ where
  ok : A → Result A
  throw : Exception → Result A
  fault : Result A

infixl 5 ◌>>=◌
abbrev pub ◌>>=◌ {α β} : {B : Type β} {A : Type α} → Result A → (A → Result B) → Result B
ok value >>= rest = rest value
throw e >>= rest = throw e
fault >>= rest = fault

infixl 5 ◌>>◌
abbrev pub ◌>>◌ {β} : {B : Type β} → Result (Unit {0}) → Result B → Result B
call >> rest = call >>= λ done. rest

-- A call followed by the rest succeeds only if both do.
pub >>=-eq-ok {α β} :
    {B : Type β} {A : Type α} (call : Result A) (rest : A → Result B) {answer : B}
    → (call >>= rest) ≡ ok answer
    → (value : A) × (call ≡ ok value) × (rest value ≡ ok answer)
>>=-eq-ok (ok value) rest h = (value, refl, h)
>>=-eq-ok (throw e) rest h = cc
>>=-eq-ok fault rest h = cc

pub ok-injective {ℓ} : {A : Type ℓ} {a b : A} → ok a ≡ ok b → a ≡ b
ok-injective h = cc

-- Total correctness: the call ends with a value, and the value has the property.
pub data Returns {ℓ} {A : Type ℓ} (P : A → Type 0) : Result A → Type ℓ where
  returns : {a : A} → P a → Returns P (ok a)

pub Returns->>= {ℓ κ} :
    {A : Type ℓ} {B : Type κ} {Q : A → Type 0} {P : B → Type 0} {m : Result A} {f : A → Result B}
    → Returns Q m
    → ((a : A) → Q a → Returns P (f a))
    → Returns P (m >>= f)
Returns->>= (returns {a} q) k = k a q

pub Returns-if {ℓ} :
    {A : Type ℓ} {P : A → Type 0} (b : Bool) {x y : Result A}
    → (b ≡ true → Returns P x)
    → (b ≡ false → Returns P y)
    → Returns P (if b then x else y)
Returns-if true h k = h refl
Returns-if false h k = k refl

pub Returns-eq-ok {ℓ} :
    {A : Type ℓ} {P : A → Type 0} {r : Result A} → Returns P r → (a : A) × (r ≡ ok a) × P a
Returns-eq-ok (returns {a} h) = (a, refl, h)

-- Partial correctness: if the call ends with a value, then the value has the property.
pub data Ensures {ℓ} {A : Type ℓ} (P : A → Type 0) : Result A → Type ℓ where
  ensured : {a : A} → P a → Ensures P (ok a)
  threw : {e : Exception} → Ensures P (throw e)
  faulted : Ensures P fault

pub Ensures->>= {ℓ κ} :
    {A : Type ℓ} {B : Type κ} {P : A → Type 0} {Q : B → Type 0} {m : Result A} {f : A → Result B}
    → Ensures P m
    → ((a : A) → P a → Ensures Q (f a))
    → Ensures Q (m >>= f)
Ensures->>= (ensured {a} p) k = k a p
Ensures->>= threw k = threw
Ensures->>= faulted k = faulted

pub Ensures-if {ℓ} :
    {A : Type ℓ} {P : A → Type 0} (b : Bool) {x y : Result A}
    → (b ≡ true → Ensures P x)
    → (b ≡ false → Ensures P y)
    → Ensures P (if b then x else y)
Ensures-if true h k = h refl
Ensures-if false h k = k refl

pub Ensures-map {ℓ} :
    {A : Type ℓ} {P Q : A → Type 0} {m : Result A}
    → ((a : A) → P a → Q a)
    → Ensures P m
    → Ensures Q m
Ensures-map k (ensured {a} p) = ensured (k a p)
Ensures-map k threw = threw
Ensures-map k faulted = faulted

-- What is always true of a value.
pub Ensures-all {ℓ} : {A : Type ℓ} {P : A → Type 0} → ((a : A) → P a) → (m : Result A) → Ensures P m
Ensures-all h (ok a) = ensured (h a)
Ensures-all h (throw e) = threw
Ensures-all h fault = faulted

pub Ensures-eq : {A : Type 0} (m : Result A) → Ensures (λ a. m ≡ ok a) m
Ensures-eq (ok a) = ensured refl
Ensures-eq (throw e) = threw
Ensures-eq fault = faulted

ensured_value {ℓ} : {A : Type ℓ} {P : A → Type 0} {a : A} → Ensures P (ok a) → P a
ensured_value (ensured p) = p

pub Ensures-eq-ok {ℓ} :
    {A : Type ℓ} {P : A → Type 0} {r : Result A} {a : A} → Ensures P r → r ≡ ok a → P a
Ensures-eq-ok {P = P} h e = ensured_value (subst (Ensures P) e h)

-- The call ends with a value or an exception.
pub data Defined {ℓ} {A : Type ℓ} : Result A → Type ℓ where
  with_value : {a : A} → Defined (ok a)
  with_exception : {e : Exception} → Defined (throw e)

pub Defined->>= {ℓ κ} :
    {A : Type ℓ} {B : Type κ} {m : Result A} {f : A → Result B}
    → Defined m
    → ((a : A) → Defined (f a))
    → Defined (m >>= f)
Defined->>= (with_value {a}) k = k a
Defined->>= with_exception k = with_exception

pub Defined-if {ℓ} :
    {A : Type ℓ} (b : Bool) {x y : Result A} → Defined x → Defined y → Defined (if b then x else y)
Defined-if true h k = h
Defined-if false h k = k
