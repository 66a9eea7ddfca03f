-- ===== src/Location/Rows.antt =====
-- `StringScalarLoop` of src/pqcap_reader_extension.cpp against the rows of its chunk.
use duckdb_pqcap_reader.Base.{
  List, [], ◌∷◌, Option, none, some, ◌≡◌, ◌↔◌, refl, Result, ok, >>=-eq-ok, ok-injective,
}
use mathlib.Core.Path.{subst}
use duckdb_pqcap_reader.Words.{Bytes}
use duckdb_pqcap_reader.Location.{string_scalar_loop}

-- Every row has a path, and its value is what the body returns for it.
abbrev pub Answers : (Bytes → Result Bytes) → List (Option Bytes) → List Bytes → Type 0
Answers body [] [] = Unit
Answers body [] (value ∷ values) = ⊥
Answers body (row ∷ rows) [] = ⊥
Answers body (none ∷ rows) (value ∷ values) = ⊥
Answers body (some path ∷ rows) (value ∷ values) = (body path ≡ ok value) × Answers body rows values

module _ (fn : Bytes) (body : Bytes → Result Bytes) where
  answered :
      (rows : List (Option Bytes)) (values : List Bytes)
      → string_scalar_loop fn body rows ≡ ok values
      → Answers body rows values
  unfolding string_scalar_loop
  answered [] [] h = tt
  answered [] (value ∷ values) h = cc
  answered (none ∷ rows) [] h = cc
  answered (none ∷ rows) (value ∷ values) h = cc
  answered (some path ∷ rows) values h =
      let (value, e, more) = >>=-eq-ok (body path) _ h in
      let (rest, f, last) = >>=-eq-ok (string_scalar_loop fn body rows) _ more in
      subst (Answers body (some path ∷ rows)) (ok-injective last) (e, answered rows rest f)

  answers :
      (rows : List (Option Bytes)) (values : List Bytes)
      → Answers body rows values
      → string_scalar_loop fn body rows ≡ ok values
  unfolding string_scalar_loop
  answers [] [] h = refl
  answers [] (value ∷ values) h = absurd h
  answers (none ∷ rows) [] h = absurd h
  answers (none ∷ rows) (value ∷ values) h = absurd h
  answers (some path ∷ rows) [] h = absurd h
  answers (some path ∷ rows) (value ∷ values) (e, h) = rw (e, answers rows values h)

  -- The loop succeeds exactly when no row is NULL and the body succeeds on every row, and its
  -- values are those of the rows in their order.
  pub string_scalar_loop_iff :
      (rows : List (Option Bytes)) (values : List Bytes)
      → (string_scalar_loop fn body rows ≡ ok values) ↔ Answers body rows values
  string_scalar_loop_iff rows values = (answered rows values, answers rows values)
