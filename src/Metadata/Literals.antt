-- ===== src/Metadata/Literals.antt =====
-- A reader of the values of an INSERT that src/pqcap_copy_function.cpp writes: a value in quotes, where
-- two quotes stand for one, or a bare word up to the next comma or parenthesis. The query is a C string,
-- so a NUL byte ends its text. That the text is valid UTF-8 is not looked at.
use duckdb_pqcap_reader.Base.{
  ℕ, ◌≡◌, ◌≢◌, arith, [], ◌∷◌, ◌++◌, append_assoc, Option, none, some, Bool, ◌==◌, ◌||◌, true,
  false, if◌then◌else◌, Bool-cases, inl, inr, eq_of_==, All,
}
use duckdb_pqcap_reader.Words.{Bytes, codes}
use duckdb_pqcap_reader.Metadata.{sql_escape}

pub data Value : Type 0 where
  quoted : Bytes → Value
  bare : Bytes → Value

abbrev pub in_front : ℕ → Option (Bytes × Bytes) → Option (Bytes × Bytes)
in_front c none = none
in_front c (some (s, rest)) = some (c ∷ s, rest)

-- Behind the opening quote, or behind a quote in the text: the text, and what follows the closing
-- quote.
unfoldable pub read_quoted : Bool → Bytes → Option (Bytes × Bytes)
read_quoted true [] = some ([], [])
read_quoted false [] = none
read_quoted behind_quote (c ∷ s) =
    let next = in_front c (read_quoted false s) in
    let held = read_quoted true s in
    if behind_quote
    then if c == 39 then next else some ([], c ∷ s)
    else if c == 39
    then held
    else if c == 0
    then none
    else next

abbrev pub ends_word : ℕ → Bool
ends_word c = c == b',' || c == b')'

unfoldable pub read_bare : Bytes → Option (Bytes × Bytes)
read_bare [] = none
read_bare (c ∷ s) =
    let longer = in_front c (read_bare s) in if ends_word c then some ([], c ∷ s) else longer

unfoldable pub read_value : Bytes → Option (Value × Bytes)
read_value [] = none
read_value (c ∷ s) =
    if c == 39
    then elim (read_quoted false s) [ none ↦ none | some (text, rest) ↦ some (quoted text, rest) ]
    else elim (read_bare (c ∷ s)) [ none ↦ none | some (word, rest) ↦ some (bare word, rest) ]

-- What `StringUtil::Replace(s, "'", "''")` does.
pub record Doubles (replace : Bytes → Bytes) : Type 0 where
  pub at_end : replace [] ≡ []
  pub at_quote : (s : Bytes) → replace (39 ∷ s) ≡ 39 ∷ 39 ∷ replace s
  pub at_other : (c : ℕ) (s : Bytes) → c ≢ 39 → replace (c ∷ s) ≡ c ∷ replace s

-- A byte that neither ends a word nor is a quote.
abbrev pub IsWordByte : ℕ → Type 0
IsWordByte c = ends_word c ≡ false

abbrev pub IsWord : Bytes → Type 0
IsWord [] = ⊥
IsWord (c ∷ word) = (c ≢ 39) × All IsWordByte (c ∷ word)

module _ (replace : Bytes → Bytes) (doubles : Doubles replace) where
  -- Whatever quotes a text has, its quoted form is read as this text.
  pub read_quoted-sql_escape :
      (s : Bytes) (d : ℕ) (rest : Bytes)
      → All (λ c. c ≢ 0) s
      → d ≢ 39
      → read_quoted false (sql_escape replace s ++ 39 ∷ d ∷ rest) ≡ some (s, d ∷ rest)
  unfolding sql_escape read_quoted
  read_quoted-sql_escape [] d rest text h =
      let other : (d == 39) ≡ false = ground arith in rw (doubles.at_end) (rw other)
  read_quoted-sql_escape (c ∷ s) d rest (first, text) h = elim (Bool-cases (c == 39)) [
    | inl quote ↦
        let is_quote : c ≡ 39 = eq_of_== c 39 quote in
        rw (is_quote, doubles.at_quote s) (rw (read_quoted-sql_escape s d rest text h))
    | inr other ↦
        let no_quote : c ≢ 39 = ground arith in
        let no_end : (c == 0) ≡ false = ground arith in
        rw (doubles.at_other c s no_quote)
          (rw (other, no_end, read_quoted-sql_escape s d rest text h))
  ]

  -- A value as text.
  abbrev pub value_text : Value → Bytes
  value_text (quoted s) = 39 ∷ sql_escape replace s ++ codes "'"
  value_text (bare word) = word

  abbrev pub IsValue : Value → Type 0
  IsValue (quoted s) = All (λ c. c ≢ 0) s
  IsValue (bare word) = IsWord word

  pub read_bare-append :
      (word : Bytes) (d : ℕ) (rest : Bytes)
      → All IsWordByte word
      → ends_word d ≡ true
      → read_bare (word ++ d ∷ rest) ≡ some (word, d ∷ rest)
  unfolding read_bare
  read_bare-append [] d rest h e = rw e
  read_bare-append (c ∷ word) d rest (hc, h) e = rw (hc, read_bare-append word d rest h e)

  -- A value is read back from its text, up to the comma or the parenthesis behind it.
  pub read_value-value_text :
      (v : Value) (d : ℕ) (rest : Bytes)
      → IsValue v
      → ends_word d ≡ true
      → read_value (value_text v ++ d ∷ rest) ≡ some (v, d ∷ rest)
  unfolding read_value
  read_value-value_text (quoted s) d rest v e =
      let other : d ≢ 39 = ground arith in
      let read = read_quoted-sql_escape s d rest v other in
      rw (append_assoc (sql_escape replace s) (39 ∷ []) (d ∷ rest), read)
  read_value-value_text (bare []) d rest v e = absurd v
  read_value-value_text (bare (c ∷ word)) d rest (first, h) e =
      let word_byte : (c == 39) ≡ false = ground arith in
      rw (word_byte, read_bare-append (c ∷ word) d rest h e)
