-- ===== src/Extension/Entries.antt =====
-- The entries that the load of the extension, src/pqcap_reader_extension.cpp, is to register, and what
-- DuckDB's parser makes of a macro.
use duckdb_pqcap_reader.Base.{
  ℕ, ◌≡◌, ◌≢◌, leb, ◌==◌, ◌||◌, ◌&&◌, All, List, [], ◌∷◌, ◌++◌, Bool, true, false, Result, ok,
  fault,
}
use duckdb_pqcap_reader.Words.{Bytes, codes}
use duckdb_pqcap_reader.Table.Bind.{varchar, bigint}
use duckdb_pqcap_reader.Extension.{
  CreateMacroInfo, Statement, create_macro, Entry, table_function, copy_function, table_macro,
  scalar_function,
}

-- An entry that is called in a FROM clause with one text.
pub data IsCallable (name : Bytes) : Entry → Type 0 where
  by_function : {pushdown : Bool} → IsCallable name (table_function name (varchar ∷ []) pushdown)
  by_macro :
      {info : CreateMacroInfo}
      → info.name ≡ name
      → info.schema ≡ codes "main"
      → {parameter : Bytes} → info.parameters ≡ parameter ∷ []
      → IsCallable name (table_macro info)

-- Some entry is callable by this name.
pub data HasCallable (name : Bytes) : List Entry → Type 0 where
  here :
      {entry : Entry} {entries : List Entry}
      → IsCallable name entry
      → HasCallable name (entry ∷ entries)
  there :
      {entry : Entry} {entries : List Entry}
      → HasCallable name entries
      → HasCallable name (entry ∷ entries)

pub after :
    {name : Bytes} (before : List Entry) {entries : List Entry}
    → HasCallable name entries
    → HasCallable name (before ++ entries)
after [] h = h
after (entry ∷ before) h = there (after before h)

-- A name of small letters and underscores.
abbrev pub is_name_byte : ℕ → Bool
is_name_byte c = (leb b'a' c && leb c b'z') || c == b'_'

abbrev pub IsName : Bytes → Type 0
IsName [] = ⊥
IsName (c ∷ name) = All (λ b. is_name_byte b ≡ true) (c ∷ name)

-- The definition of a table macro with one parameter.
abbrev pub macro_text : Bytes → Bytes → Bytes → Bytes
macro_text name parameter body =
    10 ∷ codes "CREATE OR REPLACE MACRO "
    ++ (name ++ (b'(' ∷ (parameter ++ (codes ") AS TABLE" ++ (10 ∷ body)))))

-- What the parser returns for a macro: a statement that creates it first, with its name and its first
-- list of parameters, no statement or an exception.
pub record CreatesMacro (name parameter : Bytes) (parsed : Result (List Statement)) : Type 0 where
  pub defined : parsed ≢ fault
  pub first_created :
      (statement : Statement) (statements : List Statement)
      → parsed ≡ ok (statement ∷ statements)
      → (info : CreateMacroInfo) × (statement ≡ create_macro info)
        × (info.name ≡ name)
        × (info.parameters ≡ parameter ∷ [])

-- A parser that reads the definition of a table macro.
abbrev pub ParsesMacros : (Bytes → Result (List Statement)) → Type 0
ParsesMacros parse =
    (name parameter body : Bytes)
    → IsName name
    → IsName parameter
    → CreatesMacro name parameter (parse (macro_text name parameter body))

-- What the extension is to register, in this order: the functions with the type of their one argument,
-- the COPY format with its file extension, and the macro with its one parameter.
abbrev pub extension_entries : List Entry
extension_entries =
    scalar_function (codes "pqcap_offset_size") (varchar ∷ []) varchar
    ∷ table_function (codes "read_pqcap_packets") (varchar ∷ []) false
    ∷ copy_function (codes "pcapng") (codes "pcapng")
    ∷ scalar_function (codes "pqcap_embed_index") (varchar ∷ []) bigint
    ∷ table_macro (record {
      name = codes "read_pqcap";
      parameters = codes "p" ∷ [];
      schema = codes "main";
      internal = true;
    })
    ∷ []
