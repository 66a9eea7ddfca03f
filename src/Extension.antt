-- ===== src/Extension.antt =====
-- src/pqcap_reader_extension.cpp, with the registrations of src/pqcap_packet_table.cpp and
-- src/pqcap_copy_function.cpp: what the extension adds to a database when it is loaded, and the
-- replacement scan, which turns a path in a query into a call. DuckDB's parser and its functions on
-- paths are parameters.
pub mod Entries
pub mod Resolve
mod Runs
use duckdb_pqcap_reader.Base.{
  List, [], ◌∷◌, ◌++◌, Option, none, some, Bool, true, false, if◌then◌else◌,
}
use duckdb_pqcap_reader.Base.{Result, ok, throw, fault, io_exception, Exception}
use duckdb_pqcap_reader.Words.{Bytes, codes}
use duckdb_pqcap_reader.SubFile.{get_name}
use duckdb_pqcap_reader.Table.Bind.{LogicalType, varchar, bigint}

pub record TableFunctionRef : Type 0 where
  pub function_name : Bytes
  pub argument : Bytes
  pub alias : Bytes

pub record CreateMacroInfo : Type 0 where
  pub name : Bytes
  pub parameters : List Bytes
  pub schema : Bytes
  pub internal : Bool

pub data Statement : Type 0 where
  create_macro : CreateMacroInfo → Statement
  other_statement : Statement

-- What is registered: a function with its argument types, and the result's type or whether a
-- projection is pushed down; a copy function with the extension of its files; a macro.
pub data Entry : Type 0 where
  scalar_function : Bytes → List LogicalType → LogicalType → Entry
  table_function : Bytes → List LogicalType → Bool → Entry
  copy_function : Bytes → Bytes → Entry
  table_macro : CreateMacroInfo → Entry

-- What the code calls of DuckDB: `GetFullPath` of a name in a query and the other functions on paths, and
-- what `RegisterFunction` throws for an entry, if it throws.
pub record DuckdbCalls : Type 1 where
  pub Input : Type 0
  pub get_full_path : Input → Bytes
  pub can_replace : Bytes → List Bytes → Bool
  pub has_glob : Bytes → Bool
  pub extract_base_name : Bytes → Bytes
  pub refusal : Entry → Option Exception

abbrev pub read_pqcap_macro : Bytes
read_pqcap_macro =
    10 ∷ codes "CREATE OR REPLACE MACRO read_pqcap(p) AS TABLE"
    ++ 10 ∷ codes "SELECT *"
    ++ 10 ∷ codes "FROM read_parquet('pqcap-subfile://' || pqcap_offset_size(p) || '!' || p);"
    ++ 10 ∷ []

abbrev extension_name : Bytes
extension_name = codes "pqcap_reader"

-- The version that the build defines, if it defines one.
abbrev version : Option Bytes → Bytes
version none = []
version (some v) = v

module _ (duckdb : DuckdbCalls) where
  function_for : Bytes → Option Bytes
  function_for table_name =
      if duckdb.can_replace table_name (codes "pqcap" ∷ codes "pqcapng" ∷ [])
      then some (codes "read_pqcap")
      else if duckdb.can_replace table_name (codes "pcap" ∷ codes "pcapng" ∷ [])
      then some (codes "read_pqcap_packets")
      else none

  unfoldable pub replacement_scan : duckdb.Input → Option TableFunctionRef
  unfolding function_for
  replacement_scan input =
      let table_name = duckdb.get_full_path input in
      elim (function_for table_name) [
        | none ↦ none
        | some function_name ↦ some (record {
          function_name = function_name;
          argument = table_name;
          alias = if duckdb.has_glob table_name then [] else duckdb.extract_base_name table_name;
        })
      ]

  -- What has been handed over to a database so far, in the order of the calls.
  pub record Database : Type 0 where
    pub sub_systems : List Bytes
    pub entries : List Entry
    pub replacement_scans : List (duckdb.Input → Option TableFunctionRef)

  abbrev pub Outcome : Type 0
  Outcome = Result (Unit {0}) × Database

  -- A statement that runs only if the one before it returned.
  abbrev pub then_do : Outcome → (Database → Outcome) → Outcome
  then_do (ok u, db) rest = rest db
  then_do (throw e, db) rest = (throw e, db)
  then_do (fault, db) rest = (fault, db)

  abbrev pub with_entry : Entry → Database → Database
  with_entry entry db = record {
    sub_systems = db.sub_systems;
    entries = db.entries ++ entry ∷ [];
    replacement_scans = db.replacement_scans;
  }

  -- `loader.RegisterFunction(…)`
  unfoldable pub register_function : Entry → Database → Outcome
  register_function entry db = elim (duckdb.refusal entry) [
    | none ↦ (ok tt, with_entry entry db)
    | some e ↦ (throw e, db)
  ]

  abbrev pub with_sub_system : Bytes → Database → Database
  with_sub_system name db = record {
    sub_systems = db.sub_systems ++ name ∷ [];
    entries = db.entries;
    replacement_scans = db.replacement_scans;
  }

  abbrev pub with_replacement_scan : Database → Database
  with_replacement_scan db = record {
    sub_systems = db.sub_systems;
    entries = db.entries;
    replacement_scans = db.replacement_scans ++ replacement_scan ∷ [];
  }

  abbrev pub packet_table : Entry
  packet_table = table_function (codes "read_pqcap_packets") (varchar ∷ []) false

  abbrev pub register_pqcap_packet_table_function : Database → Outcome
  register_pqcap_packet_table_function = register_function packet_table

  abbrev pub register_pqcap_copy_function : Database → Outcome
  register_pqcap_copy_function db =
      then_do (register_function (copy_function (codes "pcapng") (codes "pcapng")) db)
        (register_function (scalar_function (codes "pqcap_embed_index") (varchar ∷ []) bigint))

  -- From the parsed macro on. The cast of a statement of another kind is undefined.
  unfoldable pub register_macro : Result (List Statement) → Database → Outcome
  register_macro (throw e) db = (throw e, db)
  register_macro fault db = (fault, db)
  register_macro (ok []) db =
      (throw (io_exception "pqcap: read_pqcap macro SQL produced no statements" []), db)
  register_macro (ok (other_statement ∷ statements)) db = (fault, db)
  register_macro (ok (create_macro info ∷ statements)) db =
      let macro_info : CreateMacroInfo = record {
        name = info.name;
        parameters = info.parameters;
        schema = codes "main";
        internal = true;
      } in
      then_do (register_function (table_macro macro_info) db)
        λ db₁. (ok tt, with_replacement_scan db₁)

  unfoldable pub load_internal : (Bytes → Result (List Statement)) → Database → Outcome
  load_internal parse_query db =
      let offset_size_fn = scalar_function (codes "pqcap_offset_size") (varchar ∷ []) varchar in
      then_do (register_function offset_size_fn (with_sub_system get_name db)) λ db₁.
        then_do (register_pqcap_packet_table_function db₁) λ db₂.
          then_do (register_pqcap_copy_function db₂) (register_macro (parse_query read_pqcap_macro))
