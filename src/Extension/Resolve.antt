-- ===== src/Extension/Resolve.antt =====
-- What the load of the extension, src/pqcap_reader_extension.cpp, makes of the names that its replacement
-- scan chooses.
use duckdb_pqcap_reader.Base.{
  ◌≡◌, take, append_assoc, sym, refl, ap, List, [], ◌∷◌, ◌++◌, Option, none, some, true, false,
  Bool-cases, Option-cases, inl, inr, Result, ok, throw, fault, Exception, arith,
}
use mathlib.Core.Path.{subst}
use duckdb_pqcap_reader.Words.{Bytes, codes}
use duckdb_pqcap_reader.Table.Bind.{varchar, bigint}
use duckdb_pqcap_reader.Extension.{Outcome, then_do, with_entry, register_function}
use duckdb_pqcap_reader.Extension.{
  TableFunctionRef, DuckdbCalls, CreateMacroInfo, Statement, create_macro, other_statement, Entry,
  table_function, copy_function, table_macro, read_pqcap_macro, scalar_function, function_for,
  replacement_scan, Database, register_macro, load_internal,
}
use duckdb_pqcap_reader.Extension.Entries.{
  by_function, by_macro, HasCallable, here, there, after, CreatesMacro, ParsesMacros,
  extension_entries,
}

some-injective : {A : Type 0} {a b : A} → some a ≡ some b → a ≡ b
some-injective h = cc

-- The body of the macro that reads an index.
abbrev macro_body : Bytes
macro_body =
    codes "SELECT *"
    ++ 10 ∷ codes "FROM read_parquet('pqcap-subfile://' || pqcap_offset_size(p) || '!' || p);"
    ++ 10 ∷ []

module _ (duckdb : DuckdbCalls) where
  -- The function that the scan chooses for a path.
  pub data Chosen (path : Bytes) : Bytes → Type 0 where
    of_index :
        duckdb.can_replace path (codes "pqcap" ∷ codes "pqcapng" ∷ []) ≡ true
        → Chosen path (codes "read_pqcap")
    of_packets :
        duckdb.can_replace path (codes "pqcap" ∷ codes "pqcapng" ∷ []) ≡ false
        → duckdb.can_replace path (codes "pcap" ∷ codes "pcapng" ∷ []) ≡ true
        → Chosen path (codes "read_pqcap_packets")

  pub record Resolves (entries : List Entry) (input : duckdb.Input) (ref : TableFunctionRef)
      : Type 0 where
    pub chosen : Chosen (duckdb.get_full_path input) ref.function_name
    pub callable : HasCallable ref.function_name entries
    pub same_path : ref.argument ≡ duckdb.get_full_path input

  pub data Loading (db : Database duckdb) : Result (Unit {0}) → Database duckdb → Type 0 where
    loaded :
        {db' : Database duckdb}
        → db'.sub_systems ≡ db.sub_systems ++ codes "PqcapSubFileSystem" ∷ []
        → db'.entries ≡ db.entries ++ extension_entries
        → db'.replacement_scans ≡ db.replacement_scans ++ replacement_scan duckdb ∷ []
        → ((input : duckdb.Input) (ref : TableFunctionRef)
            → replacement_scan duckdb input ≡ some ref
            → Resolves db'.entries input ref)
        → Loading db (ok tt) db'
    refused :
        {e : Exception} {db' : Database duckdb}
        → db'.replacement_scans ≡ db.replacement_scans
        → Loading db (throw e) db'

  function_for-Chosen :
      (path name : Bytes) → function_for duckdb path ≡ some name → Chosen path name
  unfolding function_for
  function_for-Chosen path name h =
      elim (Bool-cases (duckdb.can_replace path (codes "pqcap" ∷ codes "pqcapng" ∷ []))) [
        | inl index ↦ subst (Chosen path) (some-injective (rw index at h)) (of_index index)
        | inr other ↦
            elim (Bool-cases (duckdb.can_replace path (codes "pcap" ∷ codes "pcapng" ∷ []))) [
              | inl packets ↦
                  subst (Chosen path) (some-injective (rw (other, packets) at h))
                    (of_packets other packets)
              | inr neither ↦ absurd (ground (arith, other, neither, h))
            ]
      ]

  -- The name is chosen, and the path is the argument.
  scan_lem :
      (input : duckdb.Input) (ref : TableFunctionRef) (name : Option Bytes)
      → function_for duckdb (duckdb.get_full_path input) ≡ name
      → replacement_scan duckdb input ≡ some ref
      → Chosen (duckdb.get_full_path input) ref.function_name
        × (ref.argument ≡ duckdb.get_full_path input)
  unfolding replacement_scan
  scan_lem input ref none e h = cc
  scan_lem input ref (some name) e h =
      let path = duckdb.get_full_path input in
      let made = some-injective (rw (replacement_scan, e) at h) in
      (
        subst (λ (r : TableFunctionRef). Chosen path r.function_name) made
            (function_for-Chosen path name e),
        ap (λ (r : TableFunctionRef). r.argument) (sym made),
      )

  -- Whatever the scan chooses is among the entries of the extension.
  Chosen-HasCallable : (path name : Bytes) → Chosen path name → HasCallable name extension_entries
  Chosen-HasCallable path name (of_index index) =
      there (there (there (there (here (by_macro refl refl refl)))))
  Chosen-HasCallable path name (of_packets other pcap) = there (here by_function)

  scan-Resolves :
      (db : Database duckdb) (entries : List Entry)
      → entries ≡ db.entries ++ extension_entries
      → (input : duckdb.Input) (ref : TableFunctionRef) → replacement_scan duckdb input ≡ some ref
      → Resolves entries input ref
  scan-Resolves db entries same input ref scanned =
      let (chosen, argument_is) = scan_lem input ref _ refl scanned in
      record {
        chosen = chosen;
        callable = subst (HasCallable ref.function_name) (sym same) (
            after db.entries
              (Chosen-HasCallable (duckdb.get_full_path input) ref.function_name chosen));
        same_path = argument_is;
      }

  abbrev LoadingTo : Database duckdb → Outcome duckdb → Type 0
  LoadingTo db (r, db') = Loading db r db'

  -- A registration in front of the rest: it throws, or the rest goes on with one entry more.
  registered-Loading :
      (db start : Database duckdb) (entry : Entry) (rest : Database duckdb → Outcome duckdb)
      → start.replacement_scans ≡ db.replacement_scans
      → LoadingTo db (rest (with_entry duckdb entry start))
      → LoadingTo db (then_do duckdb (register_function duckdb entry start) rest)
  unfolding register_function
  registered-Loading db start entry rest same h = elim (Option-cases (duckdb.refusal entry)) [
    | inl accepted ↦ rw (register_function, accepted) h
    | inr (e, refuses) ↦ rw (register_function, refuses) (refused same)
  ]

  then_do_assoc :
      (outcome : Outcome duckdb) (f g : Database duckdb → Outcome duckdb)
      → then_do duckdb (then_do duckdb outcome f) g
        ≡ then_do duckdb outcome (λ db. then_do duckdb (f db) g)
  then_do_assoc (ok u, db) f g = refl
  then_do_assoc (throw e, db) f g = refl
  then_do_assoc (fault, db) f g = refl

  -- The macro is registered behind the entries in front of it, and then the scan.
  register_macro-Loading :
      (db start : Database duckdb) (parsed : Result (List Statement))
      → start.sub_systems ≡ db.sub_systems ++ codes "PqcapSubFileSystem" ∷ []
      → start.entries ≡ db.entries ++ take 4 extension_entries
      → start.replacement_scans ≡ db.replacement_scans
      → CreatesMacro (codes "read_pqcap") (codes "p") parsed
      → LoadingTo db (register_macro duckdb parsed start)
  unfolding register_macro
  register_macro-Loading db start (throw e) systems entries same v = refused same
  register_macro-Loading db start fault systems entries same v = absurd (v.defined refl)
  register_macro-Loading db start (ok []) systems entries same v = refused same
  register_macro-Loading db start (ok (other_statement ∷ statements)) systems entries same v =
      let (info, created, named, with_parameter) =
        v.first_created other_statement statements refl in
      cc
  register_macro-Loading db start (ok (create_macro info ∷ statements)) systems entries same v =
      let (info', created, named, with_parameter) =
        v.first_created (create_macro info) statements refl in
      let same_info : info ≡ info' = cc in
      let macro_info : CreateMacroInfo = record {
        name = info.name;
        parameters = info.parameters;
        schema = codes "main";
        internal = true;
      } in
      let all_entries : start.entries ++ table_macro macro_info ∷ []
          ≡ db.entries ++ extension_entries =
        rw (entries, same_info, named, with_parameter)
          (append_assoc db.entries (take 4 extension_entries) _) in
      registered-Loading db start (table_macro macro_info) _ same (
        loaded systems all_entries (ap (λ t. t ++ replacement_scan duckdb ∷ []) same)
          (scan-Resolves db _ all_entries))

  -- However the load of the extension ends, also where DuckDB refuses one of its entries, it hands over
  -- its replacement scan only when all the rest is there: the subfile system, `pqcap_offset_size`,
  -- `read_pqcap_packets`, the COPY format `pcapng`, `pqcap_embed_index` and the macro `read_pqcap`, in
  -- this order, each function and the macro for one argument. Then whatever call the scan puts in place
  -- of a path is one of these entries: `read_pqcap` for the extensions of indexed captures, else
  -- `read_pqcap_packets` for those of plain ones, with the full path as its argument. DuckDB's parser
  -- is one that reads the definition of a macro with one parameter as such.
  pub load_internal-Loading :
      (parse_query : Bytes → Result (List Statement)) (db : Database duckdb)
      → ParsesMacros parse_query
      → let (r, db') = load_internal duckdb parse_query db in Loading db r db'
  unfolding load_internal
  load_internal-Loading parse_query db parses =
      let v = parses (codes "read_pqcap") (codes "p") macro_body (ground arith) (ground arith) in
      let entries : (((db.entries
                  ++ scalar_function (codes "pqcap_offset_size") (varchar ∷ []) varchar ∷ [])
                ++ table_function (codes "read_pqcap_packets") (varchar ∷ []) false ∷ [])
              ++ copy_function (codes "pcapng") (codes "pcapng") ∷ [])
            ++ scalar_function (codes "pqcap_embed_index") (varchar ∷ []) bigint ∷ []
          ≡ db.entries ++ take 4 extension_entries =
        simp append_assoc in
      registered-Loading db _ _ _ refl (
        registered-Loading db _ _ _ refl (
          rw then_do_assoc (
            registered-Loading db _ _ _ refl (
              registered-Loading db _ _ _ refl
                (register_macro-Loading db _ (parse_query read_pqcap_macro) refl entries refl v)))))
