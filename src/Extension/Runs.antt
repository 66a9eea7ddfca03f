-- ===== src/Extension/Runs.antt =====
-- The load of the extension, src/pqcap_reader_extension.cpp, with a parser and paths that are small.
use duckdb_pqcap_reader.Base.{
  ℕ, ap, ◌∙◌, ◌≡◌, refl, arith, drop, ◌==◌, ◌++◌, All, List, [], ◌∷◌, some, none, Bool, true, false,
  Result, ok, if◌then◌else◌,
}
use duckdb_pqcap_reader.Words.{Bytes, codes}
use duckdb_pqcap_reader.Words.Equality.{same_bytes}
use duckdb_pqcap_reader.Extension.{
  DuckdbCalls, Statement, CreateMacroInfo, create_macro, Database, load_internal, replacement_scan,
  function_for,
}
use duckdb_pqcap_reader.Extension.Entries.{is_name_byte, IsName, macro_text, ParsesMacros}
use duckdb_pqcap_reader.Extension.Resolve.{Loading, load_internal-Loading}

abbrev mem : Bytes → List Bytes → Bool
mem name [] = false
mem name (other ∷ others) = if same_bytes name other then true else mem name others

-- A path is an extension only.
abbrev duckdb : DuckdbCalls
duckdb = record {
  Input = Bytes;
  get_full_path = λ input. input;
  can_replace = mem;
  has_glob = λ path. false;
  extract_base_name = λ path. path;
  refusal = λ entry. none;
}

-- The text in front of a byte, and behind it.
abbrev until : ℕ → Bytes → Bytes × Bytes
until d [] = ([], [])
until d (c ∷ s) = let (word, rest) = until d s in if c == d then ([], s) else (c ∷ word, rest)

abbrev rest_of : Bytes → Bytes
rest_of s = (until b'(' s).1

-- A parser that knows macros only: the name stands behind 25 bytes and in front of a parenthesis.
abbrev macro_info : Bytes → CreateMacroInfo
macro_info sql = record {
  name = (until b'(' (drop 25 sql)).0;
  parameters = (until b')' (rest_of (drop 25 sql))).0 ∷ [];
  schema = [];
  internal = false;
}

abbrev parse : Bytes → Result (List Statement)
parse sql = ok (create_macro (macro_info sql) ∷ [])

until-append :
    (d : ℕ) (word rest : Bytes)
    → All (λ c. is_name_byte c ≡ true) word
    → is_name_byte d ≡ false
    → until d (word ++ d ∷ rest) ≡ (word, rest)
until-append d [] rest h other = let same : (d == d) ≡ true = ground arith in rw same
until-append d (c ∷ word) rest (hc, h) other =
    let different : (c == d) ≡ false = ground arith in
    rw (until-append d word rest h other, different)

IsName-All : (name : Bytes) → IsName name → All (λ c. is_name_byte c ≡ true) name
IsName-All [] h = absurd h
IsName-All (c ∷ name) h = h

parse-ParsesMacros : ParsesMacros parse
parse-ParsesMacros name parameter body n p =
    let after_name = b')' ∷ (codes " AS TABLE" ++ (10 ∷ body)) in
    let at_name = until-append b'(' name (parameter ++ after_name) (IsName-All name n) refl in
    let at_parameter =
      until-append b')' parameter (codes " AS TABLE" ++ (10 ∷ body)) (IsName-All parameter p)
        refl in
    record {
      defined = λ e. cc e;
      first_created = λ statement statements e. (
        macro_info (macro_text name parameter body),
        cc e,
        ap (λ (r : Bytes × Bytes). r.0) at_name,
        ap (λ (r : Bytes × Bytes). (until b')' r.1).0 ∷ []) at_name
            ∙ ap (λ (r : Bytes × Bytes). r.0 ∷ []) at_parameter,
      );
    }

abbrev database : Database duckdb
database = record { sub_systems = []; entries = []; replacement_scans = [] }

packets_of_pcap :
    replacement_scan duckdb (codes "pcap")
    ≡ some (record {
      function_name = codes "read_pqcap_packets";
      argument = codes "pcap";
      alias = codes "pcap";
    })
unfolding replacement_scan function_for
packets_of_pcap = refl

no_text : replacement_scan duckdb (codes "csv") ≡ none
unfolding replacement_scan function_for
no_text = refl

load_internal-Loading_example :
    let (r, db') = load_internal duckdb parse database in Loading duckdb database r db'
load_internal-Loading_example = load_internal-Loading duckdb parse database parse-ParsesMacros
