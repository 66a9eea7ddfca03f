-- ===== src/Copy/Options.antt =====
-- `PcapngListCopyOptions` of src/pqcap_copy_function.cpp: the options that DuckDB is told of, and those that
-- the binding accepts.
use duckdb_pqcap_reader.Base.{
  ◌≡◌, List, [], ◌∷◌, Option, none, some, Bool-cases, inl, inr, if◌then◌else◌, All, ok,
}
use duckdb_pqcap_reader.Base.{
  Ensures, Ensures->>=, Ensures-map, Ensures-if, Ensures-all, Ensures-eq-ok, ensured, threw,
}
use duckdb_pqcap_reader.Words.{Bytes, codes}
use duckdb_pqcap_reader.Words.Equality.{same_bytes}
use duckdb_pqcap_reader.Table.Bind.{LogicalType, varchar, uinteger}
use duckdb_pqcap_reader.Copy.{
  DuckdbValues, PqcapCopyBindData, default_bind_data, LogicalTypeId, with_columns, bind_mode,
  bind_linktype, bind_option, bind_options, check_columns, pcapng_write_bind,
}

-- `input.options`, a map from names to types.
abbrev pub CopyOptions : Type 0
CopyOptions = Bytes → Option LogicalType

unfoldable pub pcapng_list_copy_options : CopyOptions → CopyOptions
pcapng_list_copy_options options name =
    if same_bytes name (codes "linktype")
    then some uinteger
    else if same_bytes name (codes "mode")
    then some varchar
    else options name

abbrev pub no_options : CopyOptions
no_options name = none

-- A value of any list that has exactly one.
pub data IsSingle {ℓ} {A : Type ℓ} : List A → Type ℓ where
  single : {a : A} → IsSingle (a ∷ [])

-- The option is listed, and it has one value.
abbrev pub IsListed {ℓ} : {A : Type ℓ} → Bytes → List A → Type ℓ
IsListed name values =
    (t : LogicalType) × (pcapng_list_copy_options no_options name ≡ some t) × IsSingle values

module _ (duckdb : DuckdbValues) where
  bind_option-IsListed :
      (b : PqcapCopyBindData) (name : Bytes) (values : List duckdb.Value)
      → Ensures (λ b'. IsListed name values) (bind_option duckdb b name values)
  unfolding bind_option pcapng_list_copy_options
  bind_option-IsListed b name [] = threw
  bind_option-IsListed b name (value ∷ value' ∷ values) = threw
  bind_option-IsListed b name (value ∷ []) =
      Ensures-if (same_bytes name (codes "mode"))
        (λ mode.
          Ensures-all
            (λ b'. elim (Bool-cases (same_bytes name (codes "linktype"))) [
              | inl linktype ↦ (uinteger, rw linktype, single)
              | inr other ↦ (varchar, rw (other, mode), single)
            ])
            (bind_mode duckdb b value))
        λ other.
          Ensures-if (same_bytes name (codes "linktype"))
            (λ linktype.
              Ensures-all (λ b'. (uinteger, rw linktype, single)) (bind_linktype duckdb b value))
            λ unknown. threw

  bind_options-IsListed :
      (b : PqcapCopyBindData) (options : List (Bytes × List duckdb.Value))
      → Ensures
          (λ b'. All (λ (name, values). IsListed (duckdb.lower name) values) options)
          (bind_options duckdb b options)
  unfolding bind_options
  bind_options-IsListed b [] = ensured tt
  bind_options-IsListed b ((name, values) ∷ options) =
      Ensures->>= (bind_option-IsListed b (duckdb.lower name) values)
        λ b' listed. Ensures-map (λ b'' rest. (listed, rest)) (bind_options-IsListed b' options)

  -- A binding that succeeds was given no other options than those that the function lists for DuckDB,
  -- whatever the case of their names, and one value for each.
  pub pcapng_write_bind-IsListed :
      (options : List (Bytes × List duckdb.Value)) (names : List Bytes)
      (sql_types : List LogicalTypeId) (b : PqcapCopyBindData)
      → pcapng_write_bind duckdb options names sql_types ≡ ok b
      → All (λ (name, values). IsListed (duckdb.lower name) values) options
  unfolding pcapng_write_bind
  pcapng_write_bind-IsListed options names sql_types b = Ensures-eq-ok (
      Ensures->>= (bind_options-IsListed default_bind_data options) λ b' listed.
        Ensures-all (λ b''. listed) (check_columns duckdb (with_columns duckdb b' names) sql_types))
