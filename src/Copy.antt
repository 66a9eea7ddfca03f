-- ===== src/Copy.antt =====
-- The binding of the copy function of src/pqcap_copy_function.cpp: `FindColumnIdx`, `ParseUInt64` and
-- `PcapngWriteBind`. DuckDB's values and its functions on text are parameters.
pub mod Columns
pub mod Sink
pub mod Session
pub mod Cells
pub mod ReadBack
pub mod Options
pub mod Equals
mod Runs
use duckdb_pqcap_reader.Base.{
  ℕ, zero, suc, ◌+◌, List, [], ◌∷◌, Option, none, some, Bool, true, false, ltb, not, ◌||◌, ◌&&◌,
  if◌then◌else◌,
}
use duckdb_pqcap_reader.Base.{Result, ok, throw, fault, ◌>>=◌, io_exception, binder_exception}
use duckdb_pqcap_reader.Words.{Bytes, codes}
use duckdb_pqcap_reader.Words.Equality.{same_bytes}

-- What the code calls of DuckDB's `Value` and `StringUtil`. A cast to UBIGINT throws or returns a
-- number below 2 ^ 64, or `none` for NULL.
pub record DuckdbValues : Type 1 where
  pub Value : Type 0
  pub is_null : Value → Bool
  pub is_varchar : Value → Bool
  pub cast_ubigint : Value → Result (Option ℕ)
  pub get_string : Value → Bytes
  pub lower : Bytes → Bytes
  pub ci_equals : Bytes → Bytes → Bool

-- `none` is `DConstants::INVALID_INDEX`.
pub record PqcapCopyBindData : Type 0 where
  pub mode : Bytes
  pub linktype : ℕ
  pub idx_timestamp_micros : Option ℕ
  pub idx_orig_len : Option ℕ
  pub idx_payload : Option ℕ
  pub idx_interface_id : Option ℕ
  pub idx_data_link : Option ℕ
  pub idx_captured_length : Option ℕ
  pub idx_comment : Option ℕ
  pub idx_src_ip : Option ℕ
  pub idx_dst_ip : Option ℕ
  pub idx_src_port : Option ℕ
  pub idx_dst_port : Option ℕ
  pub idx_protocols : Option ℕ

-- `make_uniq<PqcapCopyBindData>()`
abbrev pub default_bind_data : PqcapCopyBindData
default_bind_data = record {
  mode = codes "pqcap";
  linktype = 1;
  idx_timestamp_micros = none;
  idx_orig_len = none;
  idx_payload = none;
  idx_interface_id = none;
  idx_data_link = none;
  idx_captured_length = none;
  idx_comment = none;
  idx_src_ip = none;
  idx_dst_ip = none;
  idx_src_port = none;
  idx_dst_port = none;
  idx_protocols = none;
}

-- The test of the type that the binding makes.
pub data LogicalTypeId : Type 0 where
  blob other_type : LogicalTypeId

abbrev pub is_blob : LogicalTypeId → Bool
is_blob blob = true
is_blob other_type = false

-- `sql_types[i]`
abbrev pub type_at : List LogicalTypeId → ℕ → Result LogicalTypeId
type_at [] i = fault
type_at (t ∷ types) zero = ok t
type_at (t ∷ types) (suc i) = type_at types i

unfoldable pub payload_is_blob : Option ℕ → List LogicalTypeId → Result Bool
payload_is_blob none sql_types = ok false
payload_is_blob (some i) sql_types = do t ← type_at sql_types i; ok (is_blob t)

abbrev pub is_missing : Option ℕ → Bool
is_missing none = true
is_missing (some i) = false

module _ (duckdb : DuckdbValues) where
  -- The names that are left, and `i`.
  find_from : Bytes → List Bytes → ℕ → Option ℕ
  find_from needle [] i = none
  find_from needle (name ∷ names) i =
      let later = find_from needle names (i + 1) in
      if duckdb.ci_equals name needle then some i else later

  unfoldable pub find_column_idx : List Bytes → Bytes → Option ℕ
  unfolding find_from
  find_column_idx names needle = find_from needle names 0

  unfoldable pub parse_uint64 : duckdb.Value → Bytes → Result ℕ
  parse_uint64 value name = do
    casted ← duckdb.cast_ubigint value
    elim casted [
      | none ↦ throw (io_exception "Column %s cannot be NULL" (name ∷ []))
      | some v ↦ ok v
    ]

  bind_mode : PqcapCopyBindData → duckdb.Value → Result PqcapCopyBindData
  bind_mode b value =
      if not (duckdb.is_varchar value)
      then throw (binder_exception "mode must be VARCHAR" [])
      else let mode = duckdb.lower (duckdb.get_string value) in
        if not (same_bytes mode (codes "pcapng")) && not (same_bytes mode (codes "pqcap"))
        then throw (binder_exception "mode must be 'pcapng' or 'pqcap'" [])
        else ok (record b { mode = mode })

  bind_linktype : PqcapCopyBindData → duckdb.Value → Result PqcapCopyBindData
  bind_linktype b value = do
    v ← parse_uint64 value (codes "linktype")
    if ltb 65535 v
        then throw (binder_exception "linktype must fit in uint16" [])
        else ok (record b { linktype = v })

  bind_option : PqcapCopyBindData → Bytes → List duckdb.Value → Result PqcapCopyBindData
  unfolding bind_mode bind_linktype
  bind_option b option [] =
      throw (binder_exception "COPY option \"%s\" expects exactly one value" (option ∷ []))
  bind_option b option (value ∷ value' ∷ values) =
      throw (binder_exception "COPY option \"%s\" expects exactly one value" (option ∷ []))
  bind_option b option (value ∷ []) =
      if same_bytes option (codes "mode")
      then bind_mode b value
      else if same_bytes option (codes "linktype")
      then bind_linktype b value
      else throw
          (binder_exception "Unrecognized option for COPY (FORMAT pcapng): \"%s\"" (option ∷ []))

  bind_options : PqcapCopyBindData → List (Bytes × List duckdb.Value) → Result PqcapCopyBindData
  bind_options b [] = ok b
  bind_options b ((name, values) ∷ options) = do
    b' ← bind_option b (duckdb.lower name) values
    bind_options b' options

  -- `protocols`, or `l4_protocol` where that is not there.
  abbrev pub protocols_idx : List Bytes → Option ℕ
  protocols_idx names = elim (find_column_idx names (codes "protocols")) [
    | none ↦ find_column_idx names (codes "l4_protocol")
    | some i ↦ some i
  ]

  abbrev pub with_columns : PqcapCopyBindData → List Bytes → PqcapCopyBindData
  with_columns b names = record {
    mode = b.mode;
    linktype = b.linktype;
    idx_timestamp_micros = find_column_idx names (codes "timestamp_micros");
    idx_orig_len = find_column_idx names (codes "orig_len");
    idx_payload = find_column_idx names (codes "payload");
    idx_interface_id = find_column_idx names (codes "interface_id");
    idx_data_link = find_column_idx names (codes "data_link");
    idx_captured_length = find_column_idx names (codes "captured_length");
    idx_comment = find_column_idx names (codes "comment");
    idx_src_ip = find_column_idx names (codes "src_ip");
    idx_dst_ip = find_column_idx names (codes "dst_ip");
    idx_src_port = find_column_idx names (codes "src_port");
    idx_dst_port = find_column_idx names (codes "dst_port");
    idx_protocols = protocols_idx names;
  }

  check_columns : PqcapCopyBindData → List LogicalTypeId → Result PqcapCopyBindData
  check_columns b sql_types = do
    has_payload ← payload_is_blob b.idx_payload sql_types
    if not has_payload
        then throw (binder_exception "COPY (FORMAT pcapng) requires a BLOB payload column" [])
        else if is_missing b.idx_timestamp_micros
        then throw (binder_exception "COPY (FORMAT pcapng) requires timestamp_micros" [])
        else if is_missing b.idx_orig_len
        then throw (binder_exception "COPY (FORMAT pcapng) requires orig_len" [])
        else ok b

  unfoldable pub pcapng_write_bind :
      List (Bytes × List duckdb.Value) → List Bytes → List LogicalTypeId → Result PqcapCopyBindData
  unfolding bind_options check_columns bind_option
  pcapng_write_bind options names sql_types = do
    b ← bind_options default_bind_data options
    check_columns (with_columns b names) sql_types
