-- ===== src/Copy/Sink/Safe.antt =====
-- The sink of src/pqcap_copy_function.cpp with a binding that has the columns it requires.
use duckdb_pqcap_reader.Base.{
  ℕ, ◌≡◌, List, Option, none, some, Defined, with_value, with_exception, Defined->>=, Defined-if,
  Option-cases, inl, inr,
}
use duckdb_pqcap_reader.Words.{Bytes}
use duckdb_pqcap_reader.Copy.{DuckdbValues, PqcapCopyBindData, LogicalTypeId, parse_uint64}
use duckdb_pqcap_reader.Copy.Columns.{IsBound}
use duckdb_pqcap_reader.Copy.Sink.{Columns, required, optional_uint64, payload_text, sink_row}

module _ (duckdb : DuckdbValues)
    (casts : (value : duckdb.Value) → Defined (duckdb.cast_ubigint value)) where
  parse_uint64-Defined :
      (value : duckdb.Value) (name : Bytes) → Defined (parse_uint64 duckdb value name)
  unfolding parse_uint64
  parse_uint64-Defined value name = Defined->>= (casts value) λ casted. elim (Option-cases casted) [
    | inl missing ↦ rw missing with_exception
    | inr (v, found) ↦ rw found with_value
  ]

  required-Defined :
      (columns : Columns duckdb) (idx : Option ℕ) (i : ℕ)
      → idx ≡ some i
      → Defined (required duckdb columns idx)
  unfolding required
  required-Defined columns none i h = cc
  required-Defined columns (some j) i h = with_value

  optional_uint64-Defined :
      (columns : Columns duckdb) (idx : Option ℕ) (name : Bytes)
      → Defined (optional_uint64 duckdb columns idx name)
  unfolding optional_uint64
  optional_uint64-Defined columns none name = with_value
  optional_uint64-Defined columns (some i) name =
      Defined-if (duckdb.is_null (columns i)) with_value
        (Defined->>= (parse_uint64-Defined (columns i) name) λ v. with_value)

  payload_text-Defined : (payload : duckdb.Value) → Defined (payload_text duckdb payload)
  unfolding payload_text
  payload_text-Defined payload = Defined-if (duckdb.is_null payload) with_exception with_value

  -- With a binding that has succeeded, each row of a chunk is taken or refused.
  pub sink_row-Defined :
      (names : List Bytes) (sql_types : List LogicalTypeId) (cfg : PqcapCopyBindData)
      (columns : Columns duckdb)
      → IsBound duckdb names sql_types cfg
      → Defined (sink_row duckdb cfg columns)
  unfolding sink_row
  sink_row-Defined names sql_types cfg columns v =
      let (i, has_time, first_time) = v.timestamp_micros in
      let (j, has_length, first_length) = v.orig_len in
      let (k, has_payload, first_payload) = v.payload in
      Defined->>= (required-Defined columns cfg.idx_timestamp_micros i has_time) λ timestamp.
        Defined->>= (parse_uint64-Defined timestamp _) λ ts_micros.
          Defined->>= (required-Defined columns cfg.idx_orig_len j has_length) λ original.
            Defined->>= (parse_uint64-Defined original _) λ orig_len.
              Defined->>= (required-Defined columns cfg.idx_payload k has_payload) λ payload.
                Defined->>= (payload_text-Defined payload) λ packet_bytes.
                  Defined->>= (optional_uint64-Defined columns cfg.idx_interface_id _)
                    λ interface_id.
                      Defined->>= (optional_uint64-Defined columns cfg.idx_data_link _) λ data_link.
                        Defined->>= (optional_uint64-Defined columns cfg.idx_captured_length _)
                          λ captured.
                            Defined->>= (optional_uint64-Defined columns cfg.idx_src_port _)
                              λ src_port.
                                Defined->>= (optional_uint64-Defined columns cfg.idx_dst_port _)
                                  λ dst_port. with_value
