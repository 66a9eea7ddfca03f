-- ===== src/Copy/Columns.antt =====
-- What `FindColumnIdx` and `PcapngWriteBind` of src/pqcap_copy_function.cpp choose.
use duckdb_pqcap_reader.Base.{
  ℕ, zero, suc, ◌+◌, ◌≤◌, ◌<◌, ◌≡◌, ◌↔◌, ◌⊎◌, refl, ap, ◌∙◌, arith, List, [], ◌∷◌, Option, none,
  some, inl, inr,
}
use duckdb_pqcap_reader.Base.{
  true, false, Bool-cases, Option-cases, ltb, not, ◌&&◌, ok, Ensures, Ensures->>=, Ensures-if,
  Ensures-all, Ensures-eq, ensured, Ensures-eq-ok, threw,
}
use duckdb_pqcap_reader.Words.{Bytes, codes}
use duckdb_pqcap_reader.Words.Equality.{same_bytes, same_bytes→eq}
use duckdb_pqcap_reader.Copy.{
  DuckdbValues, other_type, PqcapCopyBindData, default_bind_data, LogicalTypeId, blob, is_blob,
  type_at,
}
use duckdb_pqcap_reader.Copy.{
  find_from, find_column_idx, parse_uint64, bind_mode, bind_linktype, bind_option, bind_options,
}
use duckdb_pqcap_reader.Copy.{
  is_missing, with_columns, payload_is_blob, check_columns, pcapng_write_bind,
}

blob_lem : (t : LogicalTypeId) → is_blob t ≡ true → t ≡ blob
blob_lem blob h = refl
blob_lem other_type h = cc

module _ (duckdb : DuckdbValues) where
  -- The first of the names that equals `needle`, whatever the case of its letters, is at `i`.
  abbrev pub IsFirst : Bytes → List Bytes → ℕ → Type 0
  IsFirst needle [] i = ⊥
  IsFirst needle (name ∷ names) zero = duckdb.ci_equals name needle ≡ true
  IsFirst needle (name ∷ names) (suc i) =
      (duckdb.ci_equals name needle ≡ false) × IsFirst needle names i

  find_from_bound :
      (needle : Bytes) (names : List Bytes) (k j : ℕ)
      → find_from duckdb needle names k ≡ some j
      → k ≤ j
  unfolding find_from
  find_from_bound needle [] k j h = cc
  find_from_bound needle (name ∷ names) k j h = elim (Bool-cases (duckdb.ci_equals name needle)) [
    | inl here ↦ ground (arith, here, h)
    | inr past ↦ let later = find_from_bound needle names (k + 1) j (rw past at h) in omega arith
  ]

  found-IsFirst :
      (needle : Bytes) (names : List Bytes) (k i : ℕ)
      → find_from duckdb needle names k ≡ some (k + i)
      → IsFirst needle names i
  unfolding find_from
  found-IsFirst needle [] k i h = cc
  found-IsFirst needle (name ∷ names) k zero h = elim (Bool-cases (duckdb.ci_equals name needle)) [
    | inl here ↦ here
    | inr past ↦
        let later = find_from_bound needle names (k + 1) (k + 0) (rw past at h) in
        absurd (omega arith)
  ]
  found-IsFirst needle (name ∷ names) k (suc i) h =
      elim (Bool-cases (duckdb.ci_equals name needle)) [
        | inl here ↦ absurd (ground (arith, here, h))
        | inr past ↦
            let moved : k + suc i ≡ k + 1 + i = omega arith in
            (past, found-IsFirst needle names (k + 1) i (rw past at h ∙ ap some moved))
      ]

  first_found :
      (needle : Bytes) (names : List Bytes) (k i : ℕ)
      → IsFirst needle names i
      → find_from duckdb needle names k ≡ some (k + i)
  unfolding find_from
  first_found needle [] k i h = absurd h
  first_found needle (name ∷ names) k zero h = rw h (ap some (omega arith))
  first_found needle (name ∷ names) k (suc i) (past, h) =
      rw past (first_found needle names (k + 1) i h ∙ ap some (omega arith))

  -- A column is found exactly where its name stands first among the names.
  pub find_column_idx_iff :
      (names : List Bytes) (needle : Bytes) (i : ℕ)
      → (find_column_idx duckdb names needle ≡ some i) ↔ IsFirst needle names i
  unfolding find_column_idx
  find_column_idx_iff names needle i = (
    λ h. found-IsFirst needle names 0 i (h ∙ ap some (omega arith)),
    λ h. first_found needle names 0 i h ∙ ap some (omega arith),
  )

  -- The options that the binding accepts.
  pub record IsConfigured (b : PqcapCopyBindData) : Type 0 where
    pub known_mode : (b.mode ≡ codes "pcapng") ⊎ (b.mode ≡ codes "pqcap")
    pub linktype_fits : b.linktype < 65536

  bind_mode-IsConfigured :
      (b : PqcapCopyBindData) (value : duckdb.Value)
      → IsConfigured b
      → Ensures IsConfigured (bind_mode duckdb b value)
  unfolding bind_mode
  bind_mode-IsConfigured b value v =
      let mode = duckdb.lower (duckdb.get_string value) in
      let plain = same_bytes mode (codes "pcapng") in
      Ensures-if (not (duckdb.is_varchar value)) (λ _. threw)
        λ text.
          Ensures-if (not plain && not (same_bytes mode (codes "pqcap"))) (λ _. threw)
            λ known. ensured (record {
              known_mode = elim (Bool-cases plain) [
                | inl same ↦ inl (same_bytes→eq mode (codes "pcapng") same)
                | inr other ↦
                    inr (same_bytes→eq mode (codes "pqcap") (ground (arith, other, known)))
              ];
              linktype_fits = v.linktype_fits;
            })

  bind_linktype-IsConfigured :
      (b : PqcapCopyBindData) (value : duckdb.Value)
      → IsConfigured b
      → Ensures IsConfigured (bind_linktype duckdb b value)
  unfolding bind_linktype
  bind_linktype-IsConfigured b value v =
      Ensures->>=
        (Ensures-all {P = λ n. Unit} (λ n. tt) (parse_uint64 duckdb value (codes "linktype")))
        λ n _.
          Ensures-if (ltb 65535 n) (λ _. threw)
            λ small. ensured (record { known_mode = v.known_mode; linktype_fits = ground arith })

  bind_option-IsConfigured :
      (b : PqcapCopyBindData) (option : Bytes) (values : List duckdb.Value)
      → IsConfigured b
      → Ensures IsConfigured (bind_option duckdb b option values)
  unfolding bind_option
  bind_option-IsConfigured b option [] v = threw
  bind_option-IsConfigured b option (value ∷ value' ∷ values) v = threw
  bind_option-IsConfigured b option (value ∷ []) v =
      Ensures-if (same_bytes option (codes "mode")) (λ _. bind_mode-IsConfigured b value v)
        λ _.
          Ensures-if (same_bytes option (codes "linktype"))
            (λ _. bind_linktype-IsConfigured b value v) λ _. threw

  bind_options-IsConfigured :
      (b : PqcapCopyBindData) (options : List (Bytes × List duckdb.Value))
      → IsConfigured b
      → Ensures IsConfigured (bind_options duckdb b options)
  unfolding bind_options
  bind_options-IsConfigured b [] v = ensured v
  bind_options-IsConfigured b ((name, values) ∷ options) v =
      Ensures->>= (bind_option-IsConfigured b (duckdb.lower name) values v)
        λ b' v'. bind_options-IsConfigured b' options v'

  default_lem : IsConfigured default_bind_data
  default_lem = record { known_mode = inr refl; linktype_fits = omega arith }

  -- The column of this name is there, and it is the first one.
  abbrev pub IsColumn : List Bytes → Bytes → Option ℕ → Type 0
  IsColumn names needle idx = (i : ℕ) × (idx ≡ some i) × IsFirst needle names i

  pub record IsBound (names : List Bytes) (sql_types : List LogicalTypeId) (b : PqcapCopyBindData)
      : Type 0 where
    pub configured : IsConfigured b
    pub payload : IsColumn names (codes "payload") b.idx_payload
    pub payload_type : type_at sql_types payload.0 ≡ ok blob
    pub timestamp_micros : IsColumn names (codes "timestamp_micros") b.idx_timestamp_micros
    pub orig_len : IsColumn names (codes "orig_len") b.idx_orig_len

  present :
      (names : List Bytes) (needle : Bytes)
      → is_missing (find_column_idx duckdb names needle) ≡ false
      → IsColumn names needle (find_column_idx duckdb names needle)
  present names needle h = elim (Option-cases (find_column_idx duckdb names needle)) [
    | inl missing ↦ absurd (ground (arith, missing, h))
    | inr (i, found) ↦ (i, found, (find_column_idx_iff names needle i).0 found)
  ]

  -- The payload column is there, and its type is that of bytes.
  HasPayload : List Bytes → List LogicalTypeId → Type 0
  HasPayload names sql_types =
      (c : IsColumn names (codes "payload") (find_column_idx duckdb names (codes "payload")))
      × (type_at sql_types c.0 ≡ ok blob)

  payload_found :
      (names : List Bytes) (sql_types : List LogicalTypeId) (idx : Option ℕ)
      → find_column_idx duckdb names (codes "payload") ≡ idx
      → Ensures (λ b. b ≡ true → HasPayload names sql_types) (payload_is_blob idx sql_types)
  unfolding payload_is_blob HasPayload
  payload_found names sql_types none found = ensured λ e. cc e
  payload_found names sql_types (some i) found =
      Ensures->>= (Ensures-eq (type_at sql_types i)) λ t typed. ensured λ bytes. (
        (i, found, (find_column_idx_iff names (codes "payload") i).0 found),
        typed ∙ ap ok (blob_lem t bytes),
      )

  -- Where the binding succeeds, the mode is one of the two, the link type fits 16 bits, and the
  -- columns `payload`, of the type of bytes, `timestamp_micros` and `orig_len` are there: each index is
  -- that of the first column of this name, whatever the case of its letters.
  pub pcapng_write_bind-IsBound :
      (options : List (Bytes × List duckdb.Value)) (names : List Bytes)
      (sql_types : List LogicalTypeId) (b : PqcapCopyBindData)
      → pcapng_write_bind duckdb options names sql_types ≡ ok b
      → IsBound names sql_types b
  unfolding pcapng_write_bind check_columns HasPayload
  pcapng_write_bind-IsBound options names sql_types b =
      Ensures-eq-ok {P = IsBound names sql_types} (
        Ensures->>= (bind_options-IsConfigured default_bind_data options default_lem) λ b₁ v.
          let bound = with_columns duckdb b₁ names in
          Ensures->>= (payload_found names sql_types bound.idx_payload refl) λ has_payload payload.
            Ensures-if (not has_payload) (λ _. threw)
              λ there.
                Ensures-if (is_missing bound.idx_timestamp_micros) (λ _. threw)
                  λ timed.
                    Ensures-if (is_missing bound.idx_orig_len) (λ _. threw)
                      λ sized.
                        let (column, typed) = payload (ground arith) in
                        ensured (record {
                          configured = record {
                            known_mode = v.known_mode;
                            linktype_fits = v.linktype_fits;
                          };
                          payload = column;
                          payload_type = typed;
                          timestamp_micros = present names (codes "timestamp_micros") timed;
                          orig_len = present names (codes "orig_len") sized;
                        }))
