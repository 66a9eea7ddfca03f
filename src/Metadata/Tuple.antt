-- ===== src/Metadata/Tuple.antt =====
-- The rows of the INSERT that src/pqcap_copy_function.cpp writes, as the reader of Metadata/Literals reads
-- them.
use duckdb_pqcap_reader.Base.{
  ℕ, zero, suc, ◌+◌, ◌*◌, ◌%◌, ◌^◌, ◌≡◌, ◌≢◌, refl, arith, List, [], ◌∷◌, ◌++◌, append_assoc,
  Option, none, some, Bool, ◌==◌, true, false, if◌then◌else◌, length, All,
}
use duckdb_pqcap_reader.Words.{Bytes, IsU64, codes}
use duckdb_pqcap_reader.Decimal.{to_string}
use duckdb_pqcap_reader.Decimal.Parse.{IsDecimal, IsDigit}
use duckdb_pqcap_reader.Decimal.Format.{to_string-IsDecimal}
use duckdb_pqcap_reader.Scan.{PacketLocation}
use duckdb_pqcap_reader.Copy.Sink.{PacketRowData}
use duckdb_pqcap_reader.Metadata.{text_value, port_value, protocols_or_unknown, row_values}
use duckdb_pqcap_reader.Metadata.Literals.{
  Value, quoted, bare, read_value, Doubles, value_text, IsValue, IsWord, IsWordByte,
  read_value-value_text,
}

-- At most so many values with commas between them, up to the closing parenthesis.
pub read_values : ℕ → Bytes → Option (List Value × Bytes)
read_values zero s = none
read_values (suc n) s = elim (read_value s) [
  | none ↦ none
  | some (v, []) ↦ none
  | some (v, c ∷ rest) ↦
      if c == b')'
      then some (v ∷ [], rest)
      else elim (read_values n rest) [ none ↦ none | some (vs, after) ↦ some (v ∷ vs, after) ]
]

-- A row of `n` values in parentheses.
pub read_row : ℕ → Bytes → Option (List Value × Bytes)
read_row n [] = none
read_row n (c ∷ s) = if c == b'(' then read_values n s else none

-- The values that a row of the table is to have.
abbrev pub text_field : Bytes → Value
text_field [] = bare (codes "NULL")
text_field (c ∷ s) = quoted (c ∷ s)

abbrev pub port_field : Bool → ℕ → Value
port_field has_port port = if has_port then bare (to_string port) else bare (codes "NULL")

abbrev pub row_fields : ℕ → PacketRowData → PacketLocation → ℕ → List Value
row_fields i row loc default_linktype =
    let linktype = if row.data_link == 0 then default_linktype else row.data_link in
    let captured = if row.captured_length == 0 then loc.size else row.captured_length in
    bare (to_string (i + 1))
    ∷ bare (to_string (row.ts_micros * 1000 % 2 ^ 64))
    ∷ quoted (protocols_or_unknown row.protocols)
    ∷ text_field row.src_ip
    ∷ port_field row.has_src_port row.src_port
    ∷ text_field row.dst_ip
    ∷ port_field row.has_dst_port row.dst_port
    ∷ bare (to_string row.interface_id)
    ∷ bare (to_string linktype)
    ∷ bare (to_string captured)
    ∷ bare (to_string row.orig_len)
    ∷ text_field row.comment
    ∷ bare (to_string loc.offset)
    ∷ bare (to_string loc.size)
    ∷ bare (to_string linktype)
    ∷ []

-- The numbers are uint64s, and the texts have no NUL byte.
pub record FitsRow (i : ℕ) (row : PacketRowData) (loc : PacketLocation) (default_linktype : ℕ)
    : Type 0 where
  pub number_fits : IsU64 (i + 1)
  pub src_port_fits : IsU64 row.src_port
  pub dst_port_fits : IsU64 row.dst_port
  pub interface_fits : IsU64 row.interface_id
  pub data_link_fits : IsU64 row.data_link
  pub default_fits : IsU64 default_linktype
  pub captured_fits : IsU64 row.captured_length
  pub orig_len_fits : IsU64 row.orig_len
  pub offset_fits : IsU64 loc.offset
  pub size_fits : IsU64 loc.size
  pub protocols_text : All (λ c. c ≢ 0) row.protocols
  pub src_ip_text : All (λ c. c ≢ 0) row.src_ip
  pub dst_ip_text : All (λ c. c ≢ 0) row.dst_ip
  pub comment_text : All (λ c. c ≢ 0) row.comment

either_fits : (b : Bool) (m n : ℕ) → IsU64 m → IsU64 n → IsU64 (if b then m else n)
either_fits true m n hm hn = hm
either_fits false m n hm hn = hn

digits-IsWord : (c : ℕ) (s : Bytes) → All IsDigit (c ∷ s) → IsWord (c ∷ s)
digits-IsWord c s h = (omega arith, word_bytes (c ∷ s) h)
  where
    word_bytes : (t : Bytes) → All IsDigit t → All IsWordByte t
    word_bytes [] h = tt
    word_bytes (d ∷ t) (hd, h) = (ground arith, word_bytes t h)

decimal-IsWord : (s : Bytes) (n : ℕ) → IsDecimal s n → IsWord s
decimal-IsWord [] n d = absurd (d.not_empty refl)
decimal-IsWord (c ∷ s) n d = digits-IsWord c s d.digits

to_string-IsWord : (n : ℕ) → IsU64 n → IsWord (to_string n)
to_string-IsWord n h = decimal-IsWord (to_string n) n (to_string-IsDecimal n h)

module _ (replace : Bytes → Bytes) (doubles : Doubles replace) where
  abbrev values_text : List Value → Bytes
  values_text [] = []
  values_text (v ∷ []) = value_text replace doubles v ++ codes ")"
  values_text (v ∷ w ∷ vs) = value_text replace doubles v ++ (44 ∷ values_text (w ∷ vs))

  read_values-values_text :
      (v : Value) (vs : List Value) (rest : Bytes)
      → All (IsValue replace doubles) (v ∷ vs)
      → read_values (length (v ∷ vs)) (values_text (v ∷ vs) ++ rest) ≡ some (v ∷ vs, rest)
  unfolding read_values
  read_values-values_text v [] rest (h, hs) =
      rw (append_assoc (value_text replace doubles v) (codes ")") rest)
        (rw (read_values, read_value-value_text replace doubles v 41 rest h refl))
  read_values-values_text v (w ∷ vs) rest (h, hs) =
      rw (append_assoc (value_text replace doubles v) (44 ∷ values_text (w ∷ vs)) rest) (
        rw (
          read_values,
          read_value-value_text replace doubles v 44 (values_text (w ∷ vs) ++ rest) h refl,
          read_values-values_text w vs rest hs,
        ))

  text_value_lem : (s : Bytes) → text_value replace s ≡ value_text replace doubles (text_field s)
  unfolding text_value
  text_value_lem [] = refl
  text_value_lem (c ∷ s) = refl

  port_value_lem : (b : Bool) (n : ℕ) → port_value b n ≡ value_text replace doubles (port_field b n)
  port_value_lem true n = refl
  port_value_lem false n = refl

  row_values_lem :
      (i : ℕ) (row : PacketRowData) (loc : PacketLocation) (default_linktype : ℕ)
      → row_values replace i row loc default_linktype
        ≡ 40 ∷ values_text (row_fields i row loc default_linktype)
  unfolding row_values
  row_values_lem i row loc default_linktype = simp (append_assoc, text_value_lem, port_value_lem)

  text_field-IsValue : (s : Bytes) → All (λ c. c ≢ 0) s → IsValue replace doubles (text_field s)
  text_field-IsValue [] h = ground arith
  text_field-IsValue (c ∷ s) h = h

  protocols-IsValue :
      (s : Bytes) → All (λ c. c ≢ 0) s → IsValue replace doubles (quoted (protocols_or_unknown s))
  protocols-IsValue [] h = ground arith
  protocols-IsValue (c ∷ s) h = h

  port_field-IsValue : (b : Bool) (n : ℕ) → IsU64 n → IsValue replace doubles (port_field b n)
  port_field-IsValue true n h = to_string-IsWord n h
  port_field-IsValue false n h = ground arith

  row_fields-IsValue :
      (i : ℕ) (row : PacketRowData) (loc : PacketLocation) (default_linktype : ℕ)
      → FitsRow i row loc default_linktype
      → All (IsValue replace doubles) (row_fields i row loc default_linktype)
  row_fields-IsValue i row loc default_linktype v =
      let linktype = if row.data_link == 0 then default_linktype else row.data_link in
      let captured = if row.captured_length == 0 then loc.size else row.captured_length in
      let link =
        either_fits (row.data_link == 0) default_linktype row.data_link v.default_fits
          v.data_link_fits in
      let length_fits =
        either_fits (row.captured_length == 0) loc.size row.captured_length v.size_fits
          v.captured_fits in
      (
        to_string-IsWord (i + 1) v.number_fits,
        (
          to_string-IsWord (row.ts_micros * 1000 % 2 ^ 64) (omega arith),
          (
            protocols-IsValue row.protocols v.protocols_text,
            (
              text_field-IsValue row.src_ip v.src_ip_text,
              (
                port_field-IsValue row.has_src_port row.src_port v.src_port_fits,
                (
                  text_field-IsValue row.dst_ip v.dst_ip_text,
                  (
                    port_field-IsValue row.has_dst_port row.dst_port v.dst_port_fits,
                    (
                      to_string-IsWord row.interface_id v.interface_fits,
                      (
                        to_string-IsWord linktype link,
                        (
                          to_string-IsWord captured length_fits,
                          (
                            to_string-IsWord row.orig_len v.orig_len_fits,
                            (
                              text_field-IsValue row.comment v.comment_text,
                              (
                                to_string-IsWord loc.offset v.offset_fits,
                                (
                                  to_string-IsWord loc.size v.size_fits,
                                  (to_string-IsWord linktype link, tt),
                                ),
                              ),
                            ),
                          ),
                        ),
                      ),
                    ),
                  ),
                ),
              ),
            ),
          ),
        ),
      )

  -- Whatever quotes, commas and parentheses are in the comment, the addresses and the protocol of a
  -- packet, a reader of SQL literals (two quotes in a quoted text stand for one, and a NUL byte ends the
  -- query) reads the row that the writer builds for it as exactly fifteen values, those of the packet: no
  -- text ends its quotes early. The numbers are uint64s, the texts have no NUL byte, and
  -- `StringUtil::Replace` doubles each quote.
  pub read_row-row_values :
      (i : ℕ) (row : PacketRowData) (loc : PacketLocation) (default_linktype : ℕ) (rest : Bytes)
      → FitsRow i row loc default_linktype
      → read_row 15 (row_values replace i row loc default_linktype ++ rest)
        ≡ some (row_fields i row loc default_linktype, rest)
  unfolding read_row
  read_row-row_values i row loc default_linktype rest v =
      rw (row_values_lem i row loc default_linktype)
        (read_values-values_text _ _ rest (row_fields-IsValue i row loc default_linktype v))
