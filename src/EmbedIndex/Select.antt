-- ===== src/EmbedIndex/Select.antt =====
-- The columns that the query of `FetchPacketFeaturesFromCapture`, src/pqcap_copy_function.cpp, selects by
-- name from `read_pqcap_packets`, and what the code makes of them by position.
use duckdb_pqcap_reader.Base.{
  ℕ, ◌≡◌, refl, ap, List, [], ◌∷◌, Option, none, ◌++◌, some, Bool, true, false, ◌==◌, ◌%◌, ◌^◌,
  drop, if◌then◌else◌, ok, length, suc,
}
use duckdb_pqcap_reader.Words.{Bytes}
use duckdb_pqcap_reader.Words.Equality.{same_bytes}
use duckdb_pqcap_reader.Copy.Sink.{PacketRowData}
use duckdb_pqcap_reader.Table.{PacketRow}
use duckdb_pqcap_reader.Table.Bind.{
  bigint, ubigint, usmallint, integer, Value, of_bigint, of_ubigint, of_usmallint, of_integer,
  of_varchar, packet_names, set_row_values, varchar_or_null, integer_or_null,
}
use duckdb_pqcap_reader.EmbedIndex.{
  QueryCalls, get_value, number_at, text_at, port_at, features_of, all_features, features_query,
}

-- What a character of a list of names is.
data Part : Type 0 where
  comma blank end letter : Part

part_of : Bool → ℕ → Part
part_of behind_comma c =
    if c == b',' then comma else if c == b' ' then if behind_comma then blank else end else letter

onto : ℕ → List Bytes → List Bytes
onto c [] = (c ∷ []) ∷ []
onto c (name ∷ names) = (c ∷ name) ∷ names

-- Names with commas and blanks between them, up to the first blank that is not behind a comma.
names_in : Bool → Bytes → List Bytes
names_in behind_comma [] = [] ∷ []
names_in behind_comma (c ∷ s) = elim (part_of behind_comma c) [
  | comma ↦ [] ∷ names_in true s
  | blank ↦ names_in false s
  | end ↦ [] ∷ []
  | letter ↦ onto c (names_in false s)
]

-- The names between `SELECT` and `FROM`.
pub selected_names : Bytes → List Bytes
selected_names sql = names_in false (drop 7 sql)

-- The value of the column of a name, if there is such a column.
pub column_of : Bytes → List Bytes → List Value → List Value
column_of name (n ∷ names) (v ∷ values) =
    let others = column_of name names values in if same_bytes name n then v ∷ [] else others
column_of name [] values = []
column_of name (n ∷ names) [] = []

select : List Bytes → List Value → List Value
select [] values = []
select (name ∷ names) values = column_of name packet_names values ++ select names values

-- What the query gives for rows of `read_pqcap_packets`: of each row the columns that it names.
pub selected : Bytes → List PacketRow → List (List Value)
selected sql [] = []
selected sql (row ∷ rows) = select (selected_names sql) (set_row_values row) ∷ selected sql rows

-- What `Value` promises: a number keeps its value in its own type, and so does a text.
pub record KeepsValues (con : QueryCalls) : Type 0 where
  pub of_bigints : (n : ℕ) → con.get_number bigint (of_bigint n) ≡ ok n
  pub of_ubigints : (n : ℕ) → con.get_number ubigint (of_ubigint n) ≡ ok n
  pub of_usmallints : (n : ℕ) → con.get_number usmallint (of_usmallint n) ≡ ok n
  pub of_integers : (n : ℕ) → con.get_number integer (of_integer n) ≡ ok n
  pub of_texts : (s : Bytes) → con.get_string (of_varchar s) ≡ ok s

abbrev pub text_of : Option Bytes → Bytes
text_of none = []
text_of (some s) = s

abbrev pub port_of : Option ℕ → Bool × ℕ
port_of none = (false, 0)
port_of (some n) = (true, n % 2 ^ 32)

-- The packet for the index that a row of `read_pqcap_packets` is to give, field by field.
abbrev pub row_features : (Bytes → Bytes) → PacketRow → PacketRowData
row_features lower r = record {
  ts_micros = r.timestamp_micros;
  orig_len = r.orig_len;
  captured_length = r.captured_length;
  interface_id = r.interface_id;
  data_link = r.data_link % 2 ^ 16;
  comment = text_of r.comment;
  packet_bytes = [];
  src_ip = text_of r.src_ip;
  dst_ip = text_of r.dst_ip;
  has_src_port = (port_of r.src_port).0;
  has_dst_port = (port_of r.dst_port).0;
  src_port = (port_of r.src_port).1;
  dst_port = (port_of r.dst_port).1;
  protocols = lower r.l4_protocol;
}

abbrev pub each_features : (Bytes → Bytes) → List PacketRow → List PacketRowData
each_features lower [] = []
each_features lower (r ∷ rows) = row_features lower r ∷ each_features lower rows

pub length-each_features :
    (lower : Bytes → Bytes) (rows : List PacketRow)
    → length (each_features lower rows) ≡ length rows
length-each_features lower [] = refl
length-each_features lower (r ∷ rows) = ap suc (length-each_features lower rows)

-- The eleven columns that the code reads by position.
abbrev feature_values : PacketRow → List Value
feature_values r =
    of_bigint r.timestamp_micros
    ∷ of_ubigint r.interface_id
    ∷ of_usmallint (r.data_link % 2 ^ 16)
    ∷ of_ubigint r.captured_length
    ∷ of_ubigint r.orig_len
    ∷ varchar_or_null r.comment
    ∷ varchar_or_null r.src_ip
    ∷ integer_or_null r.src_port
    ∷ varchar_or_null r.dst_ip
    ∷ integer_or_null r.dst_port
    ∷ of_varchar r.l4_protocol
    ∷ []

select-features_query :
    (replace : Bytes → Bytes) (path : Bytes) (r : PacketRow)
    → select (selected_names (features_query replace path)) (set_row_values r) ≡ feature_values r
unfolding selected_names names_in part_of onto select column_of features_query set_row_values
select-features_query replace path r = refl

module _ (con : QueryCalls) (keeps : KeepsValues con) where
  text_at-varchar :
      (k : ℕ) (row : List Value) (o : Option Bytes)
      → get_value k row ≡ ok (varchar_or_null o)
      → text_at con k row ≡ ok (text_of o)
  unfolding text_at
  text_at-varchar k row none h = rw (text_at, h)
  text_at-varchar k row (some s) h = rw (text_at, h, keeps.of_texts s)

  port_at-integer :
      (k : ℕ) (row : List Value) (o : Option ℕ)
      → get_value k row ≡ ok (integer_or_null o)
      → port_at con k row ≡ ok (port_of o)
  unfolding port_at
  port_at-integer k row none h = rw (port_at, h)
  port_at-integer k row (some n) h = rw (port_at, h, keeps.of_integers n)

  features_of-feature_values :
      (lower : Bytes → Bytes) (r : PacketRow)
      → features_of con lower (feature_values r) ≡ ok (row_features lower r)
  unfolding features_of get_value number_at
  features_of-feature_values lower r =
      let row = feature_values r in
      rw (
        keeps.of_bigints r.timestamp_micros,
        keeps.of_ubigints r.interface_id,
        keeps.of_usmallints (r.data_link % 2 ^ 16),
        keeps.of_ubigints r.captured_length,
        keeps.of_ubigints r.orig_len,
        text_at-varchar 5 row r.comment refl,
        text_at-varchar 6 row r.src_ip refl,
        port_at-integer 7 row r.src_port refl,
        text_at-varchar 8 row r.dst_ip refl,
        port_at-integer 9 row r.dst_port refl,
        keeps.of_texts r.l4_protocol,
      )

  pub all_features-selected :
      (lower replace : Bytes → Bytes) (path : Bytes) (rows : List PacketRow)
      → all_features con lower (selected (features_query replace path) rows)
        ≡ ok (each_features lower rows)
  unfolding all_features selected
  all_features-selected lower replace path [] = refl
  all_features-selected lower replace path (r ∷ rows) =
      let named = select-features_query replace path r in
      let found = features_of-feature_values lower r in
      rw (named, found, all_features-selected lower replace path rows)
