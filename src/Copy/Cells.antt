-- ===== src/Copy/Cells.antt =====
-- A small table for the tests of the copy function of src/pqcap_copy_function.cpp.
use duckdb_pqcap_reader.Base.{
  ℕ, ok, throw, none, some, true, false, Bool, List, Option, ◌∷◌, [], ltb, Result, io_exception,
  if◌then◌else◌,
}
use duckdb_pqcap_reader.Words.{Bytes, codes}
use duckdb_pqcap_reader.Words.Equality.{same_bytes}
use duckdb_pqcap_reader.Copy.{DuckdbValues, PqcapCopyBindData, default_bind_data, with_columns}
use duckdb_pqcap_reader.Copy.Sink.{Columns, PqcapCopyGlobalState}

-- A value of the small table.
pub data Cell : Type 0 where
  null : Cell
  number : ℕ → Cell
  text : Bytes → Cell

abbrev pub cast : Cell → Result (Option ℕ)
cast null = ok none
cast (number n) = ok (some n)
cast (text s) = throw (io_exception "Conversion Error" (s ∷ []))

abbrev pub is_null : Cell → Bool
is_null null = true
is_null (number n) = false
is_null (text s) = false

abbrev pub is_text : Cell → Bool
is_text null = false
is_text (number n) = false
is_text (text s) = true

abbrev pub string_of : Cell → Bytes
string_of null = []
string_of (number n) = []
string_of (text s) = s

abbrev pub cells : DuckdbValues
cells = record {
  Value = Cell;
  is_null = is_null;
  is_varchar = is_text;
  cast_ubigint = cast;
  get_string = string_of;
  lower = λ s. s;
  ci_equals = same_bytes;
}

abbrev pub names : List Bytes
names = codes "payload" ∷ codes "timestamp_micros" ∷ codes "orig_len" ∷ codes "payload" ∷ []

-- The columns of the names, in either mode.
abbrev pub cfg_of : Bytes → PqcapCopyBindData
cfg_of mode = with_columns cells (record default_bind_data { mode = mode; linktype = 101 }) names

-- A row with this payload.
abbrev pub row_with : Cell → Columns cells
row_with payload i = if ltb i 1 then payload else number 60

abbrev pub empty : PqcapCopyGlobalState
empty = record { written = []; rows = [] }
