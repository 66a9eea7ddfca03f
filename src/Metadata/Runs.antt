-- ===== src/Metadata/Runs.antt =====
-- The row text of src/pqcap_copy_function.cpp for a packet whose comment has quotes in it.
use duckdb_pqcap_reader.Base.{
  ◌≡◌, refl, arith, [], ◌∷◌, ◌++◌, some, ◌==◌, true, false, if◌then◌else◌,
}
use duckdb_pqcap_reader.Words.{Bytes, codes}
use duckdb_pqcap_reader.Scan.{PacketLocation}
use duckdb_pqcap_reader.Copy.Sink.{PacketRowData}
use duckdb_pqcap_reader.Metadata.{row_values}
use duckdb_pqcap_reader.Metadata.Literals.{Doubles}
use duckdb_pqcap_reader.Metadata.Tuple.{row_fields, read_row, read_row-row_values}

abbrev double_quotes : Bytes → Bytes
double_quotes [] = []
double_quotes (c ∷ s) = let rest = double_quotes s in if c == 39 then 39 ∷ 39 ∷ rest else c ∷ rest

double_quotes-Doubles : Doubles double_quotes
double_quotes-Doubles = record {
  at_end = refl;
  at_quote = λ s. refl;
  at_other = λ c s h. let other : (c == 39) ≡ false = ground arith in rw other;
}

abbrev packet : PacketRowData
packet = record {
  ts_micros = 1700000000123456;
  orig_len = 60;
  captured_length = 0;
  interface_id = 0;
  data_link = 0;
  comment = codes "it's '; DROP TABLE x";
  packet_bytes = [];
  src_ip = codes "10.0.0.1";
  dst_ip = [];
  has_src_port = true;
  has_dst_port = false;
  src_port = 53;
  dst_port = 0;
  protocols = [];
}

abbrev location : PacketLocation
location = record { offset = 40; size = 3 }

read_row-row_values_example :
    read_row 15 (row_values double_quotes 0 packet location 1 ++ codes ",(2,")
    ≡ some (row_fields 0 packet location 1, codes ",(2,")
read_row-row_values_example =
    read_row-row_values double_quotes double_quotes-Doubles 0 packet location 1 (codes ",(2,")
      (omega arith)
