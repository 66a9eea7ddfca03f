-- ===== src/Finalize/Sample.antt =====
-- A capture with one packet for the tests of the end of a COPY, src/pqcap_copy_function.cpp.
use duckdb_pqcap_reader.Base.{
  ◌≡◌, refl, ◌∷◌, [], ◌++◌, some, none, true, false, List, take, ok, if◌then◌else◌,
}
use duckdb_pqcap_reader.Words.{Bytes, codes, le_bytes}
use duckdb_pqcap_reader.Words.Equality.{same_bytes}
use duckdb_pqcap_reader.Stdio.{Disk, FilePath, store}
use duckdb_pqcap_reader.Scan.{PacketLocation, scan_bytes, scan_loop, packet_location, read_le32}
use duckdb_pqcap_reader.Copy.Sink.{PacketRowData, PqcapCopyGlobalState}
use duckdb_pqcap_reader.Metadata.Writer.{SqlEngine, write_metadata_parquet_via_sql}
use duckdb_pqcap_reader.Finalize.{DuckdbPaths, resolve_capture_path}

-- A Simple Packet Block with a packet of four bytes.
abbrev pub capture : Bytes
capture = le_bytes 4 3 ++ (le_bytes 4 20 ++ (le_bytes 4 4 ++ (1 ∷ 2 ∷ 3 ∷ 4 ∷ le_bytes 4 20)))

abbrev pub locations : List PacketLocation
locations = record { offset = 12; size = 4 } ∷ []

pub scanned : scan_bytes capture ≡ ok locations
unfolding scan_bytes scan_loop packet_location read_le32
scanned = refl

abbrev pub row : PacketRowData
row = record {
  ts_micros = 1;
  orig_len = 4;
  captured_length = 4;
  interface_id = 0;
  data_link = 1;
  comment = [];
  packet_bytes = 1 ∷ 2 ∷ 3 ∷ 4 ∷ [];
  src_ip = [];
  dst_ip = [];
  has_src_port = false;
  has_dst_port = false;
  src_port = 0;
  dst_port = 0;
  protocols = [];
}

abbrev pub state_of : List PacketRowData → PqcapCopyGlobalState
state_of rows = record { written = []; rows = rows }

abbrev pub capture_path : FilePath
capture_path = codes "out"

abbrev pub temp : FilePath
temp = codes "out.tmp.meta.parquet"

abbrev pub parquet : Bytes
parquet = codes "PAR1"

abbrev pub disk : Disk
disk path = if same_bytes path capture_path then some capture else none

-- A COPY stores the Parquet bytes, and every other query does nothing.
abbrev pub engine : SqlEngine
engine = record {
  Connection = Unit {0};
  connect = tt;
  query = λ sql con d.
      (none, tt, if same_bytes (take 4 sql) (codes "COPY") then store temp parquet d else d);
}

-- Every path exists.
abbrev pub paths : DuckdbPaths
paths = record {
  file_exists = λ path d. true;
  get_file_path = λ path. path;
  get_file_name = λ path. path;
  starts_with = λ s start. false;
  join_path = λ path name. name;
}

pub resolved : resolve_capture_path paths capture_path disk ≡ capture_path
unfolding resolve_capture_path
resolved = refl

abbrev pub keep : Bytes → Bytes
keep s = s

pub wrote :
    write_metadata_parquet_via_sql keep engine (codes "t") temp (row ∷ []) locations 1 disk
    ≡ (ok tt, store temp parquet disk)
unfolding write_metadata_parquet_via_sql
wrote = refl
