-- ===== src/Classic/Runs.antt =====
-- Runs of the classic pcap reader of src/pqcap_packet_table.cpp, and its theorems at a small file.
use duckdb_pqcap_reader.Base.{
  ◌≡◌, refl, ok, some, none, true, List, ◌++◌, ◌∷◌, [], arith, if◌then◌else◌, Returns,
}
use duckdb_pqcap_reader.Words.{codes}
use duckdb_pqcap_reader.Words.Equality.{same_bytes}
use duckdb_pqcap_reader.Stdio.{Disk, FilePath}
use duckdb_pqcap_reader.Classic.{detect_capture_format, open_classic, classic_pcap}
use duckdb_pqcap_reader.Classic.Records.{PcapRecord}
use duckdb_pqcap_reader.Classic.Header.{
  PcapHeader, encode_header, encode_records, packets_of, Reads, classic-Reads,
}

-- A file of the other byte order, with nanoseconds.
abbrev header : PcapHeader
header = record {
  swap = true;
  nanoseconds = true;
  version_major = 2;
  version_minor = 4;
  thiszone = 0;
  sigfigs = 0;
  snaplen = 65535;
  linktype = 1;
}

abbrev records : List PcapRecord
records =
    record { ts_sec = 1700000000; ts_sub = 5; orig_len = 60; bytes = 1 ∷ 2 ∷ 3 ∷ [] }
    ∷ record { ts_sec = 1700000001; ts_sub = 0; orig_len = 0; bytes = [] }
    ∷ []

abbrev path : FilePath
path = codes "a.pcap"

abbrev disk : Disk
disk p =
    if same_bytes p path then some (encode_header header ++ encode_records true records) else none

classic-Reads_example :
    (detect_capture_format path disk ≡ ok classic_pcap)
    × Returns (λ r. Reads r (packets_of header records)) (open_classic path disk)
classic-Reads_example = classic-Reads header records path disk (omega arith) (omega arith) refl
