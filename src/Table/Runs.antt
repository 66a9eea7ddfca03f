-- ===== src/Table/Runs.antt =====
-- The theorem on `read_pqcap_packets`, src/pqcap_packet_table.cpp, at a small file.
use duckdb_pqcap_reader.Base.{
  ℕ, ◌≡◌, ◌≤◌, refl, ok, some, none, true, List, length, ◌++◌, ◌∷◌, [], arith, if◌then◌else◌,
  String, All,
}
use duckdb_pqcap_reader.Words.{Bytes, codes}
use duckdb_pqcap_reader.Words.Equality.{same_bytes}
use duckdb_pqcap_reader.Stdio.{Disk, FilePath}
use duckdb_pqcap_reader.Classic.Records.{PcapRecord}
use duckdb_pqcap_reader.Classic.Header.{PcapHeader, encode_header, encode_records, packets_of}
use duckdb_pqcap_reader.Table.{LightPcapng, PacketRow, GlobalState, init_global}
use duckdb_pqcap_reader.Classic.{LightPacketHeader}
use duckdb_pqcap_reader.Table.{packet_row}
use duckdb_pqcap_reader.Table.Bind.{
  PqcapPacketsBindData, packet_types, packet_names, read_pqcap_packets_bind,
}
use duckdb_pqcap_reader.Table.Bind.Typed.{Made, read_pqcap_packets_bind-Made}
use duckdb_pqcap_reader.Table.Rows.{RowsOf}
use duckdb_pqcap_reader.Table.Batches.{Batches, concat, read_pqcap_packets-Batches}

abbrev format : String → List ℕ → Bytes
format template numbers = numbers

-- A library that opens nothing.
abbrev no_pcapng : LightPcapng
no_pcapng = record { Reader = Unit {0}; open_read = λ path disk. none; get_next_packet = λ r. none }

-- A file of the other byte order, with nanoseconds.
abbrev header : PcapHeader
header = record {
  swap = true;
  nanoseconds = true;
  version_major = 2;
  version_minor = 4;
  thiszone = 0;
  sigfigs = 0;
  snaplen = 65535;
  linktype = 1;
}

abbrev records : List PcapRecord
records =
    record { ts_sec = 1700000000; ts_sub = 5; orig_len = 60; bytes = 1 ∷ 2 ∷ 3 ∷ [] }
    ∷ record { ts_sec = 1700000001; ts_sub = 0; orig_len = 0; bytes = [] }
    ∷ []

abbrev path : FilePath
path = codes "a.pcap"

abbrev disk : Disk
disk p =
    if same_bytes p path then some (encode_header header ++ encode_records true records) else none

-- With vectors of one row there is a batch for each packet.
read_pqcap_packets-Batches_example :
    (s : GlobalState no_pcapng) × (batches : List (List PacketRow)) × (init_global no_pcapng path
        disk
      ≡ ok s)
    × Batches format no_pcapng 1 s batches
    × RowsOf format (packets_of header records) (concat batches)
    × All (λ rows. length rows ≤ 1) batches
read_pqcap_packets-Batches_example =
    read_pqcap_packets-Batches format no_pcapng 0 header records path disk (omega arith)
      (omega arith) refl

abbrev packet : LightPacketHeader × Bytes
packet = (
  record {
    interface_id = 0;
    captured_length = 3;
    original_length = 60;
    data_link = 1;
    tv_sec = 1700000000;
    tv_nsec = 5000;
    comment = none;
  },
  1 ∷ 2 ∷ 3 ∷ [],
)

abbrev bound : PqcapPacketsBindData
bound = record { source_path = path; return_types = packet_types; names = packet_names }

binds : read_pqcap_packets_bind (some path ∷ []) ≡ ok bound
unfolding read_pqcap_packets_bind
binds = refl

read_pqcap_packets_bind-Made_example :
    (some path ∷ [] ≡ some path ∷ [])
    × (length bound.names ≡ length bound.return_types)
    × Made bound.return_types packet.0 (packet_row format packet.0 (some packet.1))
read_pqcap_packets_bind-Made_example =
    read_pqcap_packets_bind-Made format (some path ∷ []) bound packet.0 packet.1 binds (omega arith)
      refl
