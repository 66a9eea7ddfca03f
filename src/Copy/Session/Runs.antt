-- ===== src/Copy/Session/Runs.antt =====
-- Two threads of a COPY, src/pqcap_copy_function.cpp, one of which meets a NULL payload.
use duckdb_pqcap_reader.Base.{
  Defined, with_value, with_exception, Option, All, length, ◌≤◌, arith, ◌≡◌, refl, List, [], ◌∷◌,
  some, true, false, ok, none,
}
use duckdb_pqcap_reader.Words.{Bytes, codes}
use duckdb_pqcap_reader.Stdio.{Disk, FilePath}
use duckdb_pqcap_reader.Copy.{
  PqcapCopyBindData, parse_uint64, find_column_idx, LogicalTypeId, blob, other_type,
  pcapng_write_bind, payload_is_blob,
}
use duckdb_pqcap_reader.Copy.Sink.{Columns, PacketRowData, PqcapCopyGlobalState, sink_row}
use duckdb_pqcap_reader.Copy.Sink.Packets.{packets}
use duckdb_pqcap_reader.Copy.Cells.{
  Cell, number, cast, names, cells, cfg_of, row_with, text, null, empty,
}
use duckdb_pqcap_reader.Copy.Session.Progress.{Released, pcapng_write-Released}
use duckdb_pqcap_reader.Copy.Sink.{header_of_row}
use duckdb_pqcap_reader.Copy.ReadBack.{KeepRows, copy-KeepRows}
use duckdb_pqcap_reader.Classic.{LightPacketHeader}
use duckdb_pqcap_reader.Table.{LightPcapng, PacketRow, GlobalState, init_global}
use duckdb_pqcap_reader.Table.Batches.{Batches, concat}
use duckdb_pqcap_reader.Table.Pcapng.{next_one, no_packet}
use duckdb_pqcap_reader.Copy.Session.{
  Machine, LightWriter, pcapng_write_initialize_global, Log, Reach, started, stepped, idle, writing,
  enter, write, keep, refuse, leave, write_packet, keep_row,
}
use duckdb_pqcap_reader.Copy.Session.Serial.{sink_all, pcapng_write-serial}

-- A writer that opens every path.
abbrev pub writer : LightWriter
writer = record {
  FileInfo = Unit {0};
  create_default_file_info = some tt;
  set_interfaces = λ count link_type info. info;
  open_write = λ path info disk. (true, disk);
}

abbrev pub cfg : PqcapCopyBindData
cfg = cfg_of (codes "pqcap")

abbrev bytes : Bytes
bytes = 1 ∷ 2 ∷ 3 ∷ 4 ∷ []

-- What the sink makes of a row with these bytes.
abbrev pub row : PacketRowData
row = record {
  ts_micros = 60;
  orig_len = 60;
  captured_length = 4;
  interface_id = 0;
  data_link = 0;
  comment = [];
  packet_bytes = bytes;
  src_ip = [];
  dst_ip = [];
  has_src_port = false;
  has_dst_port = false;
  src_port = 0;
  dst_port = 0;
  protocols = [];
}

accepted : sink_row cells cfg (row_with (text bytes)) ≡ ok row
unfolding sink_row parse_uint64 find_column_idx
accepted = refl

abbrev pub log : Log cells
log = (1, row_with (text bytes) ∷ []) ∷ (2, row_with null ∷ []) ∷ []

abbrev pub state : PqcapCopyGlobalState
state = keep_row row (write_packet cfg row empty)

pub reached : Reach cells cfg empty log (record { state = state; phase = idle })
unfolding sink_row parse_uint64 find_column_idx
reached =
    stepped
      (stepped
        (stepped
          (stepped
            (stepped (stepped started (enter 1 (row_with (text bytes) ∷ []))) (write accepted))
            keep)
          leave)
        (enter 2 (row_with null ∷ [])))
      (refuse refl)

pub initialized :
    (path : FilePath) (disk : Disk)
    → pcapng_write_initialize_global writer cfg path disk ≡ (ok (empty, path), disk)
unfolding pcapng_write_initialize_global
initialized path disk = refl

pcapng_write-serial_example :
    (state ≡ sink_all cells cfg log empty)
    × (state.written ≡ packets cfg state.rows)
    × (codes "out" ≡ codes "out")
pcapng_write-serial_example =
    pcapng_write-serial cells cfg writer (codes "out") (codes "out") (λ path. none) (λ path. none)
      empty log state (initialized (codes "out") (λ path. none)) reached

abbrev next_of :
    List (LightPacketHeader × Bytes)
    → Option (LightPacketHeader × Option Bytes × List (LightPacketHeader × Bytes))
next_of [] = none
next_of ((header, packet) ∷ written) = some (header, some packet, written)

-- The packet, as one of another interface.
abbrev read_back : List (LightPacketHeader × Bytes)
read_back = (record (header_of_row cfg row) { interface_id = 7 }, bytes) ∷ []

-- A library that reads what the writer was given.
abbrev reader : LightPcapng
reader = record {
  Reader = List (LightPacketHeader × Bytes);
  open_read = λ path disk. some read_back;
  get_next_packet = next_of;
}

abbrev pcapng_disk : Disk
pcapng_disk path = some (10 ∷ 13 ∷ 13 ∷ 10 ∷ [])

copy-KeepRows_example :
    (s : GlobalState reader) × (batches : List (List PacketRow)) × (init_global reader
        (codes "out")
        pcapng_disk
      ≡ ok s)
    × Batches (λ template numbers. numbers) reader 1 s batches
    × KeepRows cfg state.rows (concat batches)
    × All (λ rows. length rows ≤ 1) batches
copy-KeepRows_example =
    copy-KeepRows cells writer reader (λ template numbers. numbers) cfg (codes "out") (codes "out")
      (codes "out") (λ path. none) (λ path. none) pcapng_disk empty state log [] read_back read_back
      0 (initialized (codes "out") (λ path. none)) reached (omega arith) refl refl
      (next_one {r' = []} refl (no_packet refl))
      (
        record {
          same_captured = refl;
          same_original = refl;
          same_link = refl;
          same_sec = refl;
          same_nsec = refl;
          same_bytes = refl;
        },
        tt,
      )

abbrev options : List (Bytes × List Cell)
options = (codes "mode", text (codes "pqcap") ∷ []) ∷ (codes "linktype", number 101 ∷ []) ∷ []

abbrev types : List LogicalTypeId
types = blob ∷ other_type ∷ other_type ∷ other_type ∷ []

bound : pcapng_write_bind cells options names types ≡ ok cfg
unfolding pcapng_write_bind find_column_idx parse_uint64 payload_is_blob
bound = refl

cast-Defined : (value : Cell) → Defined (cast value)
cast-Defined null = with_value
cast-Defined (number n) = with_value
cast-Defined (text s) = with_exception

-- The first thread has written its packet and not yet kept the row.
abbrev halfway : Machine cells
halfway = record { state = write_packet cfg row empty; phase = writing 1 row [] }

pcapng_write-Released_example :
    Released cells cfg halfway × ((columns : Columns cells) → Defined (sink_row cells cfg columns))
pcapng_write-Released_example =
    pcapng_write-Released cells options names types cfg halfway cast-Defined bound
