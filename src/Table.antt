-- ===== src/Table.antt =====
-- The table function `read_pqcap_packets` of src/pqcap_packet_table.cpp: `TimestampMicros`,
-- `ReadPqcapPacketsInitGlobal` and `ReadPqcapPacketsFunction`. The reader of LightPcapNg and the size
-- of DuckDB's vectors are not code of the repository, so they are parameters.
pub mod Rows
pub mod Batches
pub mod Bind
pub mod Pcapng
mod Runs
use duckdb_pqcap_reader.Base.{
  ℕ, zero, suc, ◌+◌, ◌*◌, ◌/◌, ◌%◌, List, [], ◌∷◌, Option, none, some, Bool, true, false,
}
use duckdb_pqcap_reader.Base.{
  String, ltb, leb, ◌==◌, ◌^◌, if◌then◌else◌, length, take, Result, ok, throw, fault, ◌>>=◌,
  io_exception,
}
use duckdb_pqcap_reader.Words.{Bytes}
use duckdb_pqcap_reader.Stdio.{Disk, FilePath}
use duckdb_pqcap_reader.Classic.{
  LightPacketHeader, ClassicPcapReader, CaptureReaderKind, pcapng, classic_pcap,
}
use duckdb_pqcap_reader.Classic.{detect_capture_format, open_classic, next}
use duckdb_pqcap_reader.Layers.{ParsedL4Fields, parse_l4_fields}

-- The calls of LightPcapNg: `none` is a null pointer, and for `light_get_next_packet` the result 0.
pub record LightPcapng : Type 1 where
  pub Reader : Type 0
  pub open_read : FilePath → Disk → Option Reader
  pub get_next_packet : Reader → Option (LightPacketHeader × Option Bytes × Reader)

-- The twelve columns; `none` is NULL.
pub record PacketRow : Type 0 where
  pub timestamp_micros : ℕ
  pub interface_id : ℕ
  pub data_link : ℕ
  pub captured_length : ℕ
  pub orig_len : ℕ
  pub comment : Option Bytes
  pub src_ip : Option Bytes
  pub dst_ip : Option Bytes
  pub src_port : Option ℕ
  pub dst_port : Option ℕ
  pub l4_protocol : Bytes
  pub payload : Option Bytes

-- The time of a header in microseconds.
abbrev pub micros : LightPacketHeader → ℕ
micros header = header.tv_sec * 1000000 + header.tv_nsec / 1000

-- An int64 product and sum, of numbers that are not negative here; their overflow is undefined.
unfoldable pub timestamp_micros_of : LightPacketHeader → Result ℕ
timestamp_micros_of header = if ltb (micros header) (2 ^ 63) then ok (micros header) else fault

-- `s.empty() ? Value(type) : Value(s)`
abbrev pub text_or_null : Bytes → Option Bytes
text_or_null [] = none
text_or_null (b ∷ s) = some (b ∷ s)

-- The comment of a header, an empty text where there is none.
abbrev pub comment_of : LightPacketHeader → Bytes
comment_of header = elim header.comment [ none ↦ [] | some text ↦ text ]

-- `packet_bytes` and `packet_ptr` as they are handed on: a copy of `n` bytes, or nothing. Copying
-- more bytes than the pointer has is a `fault`.
unfoldable pub packet_copy : ℕ → Option Bytes → Result (Option Bytes)
packet_copy n none = ok none
packet_copy n (some data_bytes) =
    if n == 0
    then ok none
    else if leb n (length data_bytes)
    then ok (some (take n data_bytes))
    else fault

abbrev pub packet_size : Option Bytes → ℕ
packet_size none = 0
packet_size (some bytes) = length bytes

unfoldable pub set_row : ℕ → LightPacketHeader → Option Bytes → ParsedL4Fields → PacketRow
set_row timestamp header packet parsed = record {
  timestamp_micros = timestamp;
  interface_id = header.interface_id;
  data_link = header.data_link;
  captured_length = header.captured_length;
  orig_len = header.original_length;
  comment = text_or_null (comment_of header);
  src_ip = text_or_null parsed.src_ip;
  dst_ip = text_or_null parsed.dst_ip;
  src_port = if parsed.has_ports then some parsed.src_port else none;
  dst_port = if parsed.has_ports then some parsed.dst_port else none;
  l4_protocol = parsed.l4_protocol;
  payload = packet;
}

module _ (lib : LightPcapng) where
  -- The reader that `kind` names.
  pub data CaptureReader : Type 0 where
    of_pcapng : lib.Reader → CaptureReader
    of_classic : ClassicPcapReader → CaptureReader

  pub record GlobalState : Type 0 where
    pub reader : CaptureReader
    pub finished : Bool

  open_reader : FilePath → Disk → CaptureReaderKind → Result CaptureReader
  open_reader source_path disk pcapng = elim (lib.open_read source_path disk) [
    | none ↦
        throw
          (io_exception "read_pqcap_packets: failed to open pcapng file '%s'" (source_path ∷ []))
    | some r ↦ ok (of_pcapng r)
  ]
  open_reader source_path disk classic_pcap = do
    r ← open_classic source_path disk
    ok (of_classic r)

  unfoldable pub init_global : FilePath → Disk → Result GlobalState
  unfolding open_reader
  init_global source_path disk = do
    kind ← detect_capture_format source_path disk
    reader ← open_reader source_path disk kind
    ok (record { reader = reader; finished = false })

  -- The next packet and the reader behind it. The bytes of a classic packet are always there.
  unfoldable pub next_packet :
      CaptureReader → Result (Option (LightPacketHeader × Option Bytes) × CaptureReader)
  next_packet (of_pcapng r) = elim (lib.get_next_packet r) [
    | none ↦ ok (none, of_pcapng r)
    | some (header, packet_ptr, r') ↦ ok (some (header, packet_ptr), of_pcapng r')
  ]
  next_packet (of_classic r) = do
    (found, r') ← next r
    elim found [
      | none ↦ ok (none, of_classic r')
      | some (header, packet_bytes) ↦ ok (some (header, some packet_bytes), of_classic r')
    ]

module _ (format : String → List ℕ → Bytes) where
  unfoldable pub packet_row : LightPacketHeader → Option Bytes → Result PacketRow
  packet_row header packet_ptr = do
    packet ← packet_copy header.captured_length packet_ptr
    parsed ← parse_l4_fields format header.data_link packet (packet_size packet % 2 ^ 32)
    timestamp ← timestamp_micros_of header
    ok (set_row timestamp header packet parsed)

  module _ (lib : LightPcapng) where
    -- The rounds that are left. An exception loses the rows of its batch.
    unfoldable pub read_rows : ℕ → GlobalState lib → Result (List PacketRow × GlobalState lib)
    read_rows zero state = ok ([], state)
    read_rows (suc rounds) state = do
      (found, reader) ← next_packet lib state.reader
      elim found [
        | none ↦ ok ([], record { reader = reader; finished = true })
        | some (header, packet_ptr) ↦ do
          row ← packet_row header packet_ptr
          (rows, state') ← read_rows rounds (record state { reader = reader })
          ok (row ∷ rows, state')
      ]

    unfoldable pub read_pqcap_packets_function :
        ℕ → GlobalState lib → Result (List PacketRow × GlobalState lib)
    read_pqcap_packets_function standard_vector_size state =
        if state.finished then ok ([], state) else read_rows standard_vector_size state
