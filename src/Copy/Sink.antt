-- ===== src/Copy/Sink.antt =====
-- `PcapngWriteSink` of src/pqcap_copy_function.cpp: the packets that the copy function writes, and the
-- rows that it keeps for the index. What `light_write_packet` is given is recorded in order.
pub mod Packets
pub mod Safe
use duckdb_pqcap_reader.Base.{
  ℕ, ◌*◌, ◌/◌, ◌%◌, ◌^◌, List, [], ◌∷◌, ◌++◌, Option, none, some, Bool, true, false, ◌==◌,
  if◌then◌else◌, length,
}
use duckdb_pqcap_reader.Base.{Result, ok, throw, fault, ◌>>=◌, io_exception}
use duckdb_pqcap_reader.Words.{Bytes, codes}
use duckdb_pqcap_reader.Classic.{LightPacketHeader}
use duckdb_pqcap_reader.Copy.{DuckdbValues, PqcapCopyBindData, parse_uint64}

pub record PacketRowData : Type 0 where
  pub ts_micros : ℕ
  pub orig_len : ℕ
  pub captured_length : ℕ
  pub interface_id : ℕ
  pub data_link : ℕ
  pub comment : Bytes
  pub packet_bytes : Bytes
  pub src_ip : Bytes
  pub dst_ip : Bytes
  pub has_src_port : Bool
  pub has_dst_port : Bool
  pub src_port : ℕ
  pub dst_port : ℕ
  pub protocols : Bytes

pub record PqcapCopyGlobalState : Type 0 where
  pub written : List (LightPacketHeader × Bytes)
  pub rows : List PacketRowData

-- The number that is there, or what the row has where it is not.
abbrev pub number_or : ℕ → Option ℕ → ℕ
number_or n none = n
number_or n (some m) = m

abbrev pub text_or_empty : Option Bytes → Bytes
text_or_empty none = []
text_or_empty (some s) = s

abbrev pub is_there : Option ℕ → Bool
is_there none = false
is_there (some n) = true

-- The header for `light_write_packet`. Fields that the code leaves at zero stay so.
unfoldable pub header_of_row : PqcapCopyBindData → PacketRowData → LightPacketHeader
header_of_row cfg row = record {
  interface_id = row.interface_id % 2 ^ 32;
  captured_length = length row.packet_bytes % 2 ^ 32;
  original_length = row.orig_len % 2 ^ 32;
  data_link = if row.data_link == 0 then cfg.linktype else row.data_link;
  tv_sec = row.ts_micros / 1000000;
  tv_nsec = row.ts_micros % 1000000 * 1000;
  comment = none;
}

unfoldable pub push_row :
    PqcapCopyBindData → PacketRowData → PqcapCopyGlobalState → PqcapCopyGlobalState
push_row cfg row state = record {
  written = state.written ++ (header_of_row cfg row, row.packet_bytes) ∷ [];
  rows = state.rows ++ row ∷ [];
}

-- A row of a chunk maps a column's index to its value.
module _ (duckdb : DuckdbValues) where
  abbrev pub Columns : Type 0
  Columns = ℕ → duckdb.Value

  -- `input.GetValue(idx, r)` for a column that the binding requires.
  required : Columns → Option ℕ → Result duckdb.Value
  required columns none = fault
  required columns (some i) = ok (columns i)

  -- A column that may be missing or NULL.
  optional_uint64 : Columns → Option ℕ → Bytes → Result (Option ℕ)
  optional_uint64 columns none name = ok none
  optional_uint64 columns (some i) name =
      if duckdb.is_null (columns i)
      then ok none
      else do v ← parse_uint64 duckdb (columns i) name; ok (some v)

  optional_text : Columns → Option ℕ → Option Bytes
  optional_text columns none = none
  optional_text columns (some i) =
      if duckdb.is_null (columns i) then none else some (duckdb.get_string (columns i))

  lowered : Option Bytes → Bytes
  lowered none = []
  lowered (some s) = duckdb.lower s

  payload_text : duckdb.Value → Result Bytes
  payload_text payload =
      if duckdb.is_null payload
      then throw (io_exception "payload cannot be NULL" [])
      else ok (duckdb.get_string payload)

  unfoldable pub sink_row : PqcapCopyBindData → Columns → Result PacketRowData
  unfolding required optional_uint64 optional_text payload_text lowered
  sink_row cfg columns = do
    timestamp ← required columns cfg.idx_timestamp_micros
    ts_micros ← parse_uint64 duckdb timestamp (codes "timestamp_micros")
    original ← required columns cfg.idx_orig_len
    orig_len ← parse_uint64 duckdb original (codes "orig_len")
    payload ← required columns cfg.idx_payload
    packet_bytes ← payload_text payload
    interface_id ← optional_uint64 columns cfg.idx_interface_id (codes "interface_id")
    data_link ← optional_uint64 columns cfg.idx_data_link (codes "data_link")
    captured ← optional_uint64 columns cfg.idx_captured_length (codes "captured_length")
    src_port ← optional_uint64 columns cfg.idx_src_port (codes "src_port")
    dst_port ← optional_uint64 columns cfg.idx_dst_port (codes "dst_port")
    ok (record {
      ts_micros = ts_micros;
      orig_len = orig_len;
      captured_length = number_or (length packet_bytes) captured;
      interface_id = number_or 0 interface_id;
      data_link = number_or 0 data_link % 2 ^ 16;
      comment = text_or_empty (optional_text columns cfg.idx_comment);
      packet_bytes = packet_bytes;
      src_ip = text_or_empty (optional_text columns cfg.idx_src_ip);
      dst_ip = text_or_empty (optional_text columns cfg.idx_dst_ip);
      has_src_port = is_there src_port;
      has_dst_port = is_there dst_port;
      src_port = number_or 0 src_port % 2 ^ 32;
      dst_port = number_or 0 dst_port % 2 ^ 32;
      protocols = lowered (optional_text columns cfg.idx_protocols);
    })

  -- The rows of a chunk. An exception leaves the rows before it written.
  unfoldable pub pcapng_write_sink :
      PqcapCopyBindData
      → List Columns
      → PqcapCopyGlobalState
      → Result (Unit {0}) × PqcapCopyGlobalState
  pcapng_write_sink cfg [] state = (ok tt, state)
  pcapng_write_sink cfg (columns ∷ input) state = elim (sink_row cfg columns) [
    | throw e ↦ (throw e, state)
    | fault ↦ (fault, state)
    | ok row ↦ pcapng_write_sink cfg input (push_row cfg row state)
  ]
