-- ===== src/Copy/Sink/Packets.antt =====
-- What the sink of src/pqcap_copy_function.cpp writes, and what the table function of
-- src/pqcap_packet_table.cpp reads of it.
use duckdb_pqcap_reader.Base.{
  ℕ, ◌<◌, ◌^◌, ◌≡◌, refl, sym, ap, ◌∙◌, arith, List, [], ◌∷◌, ◌++◌, append_assoc, append-nil,
  length,
}
use duckdb_pqcap_reader.Base.{String, Exception, Result, ok, throw, fault, ◌==◌, if◌then◌else◌}
use duckdb_pqcap_reader.Words.{Bytes, IsU32}
use duckdb_pqcap_reader.Classic.{LightPacketHeader}
use duckdb_pqcap_reader.Copy.{DuckdbValues, PqcapCopyBindData}
use duckdb_pqcap_reader.Copy.Sink.{
  PacketRowData, PqcapCopyGlobalState, Columns, header_of_row, push_row, sink_row,
  pcapng_write_sink,
}
use duckdb_pqcap_reader.Table.{PacketRow, set_row, text_or_null}
use duckdb_pqcap_reader.Table.Rows.{IsWhole, RowOf}

-- The packets for these rows.
abbrev pub packets : PqcapCopyBindData → List PacketRowData → List (LightPacketHeader × Bytes)
packets cfg [] = []
packets cfg (row ∷ rows) = (header_of_row cfg row, row.packet_bytes) ∷ packets cfg rows

module _ (duckdb : DuckdbValues) (cfg : PqcapCopyBindData) where
  -- The rows of a chunk up to the first one that is refused, and how the call ends.
  pub data Stored : List (Columns duckdb) → List PacketRowData → Result (Unit {0}) → Type 0 where
    all_stored : Stored [] [] (ok tt)
    stored :
        {columns : Columns duckdb} {input : List (Columns duckdb)} {row : PacketRowData}
        {rows : List PacketRowData} {r : Result (Unit {0})}
        → sink_row duckdb cfg columns ≡ ok row
        → Stored input rows r
        → Stored (columns ∷ input) (row ∷ rows) r
    refused :
        {columns : Columns duckdb} {input : List (Columns duckdb)} {e : Exception}
        → sink_row duckdb cfg columns ≡ throw e
        → Stored (columns ∷ input) [] (throw e)
    undefined :
        {columns : Columns duckdb} {input : List (Columns duckdb)}
        → sink_row duckdb cfg columns ≡ fault
        → Stored (columns ∷ input) [] fault

  abbrev pub Sunk :
      List (Columns duckdb)
      → PqcapCopyGlobalState
      → Result (Unit {0}) × PqcapCopyGlobalState
      → Type 0
  Sunk input state outcome =
      (rows : List PacketRowData) × Stored input rows outcome.0
      × (outcome.1.rows ≡ state.rows ++ rows)
      × (outcome.1.written ≡ state.written ++ packets cfg rows)

  -- One row in front of the others.
  Sunk-cons :
      (columns : Columns duckdb) (input : List (Columns duckdb)) (state : PqcapCopyGlobalState)
      → ((row : PacketRowData)
          → Sunk input
              (push_row cfg row state)
              (pcapng_write_sink duckdb cfg input (push_row cfg row state)))
      → (r : Result PacketRowData) → sink_row duckdb cfg columns ≡ r
      → Sunk (columns ∷ input) state (pcapng_write_sink duckdb cfg (columns ∷ input) state)
  unfolding pcapng_write_sink push_row
  Sunk-cons columns input state rest (throw e) h =
      rw (pcapng_write_sink, h)
        ([], refused h, sym (append-nil state.rows), sym (append-nil state.written))
  Sunk-cons columns input state rest fault h =
      rw (pcapng_write_sink, h)
        ([], undefined h, sym (append-nil state.rows), sym (append-nil state.written))
  Sunk-cons columns input state rest (ok row) h =
      let (rows, kept, in_rows, in_packets) = rest row in
      let packet : LightPacketHeader × Bytes = (header_of_row cfg row, row.packet_bytes) in
      rw (pcapng_write_sink, h)
        (
          row ∷ rows,
          stored h kept,
          in_rows ∙ append_assoc state.rows (row ∷ []) rows,
          in_packets ∙ append_assoc state.written (packet ∷ []) (packets cfg rows),
        )

  -- One call of the sink appends, for each row of the chunk in order and up to the first row that it
  -- refuses, one row for the index and one packet for the capture: the two stay in step, also when
  -- an exception ends the call.
  pub pcapng_write_sink-Sunk :
      (input : List (Columns duckdb)) (state : PqcapCopyGlobalState)
      → Sunk input state (pcapng_write_sink duckdb cfg input state)
  unfolding pcapng_write_sink push_row
  pcapng_write_sink-Sunk [] state =
      ([], all_stored, sym (append-nil state.rows), sym (append-nil state.written))
  pcapng_write_sink-Sunk (columns ∷ input) state =
      Sunk-cons columns input state (λ row. pcapng_write_sink-Sunk input (push_row cfg row state))
        (sink_row duckdb cfg columns) refl

-- The numbers that fit the header's fields, and a time that an int64 holds.
pub record FitsHeader (row : PacketRowData) : Type 0 where
  pub original_fits : IsU32 row.orig_len
  pub bytes_fit : IsU32 (length row.packet_bytes)
  pub time_fits : row.ts_micros < 2 ^ 63

-- A packet that was written, and one that is handed out: the interface and the comment may differ.
pub record SamePacket (written read : LightPacketHeader × Bytes) : Type 0 where
  pub same_captured : read.0.captured_length ≡ written.0.captured_length
  pub same_original : read.0.original_length ≡ written.0.original_length
  pub same_link : read.0.data_link ≡ written.0.data_link
  pub same_sec : read.0.tv_sec ≡ written.0.tv_sec
  pub same_nsec : read.0.tv_nsec ≡ written.0.tv_nsec
  pub same_bytes : read.1 ≡ written.1

abbrev pub packet_of : PqcapCopyBindData → PacketRowData → LightPacketHeader × Bytes
packet_of cfg row = (header_of_row cfg row, row.packet_bytes)

pub SamePacket-IsWhole :
    (cfg : PqcapCopyBindData) (row : PacketRowData) (p : LightPacketHeader × Bytes)
    → FitsHeader row
    → SamePacket (packet_of cfg row) p
    → IsWhole p
unfolding header_of_row
SamePacket-IsWhole cfg row p v same =
    let bytes_fit = v.bytes_fit in
    let time_fits = v.time_fits in
    let captured = same.same_captured in
    let sec = same.same_sec in
    let nsec = same.same_nsec in
    let size = ap (λ (b : Bytes). length b) same.same_bytes in
    record { same_length = omega arith; length_fits = omega arith; time_fits = omega arith }

-- What of a row comes back.
pub record KeepsRow (cfg : PqcapCopyBindData) (row : PacketRowData) (r : PacketRow) : Type 0 where
  pub same_time : r.timestamp_micros ≡ row.ts_micros
  pub link_type : r.data_link ≡ (if row.data_link == 0 then cfg.linktype else row.data_link)
  pub captured : r.captured_length ≡ length row.packet_bytes
  pub same_original : r.orig_len ≡ row.orig_len
  pub same_payload : r.payload ≡ text_or_null row.packet_bytes

-- A row that `read_pqcap_packets` makes of a packet that the copy function wrote.
pub RowOf-KeepsRow :
    (format : String → List ℕ → Bytes) (cfg : PqcapCopyBindData) (row : PacketRowData)
    (p : LightPacketHeader × Bytes) (r : PacketRow)
    → FitsHeader row
    → SamePacket (packet_of cfg row) p
    → RowOf format p r
    → KeepsRow cfg row r
unfolding header_of_row set_row
RowOf-KeepsRow format cfg row p r v same (parsed, dissected, is_row) =
    let original_fits = v.original_fits in
    let bytes_fit = v.bytes_fit in
    let captured = same.same_captured in
    let original = same.same_original in
    let sec = same.same_sec in
    let nsec = same.same_nsec in
    record {
      same_time = ap (λ (t : PacketRow). t.timestamp_micros) is_row ∙ omega arith;
      link_type = ap (λ (t : PacketRow). t.data_link) is_row ∙ same.same_link;
      captured = ap (λ (t : PacketRow). t.captured_length) is_row ∙ omega arith;
      same_original = ap (λ (t : PacketRow). t.orig_len) is_row ∙ omega arith;
      same_payload = ap (λ (t : PacketRow). t.payload) is_row ∙ ap text_or_null same.same_bytes;
    }
