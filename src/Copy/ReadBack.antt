-- ===== src/Copy/ReadBack.antt =====
-- A COPY of src/pqcap_copy_function.cpp whose output `read_pqcap_packets`, src/pqcap_packet_table.cpp, reads.
-- That LightPcapNg's reader hands out what its writer was given, the interface aside, is a hypothesis.
use duckdb_pqcap_reader.Base.{ℕ, suc, ◌≡◌, ◌≤◌, List, [], ◌∷◌, some, ok, String, All, length}
use mathlib.Core.Path.{subst}
use duckdb_pqcap_reader.Words.{Bytes}
use duckdb_pqcap_reader.Classic.{LightPacketHeader}
use duckdb_pqcap_reader.Stdio.{Disk, FilePath}
use duckdb_pqcap_reader.Copy.{DuckdbValues, PqcapCopyBindData}
use duckdb_pqcap_reader.Copy.Sink.{PacketRowData, PqcapCopyGlobalState}
use duckdb_pqcap_reader.Copy.Sink.Packets.{
  packets, FitsHeader, SamePacket, SamePacket-IsWhole, KeepsRow, RowOf-KeepsRow,
}
use duckdb_pqcap_reader.Copy.Session.{LightWriter, pcapng_write_initialize_global, Log, Reach, idle}
use duckdb_pqcap_reader.Copy.Session.Serial.{pcapng_write-serial}
use duckdb_pqcap_reader.Table.{LightPcapng, PacketRow, of_pcapng, GlobalState, init_global}
use duckdb_pqcap_reader.Table.Rows.{IsWhole, RowsOf}
use duckdb_pqcap_reader.Table.Batches.{Batches, concat, reading, batches-Gives}
use duckdb_pqcap_reader.Table.Pcapng.{HandsOut, HandsOut-Gives, init_global-pcapng}

pub data KeepRows (cfg : PqcapCopyBindData) : List PacketRowData → List PacketRow → Type 0 where
  no_rows : KeepRows cfg [] []
  one_more :
      {row : PacketRowData} {r : PacketRow} {rows : List PacketRowData} {rs : List PacketRow}
      → KeepsRow cfg row r
      → KeepRows cfg rows rs
      → KeepRows cfg (row ∷ rows) (r ∷ rs)

-- Each packet that was handed out is the one that was written at its place.
abbrev pub EachSame : List (LightPacketHeader × Bytes) → List (LightPacketHeader × Bytes) → Type 0
EachSame [] [] = Unit
EachSame [] (p ∷ ps) = ⊥
EachSame (w ∷ ws) [] = ⊥
EachSame (w ∷ ws) (p ∷ ps) = SamePacket w p × EachSame ws ps

EachSame-IsWhole :
    (cfg : PqcapCopyBindData) (rows : List PacketRowData) (ps : List (LightPacketHeader × Bytes))
    → All FitsHeader rows
    → EachSame (packets cfg rows) ps
    → All IsWhole ps
EachSame-IsWhole cfg [] [] v h = tt
EachSame-IsWhole cfg [] (p ∷ ps) v h = absurd h
EachSame-IsWhole cfg (row ∷ rows) [] v h = absurd h
EachSame-IsWhole cfg (row ∷ rows) (p ∷ ps) (w, v) (same, h) =
    (SamePacket-IsWhole cfg row p w same, EachSame-IsWhole cfg rows ps v h)

RowsOf-KeepRows :
    (format : String → List ℕ → Bytes) (cfg : PqcapCopyBindData) (rows : List PacketRowData)
    (ps : List (LightPacketHeader × Bytes)) (rs : List PacketRow)
    → All FitsHeader rows
    → EachSame (packets cfg rows) ps
    → RowsOf format ps rs
    → KeepRows cfg rows rs
RowsOf-KeepRows format cfg [] [] [] v k h = no_rows
RowsOf-KeepRows format cfg [] [] (r ∷ rs) v k h = absurd h
RowsOf-KeepRows format cfg [] (p ∷ ps) rs v k h = absurd k
RowsOf-KeepRows format cfg (row ∷ rows) [] rs v k h = absurd k
RowsOf-KeepRows format cfg (row ∷ rows) (p ∷ ps) [] v k h = absurd h
RowsOf-KeepRows format cfg (row ∷ rows) (p ∷ ps) (r ∷ rs) (w, v) (same, k) (h, hs) =
    one_more (RowOf-KeepsRow format cfg row p r w same h)
      (RowsOf-KeepRows format cfg rows ps rs v k hs)

-- A capture that a COPY of any number of threads wrote, read by `read_pqcap_packets`: where LightPcapNg
-- opens the PCAP-NG file and hands out the packets that its writer was given, in their order, with
-- any interface and comment, and for each row that was kept the original length and the payload's
-- size fit 32 bits and the time an int64, the batches, none with more rows than DuckDB's vectors have,
-- are together one row for each row that the sinks have kept, in order: with its time stamp in
-- microseconds, original length and payload, and with the link type of the row or, where that is 0,
-- of the COPY. A sink keeps the rows of its chunk up to the first one that it refuses.
pub copy-KeepRows :
    (duckdb : DuckdbValues) (writer : LightWriter) (lib : LightPcapng)
    (format : String → List ℕ → Bytes) (cfg : PqcapCopyBindData)
    (file_path output_path path : FilePath) (disk₀ opened disk : Disk)
    (start state : PqcapCopyGlobalState) (log : Log duckdb) (content : Bytes) (r : lib.Reader)
    (ps : List (LightPacketHeader × Bytes)) (k : ℕ)
    → pcapng_write_initialize_global writer cfg file_path disk₀ ≡ (ok (start, output_path), opened)
    → Reach duckdb cfg start log (record { state = state; phase = idle })
    → All FitsHeader state.rows
    → disk path ≡ some (10 ∷ 13 ∷ 13 ∷ 10 ∷ content)
    → lib.open_read path disk ≡ some r
    → HandsOut lib r ps
    → EachSame state.written ps
    → (s : GlobalState lib) × (batches : List (List PacketRow)) × (init_global lib path disk ≡ ok s)
      × Batches format lib (suc k) s batches
      × KeepRows cfg state.rows (concat batches)
      × All (λ rows. length rows ≤ suc k) batches
copy-KeepRows duckdb writer lib format cfg file_path output_path path disk₀ opened disk start state
      log content r ps k initialized reached fits at opens handed same =
    let (serial, in_step, same_path) =
      pcapng_write-serial duckdb cfg writer file_path output_path disk₀ opened start log state
        initialized reached in
    let as_rows : EachSame (packets cfg state.rows) ps =
      subst (λ written. EachSame written ps) in_step same in
    let reads = HandsOut-Gives lib r ps format handed in
    let (batches, b, are_rows, sizes) =
      batches-Gives format lib k (of_pcapng r) ps reads
        (EachSame-IsWhole cfg state.rows ps fits as_rows) in
    (
      reading format lib (of_pcapng r),
      batches,
      init_global-pcapng lib path disk content r at opens,
      b,
      RowsOf-KeepRows format cfg state.rows ps (concat batches) fits as_rows are_rows,
      sizes,
    )
