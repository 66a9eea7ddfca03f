-- ===== src/Copy/Session/Serial.antt =====
-- Sinks of several threads, src/pqcap_copy_function.cpp, and the sequence of calls that they amount to.
use duckdb_pqcap_reader.Base.{
  ◌≡◌, refl, sym, ap, ◌∙◌, List, [], ◌∷◌, ◌++◌, Option, none, some, arith,
}
use duckdb_pqcap_reader.Base.{ok}
use duckdb_pqcap_reader.Stdio.{Disk, FilePath}
use duckdb_pqcap_reader.Copy.{DuckdbValues, PqcapCopyBindData}
use duckdb_pqcap_reader.Copy.Sink.{
  PacketRowData, PqcapCopyGlobalState, header_of_row, push_row, pcapng_write_sink,
}
use duckdb_pqcap_reader.Copy.Sink.Packets.{packets, pcapng_write_sink-Sunk}
use duckdb_pqcap_reader.Copy.Session.{
  LightWriter, pcapng_write_initialize_global, opened, Phase, idle, sinking, writing, Machine, Log,
  Step, enter, write, keep, refuse, leave, Reach, started, stepped, keep_row,
}

packets-append :
    (cfg : PqcapCopyBindData) (rows more : List PacketRowData)
    → packets cfg (rows ++ more) ≡ packets cfg rows ++ packets cfg more
packets-append cfg [] more = refl
packets-append cfg (row ∷ rows) more =
    ap (λ t. (header_of_row cfg row, row.packet_bytes) ∷ t) (packets-append cfg rows more)

module _ (duckdb : DuckdbValues) (cfg : PqcapCopyBindData) where
  -- The calls of the sink for these chunks, one after the other.
  abbrev pub sink_all : Log duckdb → PqcapCopyGlobalState → PqcapCopyGlobalState
  sink_all [] state = state
  sink_all ((thread, input) ∷ log) state = sink_all log (pcapng_write_sink duckdb cfg input state).1

  sink_all-append :
      (log new : Log duckdb) (state : PqcapCopyGlobalState)
      → sink_all (log ++ new) state ≡ sink_all new (sink_all log state)
  sink_all-append [] new state = refl
  sink_all-append ((thread, input) ∷ log) new state =
      sink_all-append log new (pcapng_write_sink duckdb cfg input state).1

  -- The state once the thread that holds the lock has left.
  completed : PqcapCopyGlobalState → Phase duckdb → PqcapCopyGlobalState
  completed state idle = state
  completed state (sinking thread input) = (pcapng_write_sink duckdb cfg input state).1
  completed state (writing thread row input) =
      (pcapng_write_sink duckdb cfg input (keep_row row state)).1

  completed-Step :
      {new : Log duckdb} {m m' : Machine duckdb}
      → Step duckdb cfg new m m'
      → completed m'.state m'.phase ≡ sink_all new (completed m.state m.phase)
  unfolding completed pcapng_write_sink push_row
  completed-Step (enter thread input) = refl
  completed-Step (write h) = rw (completed, pcapng_write_sink, h)
  completed-Step keep = refl
  completed-Step (refuse h) = rw (completed, pcapng_write_sink, h)
  completed-Step leave = refl

  completed-Reach :
      {start : PqcapCopyGlobalState} {log : Log duckdb} {m : Machine duckdb}
      → Reach duckdb cfg start log m
      → completed m.state m.phase ≡ sink_all log start
  unfolding completed
  completed-Reach started = refl
  completed-Reach (stepped {log} {new} r s) =
      completed-Step s ∙ (ap (sink_all new) (completed-Reach r) ∙ sym (sink_all-append log new _))

  abbrev InStep : PqcapCopyGlobalState → Type 0
  InStep state = state.written ≡ packets cfg state.rows

  sink_all-InStep :
      (log : Log duckdb) (state : PqcapCopyGlobalState) → InStep state → InStep (sink_all log state)
  sink_all-InStep [] state h = h
  sink_all-InStep ((thread, input) ∷ log) state h =
      let (rows, accepted, in_rows, in_packets) = pcapng_write_sink-Sunk duckdb cfg input state in
      sink_all-InStep log (pcapng_write_sink duckdb cfg input state).1 (
        in_packets
        ∙ (ap (λ t. t ++ packets cfg rows) h
            ∙ (sym (packets-append cfg state.rows rows) ∙ ap (packets cfg) (sym in_rows))))

  opened_lem :
      (lib : LightWriter) (file_path output_path : FilePath) (disk disk' : Disk)
      (start : PqcapCopyGlobalState) (info : Option lib.FileInfo)
      → opened lib cfg file_path disk info ≡ (ok (start, output_path), disk')
      → (start ≡ record { written = []; rows = [] }) × (output_path ≡ file_path)
  unfolding opened
  opened_lem lib file_path output_path disk disk' start none h = cc
  opened_lem lib file_path output_path disk disk' start (some info) h = ground (arith, h)

  -- However the threads of a COPY take turns, whenever no thread holds the lock, the state is that
  -- of a COPY by a single thread that hands over the same chunks in the order in which the lock was
  -- taken for them, and the capture has exactly the packets of the rows that are kept for the index, in
  -- the order of these.
  pub pcapng_write-serial :
      (lib : LightWriter) (file_path output_path : FilePath) (disk disk' : Disk)
      (start : PqcapCopyGlobalState) (log : Log duckdb) (state : PqcapCopyGlobalState)
      → pcapng_write_initialize_global lib cfg file_path disk ≡ (ok (start, output_path), disk')
      → Reach duckdb cfg start log (record { state = state; phase = idle })
      → (state ≡ sink_all log start)
        × (state.written ≡ packets cfg state.rows)
        × (output_path ≡ file_path)
  unfolding completed pcapng_write_initialize_global
  pcapng_write-serial lib file_path output_path disk disk' start log state h r =
      let (empty, same_path) =
        opened_lem lib file_path output_path disk disk' start lib.create_default_file_info h in
      let serial : state ≡ sink_all log start = completed-Reach r in
      let first : InStep start = rw empty refl in
      (serial, rw serial (sink_all-InStep log start first), same_path)
