-- ===== src/Copy/Session.antt =====
-- The calls that DuckDB makes for one COPY, src/pqcap_copy_function.cpp: `PcapngWriteInitializeGlobal`,
-- and `PcapngWriteSink` from several threads, which the mutex of the global state lets in one at a time.
-- LightPcapNg's functions that open the output are a parameter.
pub mod Serial
pub mod Progress
pub mod Runs
use duckdb_pqcap_reader.Base.{ℕ, List, [], ◌∷◌, ◌++◌, Option, none, some, Bool, if◌then◌else◌}
use duckdb_pqcap_reader.Base.{Result, ok, throw, io_exception, Exception, ◌≡◌}
use duckdb_pqcap_reader.Stdio.{Disk, FilePath}
use duckdb_pqcap_reader.Copy.{DuckdbValues, PqcapCopyBindData}
use duckdb_pqcap_reader.Copy.Sink.{
  PacketRowData, PqcapCopyGlobalState, Columns, header_of_row, sink_row,
}

-- `none` is a null pointer, and `open_write` answers whether its result is not one. The file's
-- information is changed by the number of interface blocks and the link type of the first.
pub record LightWriter : Type 1 where
  pub FileInfo : Type 0
  pub create_default_file_info : Option FileInfo
  pub set_interfaces : ℕ → ℕ → FileInfo → FileInfo
  pub open_write : FilePath → FileInfo → Disk → Bool × Disk

module _ (lib : LightWriter) where
  opened :
      PqcapCopyBindData
      → FilePath
      → Disk
      → Option lib.FileInfo
      → Result (PqcapCopyGlobalState × FilePath) × Disk
  opened cfg file_path disk none =
      (throw (io_exception "LightPcapNg file info allocation failed" []), disk)
  opened cfg file_path disk (some file_info) =
      let (opens, disk') =
        lib.open_write file_path (lib.set_interfaces 1 cfg.linktype file_info) disk in
      if opens
      then (ok (record { written = []; rows = [] }, file_path), disk')
      else (throw (io_exception "Failed opening output file %s" (file_path ∷ [])), disk')

  -- The state and its `output_path`.
  unfoldable pub pcapng_write_initialize_global :
      PqcapCopyBindData → FilePath → Disk → Result (PqcapCopyGlobalState × FilePath) × Disk
  unfolding opened
  pcapng_write_initialize_global cfg file_path disk =
      opened cfg file_path disk lib.create_default_file_info

-- `light_write_packet(state.writer, &hdr, …)`
abbrev pub write_packet :
    PqcapCopyBindData → PacketRowData → PqcapCopyGlobalState → PqcapCopyGlobalState
write_packet cfg row state = record {
  written = state.written ++ (header_of_row cfg row, row.packet_bytes) ∷ [];
  rows = state.rows;
}

-- `state.rows.push_back(row)`
abbrev pub keep_row : PacketRowData → PqcapCopyGlobalState → PqcapCopyGlobalState
keep_row row state = record { written = state.written; rows = state.rows ++ row ∷ [] }

module _ (duckdb : DuckdbValues) where
  -- Who holds the lock, and what is left of its chunk; `writing` is between the write of a packet
  -- and the row's being kept.
  pub data Phase : Type 0 where
    idle : Phase
    sinking : ℕ → List (Columns duckdb) → Phase
    writing : ℕ → PacketRowData → List (Columns duckdb) → Phase

  pub record Machine : Type 0 where
    pub state : PqcapCopyGlobalState
    pub phase : Phase

  -- The chunks, each with its thread, in the order in which the lock was taken for them.
  abbrev pub Log : Type 0
  Log = List (ℕ × List (Columns duckdb))

  -- One step of one thread. The log has the chunk for which the step takes the lock.
  pub data Step (cfg : PqcapCopyBindData) : Log → Machine → Machine → Type 0 where
    enter :
        {state : PqcapCopyGlobalState} (thread : ℕ) (input : List (Columns duckdb))
        → Step cfg
            ((thread, input) ∷ [])
            (record { state = state; phase = idle })
            (record { state = state; phase = sinking thread input })
    write :
        {state : PqcapCopyGlobalState} {thread : ℕ} {columns : Columns duckdb}
        {input : List (Columns duckdb)} {row : PacketRowData}
        → sink_row duckdb cfg columns ≡ ok row
        → Step cfg []
            (record { state = state; phase = sinking thread (columns ∷ input) })
            (record { state = write_packet cfg row state; phase = writing thread row input })
    keep :
        {state : PqcapCopyGlobalState} {thread : ℕ} {input : List (Columns duckdb)}
        {row : PacketRowData}
        → Step cfg []
            (record { state = state; phase = writing thread row input })
            (record { state = keep_row row state; phase = sinking thread input })
    refuse :
        {state : PqcapCopyGlobalState} {thread : ℕ} {columns : Columns duckdb}
        {input : List (Columns duckdb)} {e : Exception}
        → sink_row duckdb cfg columns ≡ throw e
        → Step cfg []
            (record { state = state; phase = sinking thread (columns ∷ input) })
            (record { state = state; phase = idle })
    leave :
        {state : PqcapCopyGlobalState} {thread : ℕ}
        → Step cfg []
            (record { state = state; phase = sinking thread [] })
            (record { state = state; phase = idle })

  pub data Reach (cfg : PqcapCopyBindData) (start : PqcapCopyGlobalState)
      : Log → Machine → Type 0 where
    started : Reach cfg start [] (record { state = start; phase = idle })
    stepped :
        {log new : Log} {m m' : Machine}
        → Reach cfg start log m
        → Step cfg new m m'
        → Reach cfg start (log ++ new) m'
