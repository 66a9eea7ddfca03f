-- ===== src/Copy/Session/Progress.antt =====
-- A thread of a COPY that has the lock, src/pqcap_copy_function.cpp, comes to its end.
use duckdb_pqcap_reader.Base.{
  ℕ, ◌≡◌, refl, ◌⊎◌, inl, inr, sym, List, [], ◌∷◌, Result, ok, throw, fault, Defined,
}
use mathlib.Core.Path.{subst}
use duckdb_pqcap_reader.Words.{Bytes}
use duckdb_pqcap_reader.Copy.{DuckdbValues, PqcapCopyBindData, LogicalTypeId, pcapng_write_bind}
use duckdb_pqcap_reader.Copy.Columns.{pcapng_write_bind-IsBound}
use duckdb_pqcap_reader.Copy.Sink.{PacketRowData, PqcapCopyGlobalState, Columns, sink_row}
use duckdb_pqcap_reader.Copy.Sink.Safe.{sink_row-Defined}
use duckdb_pqcap_reader.Copy.Session.{
  Phase, idle, sinking, writing, Machine, Log, Step, enter, write, keep, refuse, leave,
  write_packet, keep_row,
}

module _ (duckdb : DuckdbValues) (cfg : PqcapCopyBindData) where
  -- On every run from the machine the lock becomes free, after finitely many steps and before it is
  -- taken again: it is free, or there is a step, and every step takes no lock and leads to such a machine.
  pub data Released : Machine duckdb → Type 0 where
    free : {state : PqcapCopyGlobalState} → Released (record { state = state; phase = idle })
    later :
        {m next : Machine duckdb}
        → Step duckdb cfg [] m next
        → ((new : Log duckdb) (m' : Machine duckdb) → Step duckdb cfg new m m' → new ≡ [])
        → ((new : Log duckdb) (m' : Machine duckdb) → Step duckdb cfg new m m' → Released m')
        → Released m

  abbrev at : PqcapCopyGlobalState → Phase duckdb → Machine duckdb
  at state phase = record { state = state; phase = phase }

  -- What a step does to a thread that holds the lock.
  abbrev Does : PqcapCopyGlobalState → Phase duckdb → Log duckdb → Machine duckdb → Type 0
  Does state idle new m' = Unit
  Does state (sinking thread []) new m' = (new ≡ []) × (m' ≡ at state idle)
  Does state (sinking thread (columns ∷ input)) new m' =
      (new ≡ [])
      × (((row : PacketRowData) × (sink_row duckdb cfg columns ≡ ok row)
            × (m' ≡ at (write_packet cfg row state) (writing thread row input)))
          ⊎ (m' ≡ at state idle))
  Does state (writing thread row input) new m' =
      (new ≡ []) × (m' ≡ at (keep_row row state) (sinking thread input))

  step-Does :
      {new : Log duckdb} {m m' : Machine duckdb}
      → Step duckdb cfg new m m'
      → Does m.state m.phase new m'
  step-Does (enter thread input) = tt
  step-Does (write {row} h) = (refl, inl (row, h, refl))
  step-Does keep = (refl, refl)
  step-Does (refuse h) = (refl, inr refl)
  step-Does leave = (refl, refl)

  Released-at : {m m' : Machine duckdb} → m' ≡ m → Released m → Released m'
  Released-at same r = subst Released (sym same) r

  writing-Released :
      (thread : ℕ) (row : PacketRowData) (input : List (Columns duckdb))
      (state : PqcapCopyGlobalState)
      → Released (at (keep_row row state) (sinking thread input))
      → Released (at state (writing thread row input))
  writing-Released thread row input state r =
      later keep (λ new m' step. (step-Does step).0) λ new m' step. Released-at (step-Does step).1 r

  module _ (defined : (columns : Columns duckdb) → Defined (sink_row duckdb cfg columns)) where
    can_step :
        (thread : ℕ) (columns : Columns duckdb) (input : List (Columns duckdb))
        (state : PqcapCopyGlobalState) (outcome : Result PacketRowData)
        → sink_row duckdb cfg columns ≡ outcome
        → Defined outcome
        → (next : Machine duckdb) × Step duckdb cfg []
            (at state (sinking thread (columns ∷ input)))
            next
    can_step thread columns input state (ok row) h d = (_, write h)
    can_step thread columns input state (throw e) h d = (_, refuse h)
    can_step thread columns input state fault h d = elim d [ ]

    sinking-Released :
        (thread : ℕ) (input : List (Columns duckdb)) (state : PqcapCopyGlobalState)
        → Released (at state (sinking thread input))
    sinking-Released thread [] state =
        later leave (λ new m' step. (step-Does step).0)
          λ new m' step. Released-at (step-Does step).1 free
    sinking-Released thread (columns ∷ input) state =
        let (next, first) =
          can_step thread columns input state (sink_row duckdb cfg columns) refl
            (defined columns) in
        later first (λ new m' step. (step-Does step).0)
          λ new m' step. elim (step-Does step).1 [
            | inl (row, h, same) ↦ Released-at same (
                writing-Released thread row input (write_packet cfg row state)
                  (sinking-Released thread input (keep_row row (write_packet cfg row state))))
            | inr same ↦ Released-at same free
          ]

    machine-Released :
        (state : PqcapCopyGlobalState) (phase : Phase duckdb) → Released (at state phase)
    machine-Released state idle = free
    machine-Released state (sinking thread input) = sinking-Released thread input state
    machine-Released state (writing thread row input) =
        writing-Released thread row input state (sinking-Released thread input (keep_row row state))

-- With a binding that `PcapngWriteBind` returned, and where DuckDB's cast returns or throws, no thread of
-- a COPY keeps the lock: from every machine, and on every run from it, the lock becomes free after
-- finitely many steps, and until then no thread takes it and no state is stuck. On each row the sink
-- returns or throws: the columns that it reads without a test are there.
pub pcapng_write-Released :
    (duckdb : DuckdbValues) (options : List (Bytes × List duckdb.Value)) (names : List Bytes)
    (sql_types : List LogicalTypeId) (cfg : PqcapCopyBindData) (m : Machine duckdb)
    → ((value : duckdb.Value) → Defined (duckdb.cast_ubigint value))
    → pcapng_write_bind duckdb options names sql_types ≡ ok cfg
    → Released duckdb cfg m × ((columns : Columns duckdb) → Defined (sink_row duckdb cfg columns))
pcapng_write-Released duckdb options names sql_types cfg m casts bound =
    let is_bound = pcapng_write_bind-IsBound duckdb options names sql_types cfg bound in
    let defined : (columns : Columns duckdb) → Defined (sink_row duckdb cfg columns) =
      λ columns. sink_row-Defined duckdb casts names sql_types cfg columns is_bound in
    (machine-Released duckdb cfg defined m.state m.phase, defined)
