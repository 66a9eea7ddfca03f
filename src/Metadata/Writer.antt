-- ===== src/Metadata/Writer.antt =====
-- `WriteMetadataParquetViaSQL` of src/pqcap_copy_function.cpp: the queries that it runs, in order. The
-- DuckDB that runs them is a parameter, and so is the name of the table, which holds an address.
use duckdb_pqcap_reader.Base.{
  ℕ, ◌+◌, List, [], ◌∷◌, ◌++◌, Option, none, some, ◌==◌, not, if◌then◌else◌, String, length,
}
use duckdb_pqcap_reader.Base.{Result, ok, throw, io_exception}
use duckdb_pqcap_reader.Words.{Bytes, codes}
use duckdb_pqcap_reader.Stdio.{Disk, FilePath}
use duckdb_pqcap_reader.Scan.{PacketLocation}
use duckdb_pqcap_reader.Copy.Sink.{PacketRowData}
use duckdb_pqcap_reader.Metadata.{sql_escape, row_values}

-- A connection of a database in memory. A query may fail with a message, and may write files.
pub record SqlEngine : Type 1 where
  pub Connection : Type 0
  pub connect : Connection
  pub query : Bytes → Connection → Disk → Option Bytes × Connection × Disk

abbrev pub table_columns : Bytes
table_columns =
    codes "(frame_number UBIGINT, ts_ns UBIGINT, protocols "
    ++ (codes "VARCHAR, src_ip VARCHAR, src_port UINTEGER, "
        ++ (codes "dst_ip VARCHAR, dst_port UINTEGER, interface_id UBIGINT, "
            ++ (codes "data_link USMALLINT, captured_length UBIGINT, orig_len UBIGINT, "
                ++ (codes "comment VARCHAR, \"offset\" UBIGINT, "
                    ++ codes "\"size\" UBIGINT, linktype USMALLINT)"))))

module _ (replace : Bytes → Bytes) (engine : SqlEngine) (table_name : Bytes) where
  -- The rows from `i` on, with commas between them.
  unfoldable pub insert_rows : ℕ → List PacketRowData → List PacketLocation → ℕ → Bytes
  insert_rows i [] locs default_linktype = []
  insert_rows i (row ∷ rows) [] default_linktype = []
  insert_rows i (row ∷ rows) (loc ∷ locs) default_linktype =
      (if i == 0 then [] else codes ",")
      ++ (row_values replace i row loc default_linktype
          ++ insert_rows (i + 1) rows locs default_linktype)

  abbrev pub Step : Type 0
  Step = engine.Connection → Disk → Result (Unit {0}) × Disk

  -- `res = con.Query(sql)`, and the exception where it has an error.
  abbrev pub run_query : String → Bytes → Step → Step
  run_query message sql after con disk =
      let (failed, con', disk') = engine.query sql con disk in
      elim failed [
        | some error ↦ (throw (io_exception message (error ∷ [])), disk')
        | none ↦ after con' disk'
      ]

  abbrev pub insert_query : List PacketRowData → List PacketLocation → ℕ → Step → Step
  insert_query [] locs default_linktype after = after
  insert_query (row ∷ rows) locs default_linktype after =
      run_query "Failed inserting pqcap metadata rows: %s"
        (codes "INSERT INTO "
          ++ (table_name ++ (codes " VALUES " ++ insert_rows 0 (row ∷ rows) locs default_linktype)))
        after

  -- The result of the last query is not looked at.
  abbrev pub drop_table : Step
  drop_table con disk =
      let (error, con', disk') = engine.query (codes "DROP TABLE " ++ table_name) con disk in
      (ok tt, disk')

  abbrev pub copy_query : FilePath → Step → Step
  copy_query parquet_path after =
      run_query "Failed writing embedded parquet metadata: %s"
        (codes "COPY "
          ++ (table_name
              ++ (codes " TO '"
                  ++ (sql_escape replace parquet_path ++ codes "' (FORMAT parquet)"))))
        after

  unfoldable pub write_metadata_parquet_via_sql :
      FilePath → List PacketRowData → List PacketLocation → ℕ → Disk → Result (Unit {0}) × Disk
  write_metadata_parquet_via_sql parquet_path rows locs default_linktype disk =
      if not (length rows == length locs)
      then (
        throw
            (io_exception "pqcap writer mismatch between packet rows and written packet blocks" []),
        disk,
      )
      else run_query "Failed loading parquet extension in temp writer DB: %s" (codes "LOAD parquet")
          (run_query "Failed creating temp metadata table: %s"
            (codes "CREATE TEMP TABLE " ++ (table_name ++ table_columns))
            (insert_query rows locs default_linktype (copy_query parquet_path drop_table)))
          engine.connect disk
