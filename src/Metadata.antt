-- ===== src/Metadata.antt =====
-- `SqlEscape` and the row texts of `WriteMetadataParquetViaSQL`, src/pqcap_copy_function.cpp: the
-- INSERT that fills the table behind the embedded Parquet bytes.
pub mod Literals
pub mod Tuple
pub mod Writer
mod Runs
use duckdb_pqcap_reader.Base.{
  ℕ, ◌+◌, ◌*◌, ◌%◌, ◌^◌, List, [], ◌∷◌, ◌++◌, Bool, true, false, ◌==◌, if◌then◌else◌,
}
use duckdb_pqcap_reader.Words.{Bytes, codes}
use duckdb_pqcap_reader.Decimal.{to_string}
use duckdb_pqcap_reader.Scan.{PacketLocation}
use duckdb_pqcap_reader.Copy.Sink.{PacketRowData}

abbrev pub port_value : Bool → ℕ → Bytes
port_value has_port port = if has_port then to_string port else codes "NULL"

-- `rows[i].protocols.empty() ? "unknown" : rows[i].protocols`
abbrev pub protocols_or_unknown : Bytes → Bytes
protocols_or_unknown [] = codes "unknown"
protocols_or_unknown (c ∷ s) = c ∷ s

abbrev pub linktype_of : PacketRowData → ℕ → ℕ
linktype_of row default_linktype = if row.data_link == 0 then default_linktype else row.data_link

abbrev pub captured_of : PacketRowData → PacketLocation → ℕ
captured_of row loc = if row.captured_length == 0 then loc.size else row.captured_length

-- `replace` is `StringUtil::Replace` of DuckDB at a quote and two quotes.
module _ (replace : Bytes → Bytes) where
  unfoldable pub sql_escape : Bytes → Bytes
  sql_escape s = replace s

  -- `s.empty() ? "NULL" : "'" + SqlEscape(s) + "'"`
  unfoldable pub text_value : Bytes → Bytes
  text_value [] = codes "NULL"
  text_value (c ∷ s) = b'\'' ∷ sql_escape (c ∷ s) ++ codes "'"

  -- The values of the row `i`.
  unfoldable pub row_values : ℕ → PacketRowData → PacketLocation → ℕ → Bytes
  row_values i row loc default_linktype =
      let linktype = linktype_of row default_linktype in
      codes "("
      ++ (to_string (i + 1)
          ++ (codes ","
              ++ (to_string (row.ts_micros * 1000 % 2 ^ 64)
                  ++ (codes ",'"
                      ++ (sql_escape (protocols_or_unknown row.protocols)
                          ++ (codes "',"
                              ++ (text_value row.src_ip
                                  ++ (codes ","
                                      ++ (port_value row.has_src_port row.src_port
                                          ++ (codes ","
                                              ++ (text_value row.dst_ip
                                                  ++ (codes ","
                                                      ++ (port_value row.has_dst_port row.dst_port
                                                          ++ (codes ","
                                                            ++ (to_string row.interface_id
                                                            ++ (codes ","
                                                            ++ (to_string linktype
                                                            ++ (codes ","
                                                            ++ (to_string (captured_of row loc)
                                                            ++ (codes ","
                                                            ++ (to_string row.orig_len
                                                            ++ (codes ","
                                                            ++ (text_value row.comment
                                                            ++ (codes ","
                                                            ++ (to_string loc.offset
                                                            ++ (codes ","
                                                            ++ (to_string loc.size
                                                            ++ (codes ","
                                                            ++ (to_string linktype
                                                            ++ codes
                                                            ")")))))))))))))))))))))))))))))
