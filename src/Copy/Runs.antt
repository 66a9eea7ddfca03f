-- ===== src/Copy/Runs.antt =====
-- The theorems on the copy function of src/pqcap_copy_function.cpp at a small table.
use duckdb_pqcap_reader.Base.{All, ◌≡◌, ◌↔◌, refl, ok, some, true, List, ◌∷◌, []}
use duckdb_pqcap_reader.Words.{Bytes, codes}
use duckdb_pqcap_reader.Copy.{
  PqcapCopyBindData, LogicalTypeId, blob, other_type, find_column_idx, pcapng_write_bind,
  parse_uint64, payload_is_blob,
}
use duckdb_pqcap_reader.Copy.Columns.{
  IsFirst, IsBound, find_column_idx_iff, pcapng_write_bind-IsBound,
}
use duckdb_pqcap_reader.Copy.Sink.{Columns, pcapng_write_sink}
use duckdb_pqcap_reader.Copy.Sink.Packets.{Sunk, pcapng_write_sink-Sunk}
use duckdb_pqcap_reader.Copy.Equals.{equals, equals_iff}
use duckdb_pqcap_reader.Copy.Options.{IsListed, pcapng_write_bind-IsListed}
use duckdb_pqcap_reader.Copy.Cells.{Cell, null, number, text, cells, names, cfg_of, row_with, empty}

find_column_idx_iff_example :
    (find_column_idx cells names (codes "orig_len") ≡ some 2)
    ↔ IsFirst cells (codes "orig_len") names 2
find_column_idx_iff_example = find_column_idx_iff cells names (codes "orig_len") 2

abbrev options : List (Bytes × List Cell)
options = (codes "mode", text (codes "pcapng") ∷ []) ∷ (codes "linktype", number 101 ∷ []) ∷ []

abbrev types : List LogicalTypeId
types = blob ∷ other_type ∷ other_type ∷ other_type ∷ []

abbrev cfg : PqcapCopyBindData
cfg = cfg_of (codes "pcapng")

bound : pcapng_write_bind cells options names types ≡ ok cfg
unfolding pcapng_write_bind find_column_idx parse_uint64 payload_is_blob
bound = refl

pcapng_write_bind-IsBound_example : IsBound cells names types cfg
pcapng_write_bind-IsBound_example = pcapng_write_bind-IsBound cells options names types cfg bound

-- The second row has no payload.
abbrev chunk : List (Columns cells)
chunk = row_with (text (1 ∷ 2 ∷ [])) ∷ row_with null ∷ []

pcapng_write_sink-Sunk_example :
    Sunk cells cfg chunk empty (pcapng_write_sink cells cfg chunk empty)
pcapng_write_sink-Sunk_example = pcapng_write_sink-Sunk cells cfg chunk empty

equals_iff_example : (equals cfg (cfg_of (codes "pqcap")) ≡ true) ↔ (cfg ≡ cfg_of (codes "pqcap"))
equals_iff_example = equals_iff cfg (cfg_of (codes "pqcap"))

pcapng_write_bind-IsListed_example :
    All (λ (name, values). IsListed (cells.lower name) values) options
pcapng_write_bind-IsListed_example = pcapng_write_bind-IsListed cells options names types cfg bound
