-- ===== src/SubFile/Runs.antt =====
-- The theorems of src/pqcap_subfile_fs.cpp at a small file.
use duckdb_pqcap_reader.Base.{◌≡◌, ◌↔◌, ok, some, true, List, ◌∷◌, [], arith}
use duckdb_pqcap_reader.Words.{Bytes, codes}
use duckdb_pqcap_reader.Stdio.{FilePath}
use duckdb_pqcap_reader.FileApi.{FileSystem}
use duckdb_pqcap_reader.FileApi.OneFile.{one_file, one_file-Holds}
use duckdb_pqcap_reader.Location.{read_flags}
use duckdb_pqcap_reader.SubFile.{PqcapSubFileHandle, open_file}
use duckdb_pqcap_reader.SubFile.Open.{IsOpened, open_file_iff}
use duckdb_pqcap_reader.SubFile.Window.{IsWindow}
use duckdb_pqcap_reader.SubFile.Refinement.{
  Request, read_bytes, read_bytes_at, seek_to, seek_to_start, ask_size, ask_position,
}
use duckdb_pqcap_reader.SubFile.Refinement.{replies, replies_of_memory, view, replies-memory}

abbrev whole : Bytes
whole = codes "0123456789"

abbrev fs : FileSystem
fs = one_file whole

abbrev path : FilePath
path = codes "pqcap-subfile://2_5!dir/a.pqcap"

-- The bytes 2 to 6, read from the third of them on.
abbrev handle : PqcapSubFileHandle fs
handle = record { inner_handle = tt; base_offset = 2; sub_size = 5; seek_pos = 3 }

handle-IsWindow : IsWindow fs handle whole
handle-IsWindow = record { held = one_file-Holds whole (omega arith); in_range = omega arith }

abbrev requests : List Request
requests =
    read_bytes (codes "....") 4
    ∷ ask_position
    ∷ seek_to 1
    ∷ read_bytes_at (codes "....") 3 4
    ∷ read_bytes (codes "..") 2
    ∷ seek_to_start
    ∷ ask_size
    ∷ []

replies-memory_example :
    replies fs handle requests ≡ ok (replies_of_memory (view fs handle whole) requests)
replies-memory_example = replies-memory fs requests handle whole handle-IsWindow

open_file_iff_example :
    (open_file fs path read_flags (some true) ≡ ok (record handle { seek_pos = 0 }))
    ↔ IsOpened fs path read_flags (some true) (record handle { seek_pos = 0 })
open_file_iff_example =
    open_file_iff fs path read_flags (some true) (record handle { seek_pos = 0 })
