-- ===== src/SubFile/Refinement.antt =====
-- A handle of src/pqcap_subfile_fs.cpp refines a file of its own that holds the bytes of the range.
use duckdb_pqcap_reader.Base.{ℕ, ◌+◌, ◌≡◌, refl, List, [], ◌∷◌, length, Result, ok, ◌>>=◌}
use duckdb_pqcap_reader.Words.{Bytes, slice}
use duckdb_pqcap_reader.FileApi.{FileSystem}
use duckdb_pqcap_reader.SubFile.{PqcapSubFileHandle, fill, read_at, read_next, seek, reset}
use duckdb_pqcap_reader.SubFile.{get_file_size, seek_position}
use duckdb_pqcap_reader.SubFile.Window.{
  IsWindow, content, read_at_lem, read_next_lem, length-content,
}

-- The calls on an open handle, and what they answer.
pub data Request : Type 0 where
  read_bytes : Bytes → ℕ → Request
  read_bytes_at : Bytes → ℕ → ℕ → Request
  seek_to : ℕ → Request
  seek_to_start : Request
  ask_size : Request
  ask_position : Request

pub data Reply : Type 0 where
  got : ℕ → Bytes → Reply
  filled : Bytes → Reply
  moved : Reply
  number : ℕ → Reply

-- A file in memory with a position.
pub record MemoryFile : Type 0 where
  pub bytes : Bytes
  pub position : ℕ

pub serve_memory : MemoryFile → Request → Reply × MemoryFile
serve_memory f (read_bytes buffer n) =
    let part = slice f.position n f.bytes in
    (got (length part) (fill part buffer), record f { position = f.position + length part })
serve_memory f (read_bytes_at buffer n location) =
    (filled (fill (slice location n f.bytes) buffer), f)
serve_memory f (seek_to location) = (moved, record f { position = location })
serve_memory f seek_to_start = (moved, record f { position = 0 })
serve_memory f ask_size = (number (length f.bytes), f)
serve_memory f ask_position = (number f.position, f)

pub replies_of_memory : MemoryFile → List Request → List Reply
replies_of_memory f [] = []
replies_of_memory f (r ∷ rs) = let (reply, f') = serve_memory f r in reply ∷ replies_of_memory f' rs

module _ (fs : FileSystem) where
  pub serve : PqcapSubFileHandle fs → Request → Result (Reply × PqcapSubFileHandle fs)
  serve h (read_bytes buffer n) = do
    (count, buffer', h') ← read_next fs h buffer n
    ok (got count buffer', h')
  serve h (read_bytes_at buffer n location) = do
    buffer' ← read_at fs h buffer n location
    ok (filled buffer', h)
  serve h (seek_to location) = ok (moved, seek fs h location)
  serve h seek_to_start = ok (moved, reset fs h)
  serve h ask_size = ok (number (get_file_size fs h), h)
  serve h ask_position = ok (number (seek_position fs h), h)

  pub replies : PqcapSubFileHandle fs → List Request → Result (List Reply)
  replies h [] = ok []
  replies h (r ∷ rs) = do (reply, h') ← serve h r; more ← replies h' rs; ok (reply ∷ more)

  abbrev pub view : PqcapSubFileHandle fs → Bytes → MemoryFile
  view h whole = record { bytes = content fs h whole; position = h.seek_pos }

  -- One call: the same answer, and the same file afterwards.
  serve_step :
      (h : PqcapSubFileHandle fs) (whole : Bytes) (r : Request)
      → IsWindow fs h whole
      → (h' : PqcapSubFileHandle fs) × (serve h r ≡ ok ((serve_memory (view h whole) r).0, h'))
        × IsWindow fs h' whole
        × (view h' whole ≡ (serve_memory (view h whole) r).1)
  unfolding serve serve_memory seek reset get_file_size seek_position
  serve_step h whole (read_bytes buffer n) w =
      let h' = record h {
        seek_pos = h.seek_pos + length (slice h.seek_pos n (content fs h whole));
      } in
      (
        h',
        rw (read_next_lem fs h whole w buffer n),
        record { held = w.held; in_range = w.in_range },
        refl,
      )
  serve_step h whole (read_bytes_at buffer n location) w =
      (h, rw (read_at_lem fs h whole w buffer n location), w, refl)
  serve_step h whole (seek_to location) w = (
    record h { seek_pos = location },
    refl,
    record { held = w.held; in_range = w.in_range },
    refl,
  )
  serve_step h whole seek_to_start w =
      (record h { seek_pos = 0 }, refl, record { held = w.held; in_range = w.in_range }, refl)
  serve_step h whole ask_size w = (h, rw (length-content fs h whole w), w, refl)
  serve_step h whole ask_position w = (h, refl, w, refl)

  -- Whatever calls are made on a handle whose range lies inside of the underlying file, it answers
  -- them all, and as a file in memory would that holds the bytes of the range alone.
  pub replies-memory :
      (rs : List Request) (h : PqcapSubFileHandle fs) (whole : Bytes)
      → IsWindow fs h whole
      → replies h rs ≡ ok (replies_of_memory (view h whole) rs)
  unfolding replies replies_of_memory
  replies-memory [] h whole w = refl
  replies-memory (r ∷ rs) h whole w =
      let (h', step, w', same) = serve_step h whole r w in
      rw (step, replies-memory rs h' whole w', same)
