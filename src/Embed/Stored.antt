-- ===== src/Embed/Stored.antt =====
-- `EmbedParquetInPqcap` of src/pqcap_copy_function.cpp on a disk, by what the C library answers.
use duckdb_pqcap_reader.Base.{
  ◌∙◌, ◌≡◌, ◌≢◌, refl, arith, Option, some, Bool, true, false, length, take, ◌==◌,
}
use duckdb_pqcap_reader.Base.{◌<◌, ◌+◌, eq_of_==, Exception, Result, ok, throw}
use duckdb_pqcap_reader.Words.{Bytes, IsU64}
use duckdb_pqcap_reader.Words.Equality.{same_bytes_refl, same_bytes_of_ne}
use duckdb_pqcap_reader.Stdio.{
  reliable, store, Stdio, Disk, FilePath, read_file_bytes, write_file_bytes,
}
use duckdb_pqcap_reader.Embed.Locate.{length-embedded}
use duckdb_pqcap_reader.Embed.{embedded, embed_parquet_in_pqcap}

-- What the embedding answers and leaves at the path of the capture. It succeeds where everything is
-- written; where the path does not open for writing the capture stays; and where the write ends
-- early, the file is as far as it came, since opening it has emptied it.
pub data Embedding (io : Stdio) (pcap_path : FilePath) (capture parquet : Bytes)
    : Result (Unit {0}) → Option Bytes → Type 0 where
  complete :
      io.opens_for_write pcap_path ≡ true
      → io.fwrite_count pcap_path (length (embedded capture parquet))
        ≡ length (embedded capture parquet)
      → Embedding io pcap_path capture parquet (ok tt) (some (embedded capture parquet))
  refused :
      {e : Exception}
      → io.opens_for_write pcap_path ≡ false
      → Embedding io pcap_path capture parquet (throw e) (some capture)
  cut_short :
      {e : Exception}
      → io.opens_for_write pcap_path ≡ true
      → io.fwrite_count pcap_path (length (embedded capture parquet))
        ≢ length (embedded capture parquet)
      → Embedding io pcap_path capture parquet (throw e) (
          some (
            take
              (io.fwrite_count pcap_path (length (embedded capture parquet)))
              (embedded capture parquet)))

module _ (io : Stdio) (pcap_path parquet_path : FilePath) (disk : Disk) (capture parquet : Bytes)
    (has_capture : disk pcap_path ≡ some capture) (has_parquet : disk parquet_path ≡ some parquet)
    (reads_capture : io.fread_count pcap_path (length capture) ≡ length capture)
    (reads_parquet : io.fread_count parquet_path (length parquet) ≡ length parquet) where
  read_whole :
      (path : FilePath) (bytes : Bytes)
      → disk path ≡ some bytes
      → io.fread_count path (length bytes) ≡ length bytes
      → read_file_bytes io path disk ≡ ok bytes
  unfolding read_file_bytes
  read_whole path bytes at whole =
      let same : (io.fread_count path (length bytes) == length bytes) ≡ true = ground arith in
      rw (read_file_bytes, at) (ground (arith, same))

  embedding :
      embed_parquet_in_pqcap io pcap_path parquet_path disk
      ≡ write_file_bytes io pcap_path (embedded capture parquet) disk
  unfolding embed_parquet_in_pqcap
  embedding = rw (
    embed_parquet_in_pqcap,
    read_whole pcap_path capture has_capture reads_capture,
    read_whole parquet_path parquet has_parquet reads_parquet,
  )

  wrote :
      (opens written : Bool)
      → io.opens_for_write pcap_path ≡ opens
      → (io.fwrite_count pcap_path (length (embedded capture parquet))
          == length (embedded capture parquet))
        ≡ written
      → 0 < length (embedded capture parquet)
      → let (r, disk') = write_file_bytes io pcap_path (embedded capture parquet) disk in
        Embedding io pcap_path capture parquet r (disk' pcap_path)
  unfolding write_file_bytes
  wrote false written opens counted large =
      rw (write_file_bytes, opens, has_capture) (refused opens)
  wrote true true opens counted large =
      let some_bytes : (length (embedded capture parquet) == 0) ≡ false = ground arith in
      rw (write_file_bytes, opens, some_bytes, counted, same_bytes_refl pcap_path)
        (complete opens (eq_of_== _ _ counted))
  wrote true false opens counted large =
      let some_bytes : (length (embedded capture parquet) == 0) ≡ false = ground arith in
      rw (write_file_bytes, opens, some_bytes, counted, same_bytes_refl pcap_path)
        (cut_short opens λ whole. ground arith)

  keeps :
      (q : FilePath)
      → q ≢ pcap_path
      → (write_file_bytes io pcap_path (embedded capture parquet) disk).1 q ≡ disk q
  unfolding write_file_bytes
  keeps q other = ground (arith, same_bytes_of_ne q pcap_path other)

  -- Where both files are read whole, `EmbedParquetInPqcap` succeeds and the capture's path then has
  -- the indexed capture; or the path does not open for writing, and the call throws and changes
  -- nothing; or the write ends early, and the call throws and the path is left with no more than
  -- what was written of the indexed capture. No other path changes.
  pub embed_parquet_in_pqcap-Embedding :
      (q : FilePath)
      → q ≢ pcap_path
      → IsU64 (length capture + 33)
      → let (r, disk') = embed_parquet_in_pqcap io pcap_path parquet_path disk in
        Embedding io pcap_path capture parquet r (disk' pcap_path) × (disk' q ≡ disk q)
  embed_parquet_in_pqcap-Embedding q other fits =
      rw embedding
        (wrote _ _ refl refl (omega (arith, length-embedded capture parquet fits)), keeps q other)

-- With a library whose transfers are complete, the indexed capture is stored at the capture's path.
pub embed_parquet_in_pqcap-store :
    (pcap_path parquet_path : FilePath) (disk : Disk) (capture parquet : Bytes)
    → disk pcap_path ≡ some capture
    → disk parquet_path ≡ some parquet
    → embed_parquet_in_pqcap reliable pcap_path parquet_path disk
      ≡ (ok tt, store pcap_path (embedded capture parquet) disk)
unfolding write_file_bytes
embed_parquet_in_pqcap-store pcap_path parquet_path disk capture parquet at_capture at_parquet =
    let same : (length (embedded capture parquet) == length (embedded capture parquet)) ≡ true =
      ground arith in
    embedding reliable pcap_path parquet_path disk capture parquet at_capture at_parquet refl refl
    ∙ ground (arith, same)
