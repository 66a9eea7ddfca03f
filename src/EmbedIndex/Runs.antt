-- ===== src/EmbedIndex/Runs.antt =====
-- The theorems on `EmbedPqcapIndex`, src/pqcap_copy_function.cpp, at a capture with one packet.
use duckdb_pqcap_reader.Base.{
  ℕ, inl, ◌≡◌, ◌<◌, refl, arith, ◌∷◌, [], ◌++◌, some, none, List, take, ok, throw,
  invalid_input_exception, if◌then◌else◌, Result, length,
}
use duckdb_pqcap_reader.Words.{Bytes, codes, le_bytes}
use duckdb_pqcap_reader.Words.Equality.{same_bytes}
use duckdb_pqcap_reader.Stdio.{Disk, FilePath, reliable, store}
use duckdb_pqcap_reader.FileApi.OneFile.{one_file, one_file-Holds}
use duckdb_pqcap_reader.Scan.{PacketLocation, scan_bytes, scan_loop, packet_location, read_le32}
use duckdb_pqcap_reader.Embed.{embedded, custom_body}
use duckdb_pqcap_reader.Embed.Layout.{custom_body_lem}
use duckdb_pqcap_reader.Embed.Locate.{length-embedded}
use duckdb_pqcap_reader.Copy.Sink.{PacketRowData}
use duckdb_pqcap_reader.Table.{PacketRow}
use duckdb_pqcap_reader.Metadata.Writer.{SqlEngine, write_metadata_parquet_via_sql}
use duckdb_pqcap_reader.EmbedIndex.{QueryCalls, embed_pqcap_index}
use duckdb_pqcap_reader.EmbedIndex.Select.{KeepsValues, selected, each_features}
use duckdb_pqcap_reader.Table.Bind.{
  Value, of_bigint, of_ubigint, of_usmallint, of_integer, of_varchar,
}
use duckdb_pqcap_reader.Scan.Packets.{CaptureBlock, enhanced, encode_capture, packets_in, Addressed}
use duckdb_pqcap_reader.EmbedIndex.Addressed.{embed_pqcap_index-Addressed}
use duckdb_pqcap_reader.EmbedIndex.Once.{embed_pqcap_index-embedded}

-- A Simple Packet Block with a packet of four bytes.
abbrev capture : Bytes
capture = le_bytes 4 3 ++ (le_bytes 4 20 ++ (le_bytes 4 4 ++ (1 ∷ 2 ∷ 3 ∷ 4 ∷ le_bytes 4 20)))

abbrev path : FilePath
path = codes "out"

abbrev temp : FilePath
temp = codes "out.tmp.meta.parquet"

abbrev parquet : Bytes
parquet = codes "PAR1"

abbrev disk : Disk
disk q = if same_bytes q path then some capture else none

abbrev engine : SqlEngine
engine = record {
  Connection = Unit {0};
  connect = tt;
  query = λ sql con d.
      (none, tt, if same_bytes (take 4 sql) (codes "COPY") then store temp parquet d else d);
}

abbrev keep : Bytes → Bytes
keep s = s

abbrev packet : PacketRow
packet = record {
  timestamp_micros = 1;
  interface_id = 0;
  data_link = 1;
  captured_length = 4;
  orig_len = 4;
  comment = none;
  src_ip = none;
  dst_ip = none;
  src_port = none;
  dst_port = none;
  l4_protocol = codes "unknown";
  payload = none;
}

-- A value as a number and as a text.
abbrev number : Value → Result ℕ
number (of_bigint n) = ok n
number (of_ubigint n) = ok n
number (of_usmallint n) = ok n
number (of_integer n) = ok n
number v = ok 0

abbrev text : Value → Result Bytes
text (of_varchar s) = ok s
text v = ok []

abbrev con : QueryCalls
con = record {
  query = λ sql d. ok (selected sql (packet ∷ []));
  get_number = λ t v. number v;
  get_string = text;
}

con-KeepsValues : KeepsValues con
con-KeepsValues = record {
  of_bigints = λ n. refl;
  of_ubigints = λ n. refl;
  of_usmallints = λ n. refl;
  of_integers = λ n. refl;
  of_texts = λ s. refl;
}

abbrev rows : List PacketRowData
rows = each_features keep (packet ∷ [])

length-indexed : length (embedded capture parquet) < 1000
length-indexed = omega (arith, length-embedded capture parquet (omega arith), body)
  where
    body : length (custom_body parquet) ≡ 32
    body = rw (custom_body_lem parquet)

embed_pqcap_index-embedded_example :
    embed_pqcap_index
      (one_file (embedded capture parquet))
      reliable
      keep
      keep
      keep
      con
      engine
      (codes "t")
      path
      disk
    ≡ (
      throw (
          invalid_input_exception "pqcap_embed_index: capture already contains pqcap metadata: %s"
            (path ∷ [])),
      disk,
    )
embed_pqcap_index-embedded_example =
    embed_pqcap_index-embedded (one_file (embedded capture parquet)) reliable keep keep keep con
      engine (codes "t") path disk tt capture parquet refl
      (one_file-Holds (embedded capture parquet) (let small = length-indexed in omega arith))
      (omega arith) (omega arith)

-- The same packet in an Enhanced Packet Block.
abbrev blocks : List CaptureBlock
blocks =
    enhanced (record {
      interface_id = 0;
      timestamp_high = 0;
      timestamp_low = 1;
      original_len = 4;
      packet = 1 ∷ 2 ∷ 3 ∷ 4 ∷ [];
      rest = [];
    })
    ∷ []

abbrev pcapng_disk : Disk
pcapng_disk q = if same_bytes q path then some (encode_capture blocks) else none

abbrev packet_at : List PacketLocation
packet_at = record { offset = 28; size = 4 } ∷ []

packet_scanned : scan_bytes (encode_capture blocks) ≡ ok packet_at
unfolding scan_bytes scan_loop packet_location read_le32
packet_scanned = refl

wrote_row :
    write_metadata_parquet_via_sql keep engine (codes "t") temp rows packet_at 1 pcapng_disk
    ≡ (ok tt, store temp parquet pcapng_disk)
unfolding write_metadata_parquet_via_sql
wrote_row = refl

embed_pqcap_index-Addressed_example :
    let (result, left) =
      embed_pqcap_index
        (one_file (encode_capture blocks))
        reliable
        keep
        keep
        keep
        con
        engine
        (codes "t")
        path
        pcapng_disk in
    (content : Bytes) × (result ≡ ok (length (packets_in blocks)))
    × (left path ≡ some content)
    × (left temp ≡ none)
    × Addressed content packet_at (packets_in blocks)
embed_pqcap_index-Addressed_example =
    embed_pqcap_index-Addressed (one_file (encode_capture blocks)) keep keep keep con engine
      (codes "t") path pcapng_disk (store temp parquet pcapng_disk) tt blocks (packet ∷ [])
      packet_at parquet refl (one_file-Holds (encode_capture blocks) (omega arith))
      (inl (omega arith)) refl (omega arith, tt) packet_scanned con-KeepsValues refl refl wrote_row
      refl refl (omega arith) (omega arith) (omega (arith, length-body))
  where
    length-body : length (custom_body parquet) ≡ 32
    length-body = rw (custom_body_lem parquet)
