-- ===== src/Table/Batches.antt =====
-- The batches that DuckDB gets from `read_pqcap_packets`, src/pqcap_packet_table.cpp, from a reader
-- that hands out whole packets, and those of a classic pcap file.
use duckdb_pqcap_reader.Base.{
  ℕ, zero, suc, ◌≤◌, ◌<◌, ◌≡◌, refl, ap, arith, List, [], ◌∷◌, ◌++◌, none, some,
}
use duckdb_pqcap_reader.Base.{
  Bool-cases, inl, inr, ◌^◌, String, length, take, drop, take-append-drop, length-drop,
  length-take-min, All, All-drop, Returns-eq-ok, ok, true, false,
}
use mathlib.Core.Path.{subst}
use duckdb_pqcap_reader.Words.{Bytes}
use duckdb_pqcap_reader.Classic.{LightPacketHeader, ClassicPcapReader}
use duckdb_pqcap_reader.Classic.Header.{
  Reads, at_end, packet, PcapHeader, IsPcapHeader, encode_header, encode_records, packets_of,
  classic-Reads,
}
use duckdb_pqcap_reader.Classic.Records.{PcapRecord, IsPcapRecord, header_of}
use duckdb_pqcap_reader.Stdio.{Disk, FilePath}
use duckdb_pqcap_reader.Table.{
  micros, LightPcapng, PacketRow, CaptureReader, of_classic, GlobalState, next_packet, read_rows,
  read_pqcap_packets_function, init_global,
}
use duckdb_pqcap_reader.Table.Rows.{IsWhole, RowsOf, packet_row-RowOf}

abbrev pub concat : List (List PacketRow) → List PacketRow
concat [] = []
concat (rows ∷ batches) = rows ++ concat batches

module _ (format : String → List ℕ → Bytes) (lib : LightPcapng) where
  -- The function called until it returns no rows.
  pub data Batches (size : ℕ) : GlobalState lib → List (List PacketRow) → Type 0 where
    last_batch :
        {s s' : GlobalState lib}
        → read_pqcap_packets_function format lib size s ≡ ok ([], s')
        → Batches size s []
    batch :
        {s s' : GlobalState lib} {row : PacketRow} {rows : List PacketRow}
        {more : List (List PacketRow)}
        → read_pqcap_packets_function format lib size s ≡ ok (row ∷ rows, s')
        → Batches size s' more
        → Batches size s ((row ∷ rows) ∷ more)

  -- A reader that hands out these packets and then ends.
  pub data Gives : CaptureReader lib → List (LightPacketHeader × Bytes) → Type 0 where
    gives_none : {r r' : CaptureReader lib} → next_packet lib r ≡ ok (none, r') → Gives r []
    gives :
        {r r' : CaptureReader lib} {p : LightPacketHeader × Bytes}
        {ps : List (LightPacketHeader × Bytes)}
        → next_packet lib r ≡ ok (some (p.0, some p.1), r')
        → Gives r' ps
        → Gives r (p ∷ ps)

  abbrev pub reading : CaptureReader lib → GlobalState lib
  reading r = record { reader = r; finished = false }

  -- What a state has before it: the packets that a reader still returns, or no more.
  data Remaining : GlobalState lib → List (LightPacketHeader × Bytes) → Type 0 where
    more_packets :
        {r : CaptureReader lib} {ps : List (LightPacketHeader × Bytes)}
        → Gives r ps
        → Remaining (reading r) ps
    no_more : {s : GlobalState lib} → s.finished ≡ true → Remaining s []

  RowsOf-length :
      (ps : List (LightPacketHeader × Bytes)) (rows : List PacketRow)
      → RowsOf format ps rows
      → length rows ≡ length ps
  RowsOf-length [] [] h = refl
  RowsOf-length [] (row ∷ rows) h = absurd h
  RowsOf-length (p ∷ ps) [] h = absurd h
  RowsOf-length (p ∷ ps) (row ∷ rows) (h, hs) = ap suc (RowsOf-length ps rows hs)

  RowsOf-append :
      (ps qs : List (LightPacketHeader × Bytes)) (rows more : List PacketRow)
      → RowsOf format ps rows
      → RowsOf format qs more
      → RowsOf format (ps ++ qs) (rows ++ more)
  RowsOf-append [] qs [] more h k = k
  RowsOf-append [] qs (row ∷ rows) more h k = absurd h
  RowsOf-append (p ∷ ps) qs [] more h k = absurd h
  RowsOf-append (p ∷ ps) qs (row ∷ rows) more (h, hs) k = (h, RowsOf-append ps qs rows more hs k)

  abbrev ReadRows : ℕ → GlobalState lib → List (LightPacketHeader × Bytes) → Type 0
  ReadRows n s ps =
      (rows : List PacketRow) × (s' : GlobalState lib) × (read_rows format lib n s ≡ ok (rows, s'))
      × RowsOf format (take n ps) rows
      × Remaining s' (drop n ps)

  ReadRows-reading :
      (n : ℕ) (r : CaptureReader lib) (ps : List (LightPacketHeader × Bytes))
      → Gives r ps
      → All IsWhole ps
      → ReadRows n (reading r) ps
  unfolding read_rows
  ReadRows-reading zero r ps reads v = ([], reading r, refl, tt, more_packets reads)
  ReadRows-reading (suc n) r [] (gives_none {r'} e) v =
      ([], record { reader = r'; finished = true }, rw e, tt, no_more refl)
  ReadRows-reading (suc n) r (p ∷ ps) (gives {r'} e reads) (w, v) =
      let (row, made, is_row) = packet_row-RowOf format p w in
      let (rows, s', e', are_rows, left) = ReadRows-reading n r' ps reads v in
      (row ∷ rows, s', rw (e, made, e'), (is_row, are_rows), left)

  abbrev pub Batched : ℕ → GlobalState lib → List (LightPacketHeader × Bytes) → Type 0
  Batched size s ps =
      (batches : List (List PacketRow)) × Batches size s batches
      × RowsOf format ps (concat batches)
      × All (λ rows. length rows ≤ size) batches

  -- One more batch in front.
  with_batch :
      (k : ℕ) (r : CaptureReader lib) (s' : GlobalState lib)
      (ps qs : List (LightPacketHeader × Bytes)) (rows : List PacketRow)
      → read_rows format lib (suc k) (reading r) ≡ ok (rows, s')
      → RowsOf format ps rows
      → 0 < length ps
      → length ps ≤ suc k
      → Batched (suc k) s' qs
      → Batched (suc k) (reading r) (ps ++ qs)
  unfolding read_pqcap_packets_function
  with_batch k r s' ps qs [] e are_rows some_packets bounded (batches, b, more_rows, sizes) =
      absurd (omega (arith, RowsOf-length ps [] are_rows))
  with_batch k r s' ps qs (row ∷ rows) e are_rows some_packets bounded
        (batches, b, more_rows, sizes) =
      (
        (row ∷ rows) ∷ batches,
        batch e b,
        RowsOf-append ps qs (row ∷ rows) (concat batches) are_rows more_rows,
        (omega (arith, RowsOf-length ps (row ∷ rows) are_rows), sizes),
      )

  at_the_end :
      (k : ℕ) (r r' : CaptureReader lib)
      → next_packet lib r ≡ ok (none, r')
      → read_pqcap_packets_function format lib (suc k) (reading r)
        ≡ ok ([], record { reader = r'; finished = true })
  unfolding read_pqcap_packets_function read_rows
  at_the_end k r r' e = rw e

  batches-Remaining :
      (fuel k : ℕ) (s : GlobalState lib) (ps : List (LightPacketHeader × Bytes))
      → length ps ≤ fuel
      → Remaining s ps
      → All IsWhole ps
      → Batched (suc k) s ps
  unfolding read_pqcap_packets_function
  batches-Remaining fuel k s [] bound (no_more done) v = ([], last_batch {s' = s} (rw done), tt, tt)
  batches-Remaining fuel k s [] bound (more_packets {r} (gives_none {r'} e)) v =
      let s' : GlobalState lib = record { reader = r'; finished = true } in
      ([], last_batch {s' = s'} (at_the_end k r r' e), tt, tt)
  batches-Remaining zero k s (p ∷ ps) bound left v = absurd (omega arith)
  batches-Remaining (suc fuel) k s (p ∷ ps) bound (more_packets {r} reads) v =
      let all = p ∷ ps in
      let (rows, s', e, are_rows, left) = ReadRows-reading (suc k) r all reads v in
      let rest =
        batches-Remaining fuel k s' (drop (suc k) all) (omega (arith, length-drop (suc k) all)) left
          (All-drop IsWhole (suc k) all v) in
      subst (Batched (suc k) (reading r)) (take-append-drop (suc k) all) (
        with_batch k r s' (take (suc k) all) (drop (suc k) all) rows e are_rows
          (omega (arith, length-take-min (suc k) all)) (omega (arith, length-take-min (suc k) all))
          rest)

  -- The batches of a reader that has been opened on a file.
  pub batches-Gives :
      (k : ℕ) (r : CaptureReader lib) (ps : List (LightPacketHeader × Bytes))
      → Gives r ps
      → All IsWhole ps
      → Batched (suc k) (reading r) ps
  batches-Gives k r ps reads v =
      batches-Remaining (length ps) k (reading r) ps (omega arith) (more_packets reads) v

  classic-Gives :
      (r : ClassicPcapReader) (ps : List (LightPacketHeader × Bytes))
      → Reads r ps
      → Gives (of_classic r) ps
  unfolding next_packet
  classic-Gives r [] (at_end {r'} e) = gives_none {r' = of_classic r'} (rw e)
  classic-Gives r (p ∷ ps) (packet {r'} e reads) =
      gives {r' = of_classic r'} (rw e) (classic-Gives r' ps reads)

-- The time of a record is below 2 ^ 53 microseconds.
record_time :
    (h : PcapHeader) (p : PcapRecord)
    → IsPcapRecord p
    → micros (header_of h.nanoseconds h.linktype p) < 2 ^ 63
record_time h p w =
    let sec_fits = w.sec_fits in
    let sub_fits = w.sub_fits in
    elim (Bool-cases h.nanoseconds) [
      | inl nano ↦ rw nano (omega arith)
      | inr micro ↦ rw micro (omega arith)
    ]

packets_of-IsWhole :
    (h : PcapHeader) (ps : List PcapRecord) → All IsPcapRecord ps → All IsWhole (packets_of h ps)
packets_of-IsWhole h [] v = tt
packets_of-IsWhole h (p ∷ ps) (w, v) = (
  record { same_length = refl; length_fits = w.bytes_fit; time_fits = record_time h p w },
  packets_of-IsWhole h ps v,
)

-- `read_pqcap_packets` on a classic pcap file, in either byte order and either resolution of time
-- stamps: the call that sets it up succeeds, and the batches that it then hands out, none of them with
-- more rows than DuckDB's vectors have, are together one row for each packet, in the order of the
-- file; after them it returns no rows.
pub read_pqcap_packets-Batches :
    (format : String → List ℕ → Bytes) (lib : LightPcapng) (k : ℕ) (h : PcapHeader)
    (ps : List PcapRecord) (path : FilePath) (disk : Disk)
    → IsPcapHeader h
    → All IsPcapRecord ps
    → disk path ≡ some (encode_header h ++ encode_records h.swap ps)
    → (s : GlobalState lib) × (batches : List (List PacketRow)) × (init_global lib path disk ≡ ok s)
      × Batches format lib (suc k) s batches
      × RowsOf format (packets_of h ps) (concat batches)
      × All (λ rows. length rows ≤ suc k) batches
unfolding init_global
read_pqcap_packets-Batches format lib k h ps path disk v vs at =
    let (kind, opens) = classic-Reads h ps path disk v vs at in
    let (r, e, reads) = Returns-eq-ok opens in
    let (batches, b, rows, sizes) =
      batches-Gives format lib k (of_classic r) (packets_of h ps)
        (classic-Gives format lib r (packets_of h ps) reads) (packets_of-IsWhole h ps vs) in
    (reading format lib (of_classic r), batches, rw (kind, e), b, rows, sizes)
