-- ===== src/Table/Pcapng.antt =====
-- `read_pqcap_packets`, src/pqcap_packet_table.cpp, on a PCAP-NG file, whose packets LightPcapNg hands out.
use duckdb_pqcap_reader.Base.{
  ℕ, ◌≡◌, List, [], ◌∷◌, none, some, false, true, leb, length, arith, ok, String,
}
use duckdb_pqcap_reader.Words.{Bytes}
use duckdb_pqcap_reader.Classic.{LightPacketHeader, detect_capture_format}
use duckdb_pqcap_reader.Stdio.{Disk, FilePath}
use duckdb_pqcap_reader.Table.{LightPcapng, of_pcapng, next_packet, init_global, open_reader}
use duckdb_pqcap_reader.Table.Batches.{Gives, gives_none, gives}

-- The reader of a PCAP-NG file hands out these packets and then ends.
pub data HandsOut (lib : LightPcapng) : lib.Reader → List (LightPacketHeader × Bytes) → Type 0 where
  no_packet : {r : lib.Reader} → lib.get_next_packet r ≡ none → HandsOut lib r []
  next_one :
      {r r' : lib.Reader} {p : LightPacketHeader × Bytes} {ps : List (LightPacketHeader × Bytes)}
      → lib.get_next_packet r ≡ some (p.0, some p.1, r')
      → HandsOut lib r' ps
      → HandsOut lib r (p ∷ ps)

pub HandsOut-Gives :
    (lib : LightPcapng) (r : lib.Reader) (ps : List (LightPacketHeader × Bytes))
    (format : String → List ℕ → Bytes)
    → HandsOut lib r ps
    → Gives format lib (of_pcapng r) ps
unfolding next_packet
HandsOut-Gives lib r [] format (no_packet e) = gives_none {r' = of_pcapng r} (rw (next_packet, e))
HandsOut-Gives lib r (p ∷ ps) format (next_one {r'} e h) =
    gives {r' = of_pcapng r'} (rw (next_packet, e)) (HandsOut-Gives lib r' ps format h)

pub init_global-pcapng :
    (lib : LightPcapng) (path : FilePath) (disk : Disk) (content : Bytes) (r : lib.Reader)
    → disk path ≡ some (10 ∷ 13 ∷ 13 ∷ 10 ∷ content)
    → lib.open_read path disk ≡ some r
    → init_global lib path disk ≡ ok (record { reader = of_pcapng r; finished = false })
unfolding init_global detect_capture_format open_reader
init_global-pcapng lib path disk content r at opens =
    let enough : leb 4 (length (10 ∷ 13 ∷ 13 ∷ 10 ∷ content)) ≡ true = ground arith in
    rw (detect_capture_format, at, enough, open_reader, opens)
