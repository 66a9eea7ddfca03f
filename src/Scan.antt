-- ===== src/Scan.antt =====
-- `ReadLE32` and `ScanPacketLocations` of src/pqcap_copy_function.cpp: where the packets of a
-- PCAP-NG file stand.
pub mod Format
pub mod Blocks
pub mod Sound
pub mod Indexed
pub mod Packets
mod Runs
use Prim.Native.Nat.{bit_or}
use duckdb_pqcap_reader.Base.{
  ℕ, zero, suc, ◌+◌, List, [], ◌∷◌, ◌++◌, Option, none, some, length, drop,
}
use duckdb_pqcap_reader.Base.{ltb, leb, ◌==◌, ◌||◌, ◌&&◌, not, if◌then◌else◌}
use duckdb_pqcap_reader.Base.{Result, ok, throw, fault, ◌>>=◌, io_exception}
use duckdb_pqcap_reader.Words.{Bytes, byte_at, shl}
use duckdb_pqcap_reader.Stdio.{Stdio, Disk, FilePath}

pub record PacketLocation : Type 0 where
  pub offset : ℕ
  pub size : ℕ

unfoldable pub read_le32 : Bytes → Result ℕ
read_le32 ptr = do
  b0 ← byte_at ptr 0
  b1 ← byte_at ptr 1
  b2 ← byte_at ptr 2
  b3 ← byte_at ptr 3
  ok (bit_or (bit_or (bit_or b0 (shl b1 8)) (shl b2 16)) (shl b3 24))

-- The packet of a block, if the block is one that holds a packet.
unfoldable pub packet_location : Bytes → ℕ → ℕ → ℕ → Result (List PacketLocation)
packet_location content pos block_type total_len =
    if block_type == 6 && leb 32 total_len
    then (do
      captured_len ← read_le32 (drop (pos + 8 + 12) content)
      ok (record { offset = pos + 28; size = captured_len } ∷ []))
    else if block_type == 3 && leb 16 total_len
    then (do
      pkt_len ← read_le32 (drop (pos + 8) content)
      ok (record { offset = pos + 12; size = pkt_len } ∷ []))
    else ok []

-- The `while` loop on fuel; running out of it is a `fault` too.
unfoldable pub scan_loop : ℕ → Bytes → ℕ → List PacketLocation → Result (List PacketLocation)
scan_loop zero content pos out = fault
scan_loop (suc fuel) content pos out = if not (leb (pos + 12) (length content)) then ok out else do
  block_type ← read_le32 (drop pos content)
  total_len ← read_le32 (drop (pos + 4) content)
  if ltb total_len 12 || ltb (length content) (pos + total_len) then ok out else do
    found ← packet_location content pos block_type total_len
    scan_loop fuel content (pos + total_len) (out ++ found)

-- The scan of the bytes of a file. A round takes at least 12 of them.
unfoldable pub scan_bytes : Bytes → Result (List PacketLocation)
scan_bytes content = scan_loop (suc (length content)) content 0 []

module _ (io : Stdio) where
  unfoldable pub scan_packet_locations : FilePath → Disk → Result (List PacketLocation)
  scan_packet_locations pcap_path disk = elim (disk pcap_path) [
    | none ↦ throw (io_exception "Failed opening output file for offset scan" [])
    | some content ↦
        let size = length content in
        if not (size == 0) && not (io.fread_count pcap_path size == size)
        then throw (io_exception "Failed reading output file for offset scan" [])
        else scan_bytes content
  ]
