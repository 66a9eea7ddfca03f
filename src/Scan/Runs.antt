-- ===== src/Scan/Runs.antt =====
-- Runs of `ScanPacketLocations`, src/pqcap_copy_function.cpp, and its theorems at a small capture.
use duckdb_pqcap_reader.Base.{◌≡◌, refl, ok, List, length, ◌++◌, ◌∷◌, [], arith}
use duckdb_pqcap_reader.Words.{Bytes, codes, le_bytes}
use duckdb_pqcap_reader.Embed.{embedded, custom_body}
use duckdb_pqcap_reader.Embed.Layout.{custom_body_lem}
use duckdb_pqcap_reader.Scan.{PacketLocation, read_le32, packet_location, scan_loop, scan_bytes}
use duckdb_pqcap_reader.Scan.Format.{Block, encode_blocks, locations_of}
use duckdb_pqcap_reader.Scan.Blocks.{scan_bytes-encode_blocks}
use duckdb_pqcap_reader.Scan.Indexed.{scan_bytes-embedded}
use duckdb_pqcap_reader.Scan.Packets.{
  CaptureBlock, EnhancedPacket, encode_capture, packets_in, Addressed, scan_bytes-Addressed,
}
use duckdb_pqcap_reader.Scan.Packets as Packets
use duckdb_pqcap_reader.Scan.Sound.{Ascending, scan_bytes_sound}

-- An Enhanced Packet Block with a packet of 3 bytes, padded.
abbrev enhanced : Block
enhanced = record {
  block_type = 6;
  body =
      le_bytes 4 0
      ++ (le_bytes 4 1
          ++ (le_bytes 4 2 ++ (le_bytes 4 3 ++ (le_bytes 4 60 ++ (7 ∷ 8 ∷ 9 ∷ 0 ∷ [])))));
}

abbrev simple : Block
simple = record { block_type = 3; body = le_bytes 4 4 ++ (1 ∷ 2 ∷ 3 ∷ 4 ∷ []) }

abbrev unknown : Block
unknown = record { block_type = 5; body = [] }

abbrev blocks : List Block
blocks = unknown ∷ enhanced ∷ simple ∷ []

abbrev found : List PacketLocation
found = record { offset = 40; size = 3 } ∷ record { offset = 60; size = 4 } ∷ []

run : scan_bytes (encode_blocks blocks) ≡ ok found
unfolding scan_bytes scan_loop packet_location read_le32
run = refl

scan_bytes-encode_blocks_example : scan_bytes (encode_blocks blocks) ≡ ok (locations_of 0 blocks)
scan_bytes-encode_blocks_example = scan_bytes-encode_blocks blocks (omega arith)

scan_bytes-embedded_example :
    scan_bytes (embedded (encode_blocks blocks) (codes "PAR1")) ≡ scan_bytes (encode_blocks blocks)
scan_bytes-embedded_example =
    scan_bytes-embedded blocks (codes "PAR1") (omega arith) (omega arith) (omega arith)
      (omega (arith, length-body))
  where
    length-body : length (custom_body (codes "PAR1")) ≡ 32
    length-body = rw (custom_body_lem (codes "PAR1"))

-- Four bytes of garbage follow the first block.
abbrev broken : Bytes
broken = encode_blocks (enhanced ∷ []) ++ le_bytes 4 6

scan_bytes_sound_example :
    (locations : List PacketLocation) × (scan_bytes broken ≡ ok locations)
    × Ascending 0 (length broken) locations
scan_bytes_sound_example = scan_bytes_sound broken (omega arith)

abbrev packet_of : Bytes → EnhancedPacket
packet_of bytes = record {
  interface_id = 0;
  timestamp_high = 0;
  timestamp_low = 1;
  original_len = 60;
  packet = bytes;
  rest = [];
}

-- The block between the two packets is one of another kind.
abbrev capture : List CaptureBlock
capture =
    Packets.enhanced (packet_of (1 ∷ 2 ∷ 3 ∷ 4 ∷ []))
    ∷ Packets.other unknown
    ∷ Packets.enhanced (packet_of (5 ∷ 6 ∷ 7 ∷ 8 ∷ []))
    ∷ []

scan_bytes-Addressed_example :
    (locs : List PacketLocation) × (scan_bytes (encode_capture capture) ≡ ok locs)
    × (scan_bytes (embedded (encode_capture capture) (codes "PAR1")) ≡ ok locs)
    × Addressed (encode_capture capture) locs (packets_in capture)
    × Addressed (embedded (encode_capture capture) (codes "PAR1")) locs (packets_in capture)
scan_bytes-Addressed_example =
    scan_bytes-Addressed capture (codes "PAR1")
      (omega arith, ((omega arith, λ e. omega arith, λ e. omega arith), (omega arith, tt)))
      (omega arith) (omega arith) (omega (arith, length-body))
  where
    length-body : length (custom_body (codes "PAR1")) ≡ 32
    length-body = rw (custom_body_lem (codes "PAR1"))
