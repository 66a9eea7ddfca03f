-- ===== src/Scan/Packets.antt =====
-- Captures whose packets stand in Enhanced and Simple Packet Blocks, and what the scan of
-- src/pqcap_copy_function.cpp makes of them.
use duckdb_pqcap_reader.Base.{
  ℕ, suc, ◌+◌, ◌≡◌, ◌≢◌, refl, sym, ap, ◌∙◌, arith, List, [], ◌∷◌, ◌++◌, append_assoc, append-nil,
  length, length-append, All,
}
use duckdb_pqcap_reader.Base.{leb, ◌==◌, false, true, ok}
use mathlib.Core.Path.{subst}
use duckdb_pqcap_reader.Words.{Bytes, IsByte, IsU32, IsU64, le_bytes, slice}
use duckdb_pqcap_reader.Words.Value.{le_value-le_bytes_4}
use duckdb_pqcap_reader.Words.Segments.{slice_middle}
use duckdb_pqcap_reader.Embed.{custom_body, embedded}
use duckdb_pqcap_reader.Embed.Layout.{block_format, embedded_parts}
use duckdb_pqcap_reader.Embed.{pqcap_custom_block_type}
use duckdb_pqcap_reader.Embed.Layout.{embedded_locator}
use duckdb_pqcap_reader.Footer.Format.{footer_format}
use duckdb_pqcap_reader.Scan.{PacketLocation, scan_bytes}
use duckdb_pqcap_reader.Scan.Format.{
  Block, IsBlock, total_len, encode_block, encode_blocks, location_of, locations_of,
  length-encode_block,
}
use duckdb_pqcap_reader.Scan.Blocks.{scan_bytes-encode_blocks}
use duckdb_pqcap_reader.Scan.Indexed.{scan_bytes-embedded}

-- An Enhanced Packet Block: behind the packet stand its padding and the options.
pub record EnhancedPacket : Type 0 where
  pub interface_id : ℕ
  pub timestamp_high : ℕ
  pub timestamp_low : ℕ
  pub original_len : ℕ
  pub packet : Bytes
  pub rest : Bytes

abbrev pub enhanced_block : EnhancedPacket → Block
enhanced_block e = record {
  block_type = 6;
  body =
      le_bytes 4 e.interface_id
      ++ (le_bytes 4 e.timestamp_high
          ++ (le_bytes 4 e.timestamp_low
              ++ (le_bytes 4 (length e.packet)
                  ++ (le_bytes 4 e.original_len ++ (e.packet ++ e.rest)))));
}

-- A Simple Packet Block that holds its whole packet: the length in front, which is the original one, is
-- then that of the packet. Behind it stands its padding.
pub record SimplePacket : Type 0 where
  pub packet : Bytes
  pub rest : Bytes

abbrev pub simple_block : SimplePacket → Block
simple_block e = record {
  block_type = 3;
  body = le_bytes 4 (length e.packet) ++ (e.packet ++ e.rest);
}

-- A block of a capture: one that holds a packet, or one of another type.
pub data CaptureBlock : Type 0 where
  enhanced : EnhancedPacket → CaptureBlock
  simple : SimplePacket → CaptureBlock
  other : Block → CaptureBlock

abbrev pub block_in : CaptureBlock → Block
block_in (enhanced e) = enhanced_block e
block_in (simple e) = simple_block e
block_in (other b) = b

abbrev pub IsCaptureBlock : CaptureBlock → Type 0
IsCaptureBlock (enhanced e) = IsBlock (enhanced_block e)
IsCaptureBlock (simple e) = IsBlock (simple_block e)
IsCaptureBlock (other b) = IsBlock b × (b.block_type ≢ 3) × (b.block_type ≢ 6)

abbrev pub blocks_in : List CaptureBlock → List Block
blocks_in [] = []
blocks_in (c ∷ cs) = block_in c ∷ blocks_in cs

abbrev pub encode_capture : List CaptureBlock → Bytes
encode_capture cs = encode_blocks (blocks_in cs)

abbrev pub packets_in : List CaptureBlock → List Bytes
packets_in [] = []
packets_in (enhanced e ∷ cs) = e.packet ∷ packets_in cs
packets_in (simple e ∷ cs) = e.packet ∷ packets_in cs
packets_in (other b ∷ cs) = packets_in cs

-- Each location of the first list is that of the packet at its place in the second.
abbrev pub Addressed : Bytes → List PacketLocation → List Bytes → Type 0
Addressed content [] [] = Unit
Addressed content [] (packet ∷ packets) = ⊥
Addressed content (loc ∷ locs) [] = ⊥
Addressed content (loc ∷ locs) (packet ∷ packets) =
    (slice loc.offset loc.size content ≡ packet) × Addressed content locs packets

pub Addressed-length :
    (content : Bytes) (locs : List PacketLocation) (packets : List Bytes)
    → Addressed content locs packets
    → length locs ≡ length packets
Addressed-length content [] [] h = refl
Addressed-length content [] (packet ∷ packets) h = absurd h
Addressed-length content (loc ∷ locs) [] h = absurd h
Addressed-length content (loc ∷ locs) (packet ∷ packets) (here, h) =
    ap suc (Addressed-length content locs packets h)

pub IsBlock-blocks_in :
    (cs : List CaptureBlock) → All IsCaptureBlock cs → All IsBlock (blocks_in cs)
IsBlock-blocks_in [] h = tt
IsBlock-blocks_in (enhanced e ∷ cs) (v, h) = (v, IsBlock-blocks_in cs h)
IsBlock-blocks_in (simple e ∷ cs) (v, h) = (v, IsBlock-blocks_in cs h)
IsBlock-blocks_in (other b ∷ cs) ((v, no_simple, no_enhanced), h) = (v, IsBlock-blocks_in cs h)

location_of-enhanced :
    (pos : ℕ) (e : EnhancedPacket)
    → IsBlock (enhanced_block e)
    → location_of pos (enhanced_block e) ≡ record { offset = pos + 28; size = length e.packet } ∷ []
location_of-enhanced pos e v =
    let size : IsU32 (length e.packet) =
      omega (arith, v.length_fits, length-append e.packet e.rest) in
    let long : leb 20 (length (enhanced_block e).body) ≡ true = ground arith in
    rw (location_of, long, le_value-le_bytes_4 (length e.packet) size)

location_of-simple :
    (pos : ℕ) (e : SimplePacket)
    → IsBlock (simple_block e)
    → location_of pos (simple_block e) ≡ record { offset = pos + 12; size = length e.packet } ∷ []
location_of-simple pos e v =
    let size : IsU32 (length e.packet) =
      omega (arith, v.length_fits, length-append e.packet e.rest) in
    let long : leb 4 (length (simple_block e).body) ≡ true = ground arith in
    rw (location_of, long, le_value-le_bytes_4 (length e.packet) size)

location_of-other :
    (pos : ℕ) (b : Block) → b.block_type ≢ 3 → b.block_type ≢ 6 → location_of pos b ≡ []
location_of-other pos b no_simple no_enhanced =
    let simple : (b.block_type == 3) ≡ false = ground arith in
    let enhanced : (b.block_type == 6) ≡ false = ground arith in rw (simple, enhanced)

-- A packet behind the bytes in front of it, in a block that stands somewhere in a file.
slice-packet :
    (front before packet rest len tail : Bytes) (i : ℕ)
    → i ≡ length front + length before
    → slice i (length packet) (front ++ (before ++ (((packet ++ rest) ++ len) ++ tail))) ≡ packet
slice-packet front before packet rest len tail i at =
    let back = rest ++ (len ++ tail) in
    let body : ((packet ++ rest) ++ len) ++ tail ≡ packet ++ back =
      append_assoc (packet ++ rest) len tail ∙ append_assoc packet rest (len ++ tail) in
    ap (slice i (length packet))
      (ap (λ t. front ++ (before ++ t)) body ∙ sym (append_assoc front before (packet ++ back)))
    ∙ slice_middle (front ++ before) packet back i (length packet)
        (omega (arith, length-append front before)) refl

abbrev in_front_of_enhanced : EnhancedPacket → Bytes
in_front_of_enhanced e =
    le_bytes 4 6
    ++ (le_bytes 4 (total_len (enhanced_block e))
        ++ (le_bytes 4 e.interface_id
            ++ (le_bytes 4 e.timestamp_high
                ++ (le_bytes 4 e.timestamp_low
                    ++ (le_bytes 4 (length e.packet) ++ le_bytes 4 e.original_len)))))

abbrev in_front_of_simple : SimplePacket → Bytes
in_front_of_simple e =
    le_bytes 4 3 ++ (le_bytes 4 (total_len (simple_block e)) ++ le_bytes 4 (length e.packet))

-- The location of a packet in front of the others.
Addressed-cons :
    (content : Bytes) (loc : PacketLocation) (here locs : List PacketLocation) (packet : Bytes)
    (packets : List Bytes)
    → here ≡ loc ∷ []
    → slice loc.offset loc.size content ≡ packet
    → Addressed content locs packets
    → Addressed content (here ++ locs) (packet ∷ packets)
Addressed-cons content loc here locs packet packets one at rest =
    subst (λ first. Addressed content (first ++ locs) (packet ∷ packets)) (sym one) (at, rest)

-- The first block, of whatever kind.
first_block :
    (c : CaptureBlock) (cs : List CaptureBlock) (front tail content : Bytes) (pos : ℕ)
    (locs : List PacketLocation)
    → IsCaptureBlock c
    → content ≡ front ++ (encode_block (block_in c) ++ tail)
    → pos ≡ length front
    → Addressed content locs (packets_in cs)
    → Addressed content (location_of pos (block_in c) ++ locs) (packets_in (c ∷ cs))
first_block (enhanced e) cs front tail content pos locs v here at rest =
    Addressed-cons content (record { offset = pos + 28; size = length e.packet }) _ locs e.packet
      (packets_in cs) (location_of-enhanced pos e v)
      (ap (slice (pos + 28) (length e.packet)) here
        ∙ slice-packet front (in_front_of_enhanced e) e.packet e.rest
            (le_bytes 4 (total_len (enhanced_block e))) tail (pos + 28) (omega arith))
      rest
first_block (simple e) cs front tail content pos locs v here at rest =
    Addressed-cons content (record { offset = pos + 12; size = length e.packet }) _ locs e.packet
      (packets_in cs) (location_of-simple pos e v)
      (ap (slice (pos + 12) (length e.packet)) here
        ∙ slice-packet front (in_front_of_simple e) e.packet e.rest
            (le_bytes 4 (total_len (simple_block e))) tail (pos + 12) (omega arith))
      rest
first_block (other b) cs front tail content pos locs (v, no_simple, no_enhanced) here at rest =
    subst (λ first. Addressed content (first ++ locs) (packets_in cs))
      (sym (location_of-other pos b no_simple no_enhanced)) rest

-- The packets of a capture that stands somewhere in a file.
locations_of-Addressed :
    (cs : List CaptureBlock) (front tail content : Bytes) (pos : ℕ)
    → All IsCaptureBlock cs
    → content ≡ front ++ (encode_capture cs ++ tail)
    → pos ≡ length front
    → Addressed content (locations_of pos (blocks_in cs)) (packets_in cs)
locations_of-Addressed [] front tail content pos h whole at = tt
locations_of-Addressed (c ∷ cs) front tail content pos (v, h) whole at =
    let b = block_in c in
    let block = encode_block b in
    let here : content ≡ front ++ (block ++ (encode_capture cs ++ tail)) =
      whole ∙ ap (λ t. front ++ t) (append_assoc block (encode_capture cs) tail) in
    let rest =
      locations_of-Addressed cs (front ++ block) tail content (pos + total_len b) h
        (here ∙ sym (append_assoc front block (encode_capture cs ++ tail)))
        (omega (arith, length-append front block, length-encode_block b)) in
    first_block c cs front (encode_capture cs ++ tail) content pos _ v here at rest

-- On a capture in whole blocks, in which each Simple Packet Block holds its whole packet and each
-- Enhanced Packet Block the bytes that it counts as captured, the scan returns one location for each of
-- these blocks, in their order, and the bytes there are the packet's, in the capture and also in the
-- file that indexing makes of it, where the sizes fit 64 bits and the custom block 32.
pub scan_bytes-Addressed :
    (cs : List CaptureBlock) (parquet : Bytes)
    → All IsCaptureBlock cs
    → All IsByte parquet
    → IsU64 (length (encode_capture cs) + 33)
    → IsU32 (12 + length (custom_body parquet))
    → (locs : List PacketLocation) × (scan_bytes (encode_capture cs) ≡ ok locs)
      × (scan_bytes (embedded (encode_capture cs) parquet) ≡ ok locs)
      × Addressed (encode_capture cs) locs (packets_in cs)
      × Addressed (embedded (encode_capture cs) parquet) locs (packets_in cs)
scan_bytes-Addressed cs parquet vs bytes fits short =
    let capture = encode_capture cs in
    let blocks = IsBlock-blocks_in cs vs in
    let scanned = scan_bytes-encode_blocks (blocks_in cs) blocks in
    let index =
      block_format pqcap_custom_block_type (custom_body parquet)
      ++ footer_format 1 0 (embedded_locator capture parquet) in
    (
      locations_of 0 (blocks_in cs),
      scanned,
      scan_bytes-embedded (blocks_in cs) parquet blocks bytes fits short ∙ scanned,
      locations_of-Addressed cs [] [] capture 0 vs (sym (append-nil capture)) refl,
      locations_of-Addressed cs [] index (embedded capture parquet) 0 vs
          (embedded_parts capture parquet fits) refl,
    )
