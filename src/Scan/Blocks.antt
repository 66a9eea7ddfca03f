-- ===== src/Scan/Blocks.antt =====
-- The scan of src/pqcap_copy_function.cpp over a sequence of PCAP-NG blocks.
use duckdb_pqcap_reader.Base.{
  ℕ, suc, ◌+◌, ◌-◌, ◌≤◌, ◌≡◌, refl, sym, ap, ◌∙◌, arith, List, [], ◌∷◌, ◌++◌,
}
use duckdb_pqcap_reader.Base.{append_assoc, append-nil, length, length-append, All, All-append}
use duckdb_pqcap_reader.Base.{false, ok, leb}
use duckdb_pqcap_reader.Words.{Bytes, IsByte}
use duckdb_pqcap_reader.Scan.{PacketLocation, scan_loop, scan_bytes}
use duckdb_pqcap_reader.Scan.Format.{
  Block, IsBlock, total_len, encode_block, encode_blocks, location_of, locations_of,
  encode_block-IsByte, length-encode_block, scan_step,
}

pub encode_blocks-IsByte : (bs : List Block) → All IsBlock bs → All IsByte (encode_blocks bs)
encode_blocks-IsByte [] h = tt
encode_blocks-IsByte (b ∷ bs) (v, vs) =
    All-append IsByte (encode_block b) (encode_blocks bs) (encode_block-IsByte b v)
      (encode_blocks-IsByte bs vs)

-- The first round, at a position and on fuel that are known by equations.
scan_first :
    (front tail : Bytes) (b : Block) (fuel rest pos : ℕ) (out : List PacketLocation)
    → IsBlock b
    → All IsByte tail
    → pos ≡ length front
    → fuel ≡ suc rest
    → scan_loop fuel (front ++ (encode_block b ++ tail)) pos out
      ≡ scan_loop rest
          ((front ++ encode_block b) ++ tail)
          (pos + total_len b)
          (out ++ location_of pos b)
scan_first front tail b fuel rest pos out v bytes at e =
    rw (at, e)
      (scan_step front tail b v bytes rest out
        ∙ ap
            (λ c.
              scan_loop rest c (length front + total_len b) (out ++ location_of (length front) b))
            (sym (append_assoc front (encode_block b) tail)))

same_loop :
    (fuel : ℕ) {c c' : Bytes} {pos pos' : ℕ} {out out' : List PacketLocation}
    → c ≡ c'
    → pos ≡ pos'
    → out ≡ out'
    → scan_loop fuel c pos out ≡ scan_loop fuel c' pos' out'
same_loop fuel same_content same_pos same_out = cc

-- The loop goes through whole blocks and is then at what follows them.
pub scan_loop-encode_blocks :
    (bs : List Block) (front tail : Bytes) (fuel fuel' pos : ℕ) (out : List PacketLocation)
    → pos ≡ length front
    → All IsBlock bs
    → All IsByte tail
    → fuel ≡ length bs + fuel'
    → scan_loop fuel (front ++ (encode_blocks bs ++ tail)) pos out
      ≡ scan_loop fuel'
          (front ++ (encode_blocks bs ++ tail))
          (pos + length (encode_blocks bs))
          (out ++ locations_of pos bs)
scan_loop-encode_blocks [] front tail fuel fuel' pos out at vs bytes e =
    let fuel_is : fuel ≡ fuel' = omega arith in
    let stays : pos + 0 ≡ pos = omega arith in rw (fuel_is, stays, append-nil)
scan_loop-encode_blocks (b ∷ bs) front tail fuel fuel' pos out at (v, vs) bytes e =
    let rest = encode_blocks bs ++ tail in
    let regroup : (encode_block b ++ encode_blocks bs) ++ tail ≡ encode_block b ++ rest =
      append_assoc (encode_block b) (encode_blocks bs) tail in
    let size = length-encode_block b in
    rw regroup (
      scan_first front rest b fuel (length bs + fuel') pos out v
        (All-append IsByte (encode_blocks bs) tail (encode_blocks-IsByte bs vs) bytes) at
        (omega arith)
      ∙ (scan_loop-encode_blocks bs (front ++ encode_block b) tail (length bs + fuel') fuel'
            (pos + total_len b) (out ++ location_of pos b)
            (omega (arith, length-append front (encode_block b))) vs bytes refl
          ∙ same_loop fuel' (append_assoc front (encode_block b) rest)
              (omega (arith, size, length-append (encode_block b) (encode_blocks bs)))
              (append_assoc out (location_of pos b) (locations_of (pos + total_len b) bs))))

-- Each block takes twelve bytes at least.
pub blocks-le-length : (bs : List Block) → length bs ≤ length (encode_blocks bs)
blocks-le-length [] = omega arith
blocks-le-length (b ∷ bs) = omega (
  arith,
  blocks-le-length bs,
  length-encode_block b,
  length-append (encode_block b) (encode_blocks bs),
)

-- The loop stops at the end of the content.
scan_at_end :
    (fuel : ℕ) (content : Bytes) (pos : ℕ) (out : List PacketLocation)
    → length content ≤ pos
    → scan_loop (suc fuel) content pos out ≡ ok out
unfolding scan_loop
scan_at_end fuel content pos out h =
    let past : leb (pos + 12) (length content) ≡ false = ground arith in rw past

-- On a file that is a sequence of whole blocks the scan returns one location for each Enhanced and each
-- Simple Packet Block, in their order: the position of its packet in the file, and as size the word
-- that the block has in front of it, which is the captured length in an Enhanced Packet Block, but the
-- original length in a Simple Packet Block, also where the packet was cut.
pub scan_bytes-encode_blocks :
    (bs : List Block) → All IsBlock bs → scan_bytes (encode_blocks bs) ≡ ok (locations_of 0 bs)
unfolding scan_bytes
scan_bytes-encode_blocks bs vs =
    let bytes = encode_blocks bs in
    let spare = length bytes - length bs in
    let enough = blocks-le-length bs in
    same_loop (suc (length bytes)) (sym (append-nil bytes)) refl refl
    ∙ (scan_loop-encode_blocks bs [] [] (suc (length bytes)) (suc spare) 0 [] refl vs tt
          (omega arith)
        ∙ scan_at_end spare (bytes ++ []) (0 + length bytes) (locations_of 0 bs)
            (omega (arith, length-append bytes [])))
