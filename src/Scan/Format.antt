-- ===== src/Scan/Format.antt =====
-- The blocks of a PCAP-NG file, and one round of the scan of src/pqcap_copy_function.cpp over them.
use duckdb_pqcap_reader.Base.{ℕ, suc, ◌+◌, ◌≤◌, ◌≡◌, refl, sym, ap, ◌∙◌, arith, List, [], ◌∷◌, ◌++◌}
use duckdb_pqcap_reader.Base.{
  length, length-append, length-drop, All, All-append, All-drop, take, drop, drop-drop, drop-append,
}
use duckdb_pqcap_reader.Base.{
  false, Bool-cases, inl, inr, true, ok, leb, ltb, ◌==◌, ◌&&◌, if◌then◌else◌,
}
use duckdb_pqcap_reader.Words.{Bytes, IsByte, IsU32, le_value, le_bytes, slice}
use duckdb_pqcap_reader.Words.Segments.{slice-append_left}
use duckdb_pqcap_reader.Words.Value.{le_value-le_bytes_4, le_bytes-IsByte}
use duckdb_pqcap_reader.Footer.{read_u32_le}
use duckdb_pqcap_reader.Footer.Reads.{read_u32_le_lem}
use duckdb_pqcap_reader.Scan.{PacketLocation, read_le32, packet_location, scan_loop}

-- The reader of this file is that of src/pqcap_footer.cpp.
pub read_le32_lem :
    (p : Bytes) → 4 ≤ length p → All IsByte p → read_le32 p ≡ ok (le_value (take 4 p))
unfolding read_le32 read_u32_le
read_le32_lem p h bytes = read_u32_le_lem p h bytes

-- A block of the format: its type, its total length, its body and its total length again.
pub record Block : Type 0 where
  pub block_type : ℕ
  pub body : Bytes

abbrev pub total_len : Block → ℕ
total_len b = 12 + length b.body

pub record IsBlock (b : Block) : Type 0 where
  pub type_fits : IsU32 b.block_type
  pub length_fits : IsU32 (12 + length b.body)
  pub bytes : All IsByte b.body

abbrev pub encode_block : Block → Bytes
encode_block b =
    le_bytes 4 b.block_type ++ (le_bytes 4 (total_len b) ++ (b.body ++ le_bytes 4 (total_len b)))

abbrev pub encode_blocks : List Block → Bytes
encode_blocks [] = []
encode_blocks (b ∷ bs) = encode_block b ++ encode_blocks bs

-- An Enhanced Packet Block has 20 bytes in front of its packet, the captured length at 12; a Simple
-- Packet Block has the packet's original length in front of it, not the captured one.
abbrev pub location_of : ℕ → Block → List PacketLocation
location_of pos b =
    if b.block_type == 6 && leb 20 (length b.body)
    then record { offset = pos + 28; size = le_value (slice 12 4 b.body) } ∷ []
    else if b.block_type == 3 && leb 4 (length b.body)
    then record { offset = pos + 12; size = le_value (slice 0 4 b.body) } ∷ []
    else []

abbrev pub locations_of : ℕ → List Block → List PacketLocation
locations_of pos [] = []
locations_of pos (b ∷ bs) = location_of pos b ++ locations_of (pos + total_len b) bs

pub encode_block-IsByte : (b : Block) → IsBlock b → All IsByte (encode_block b)
encode_block-IsByte b v = (
  omega arith,
  (
    omega arith,
    (
      omega arith,
      (
        omega arith,
        (
          omega arith,
          (
            omega arith,
            (
              omega arith,
              (
                omega arith,
                All-append IsByte b.body (le_bytes 4 (total_len b)) v.bytes
                    (le_bytes-IsByte 4 (total_len b)),
              ),
            ),
          ),
        ),
      ),
    ),
  ),
)

pub length-encode_block : (b : Block) → length (encode_block b) ≡ total_len b
length-encode_block b = omega (arith, length-append b.body (le_bytes 4 (total_len b)))

module _ (front tail : Bytes) (b : Block) (v : IsBlock b) (tail_bytes : All IsByte tail) where
  abbrev pub content : Bytes
  content = front ++ (encode_block b ++ tail)

  from_block : drop (length front) content ≡ encode_block b ++ tail
  from_block = drop-append front (encode_block b ++ tail) (length front) refl

  -- A read at a position of the block.
  read_in_block :
      (i pos : ℕ)
      → i + 4 ≤ total_len b
      → pos ≡ i + length front
      → read_le32 (drop pos content) ≡ ok (le_value (slice i 4 (encode_block b)))
  read_in_block i pos fits at =
      let here : drop pos content ≡ drop i (encode_block b ++ tail) =
        sym (drop-drop content i (length front) pos at) ∙ ap (drop i) from_block in
      rw here (
        read_le32_lem (drop i (encode_block b ++ tail))
          (omega (
            arith,
            length-drop i (encode_block b ++ tail),
            length-append (encode_block b) tail,
            length-encode_block b,
          ))
          (All-drop IsByte i (encode_block b ++ tail)
            (All-append IsByte (encode_block b) tail (encode_block-IsByte b v) tail_bytes))
        ∙ ap (λ t. ok (le_value t))
            (slice-append_left (encode_block b) tail i 4 (omega (arith, length-encode_block b))))

  -- A field of the body.
  read_in_body :
      (i pos : ℕ)
      → i + 4 ≤ length b.body
      → pos ≡ 8 + i + length front
      → read_le32 (drop pos content) ≡ ok (le_value (slice i 4 b.body))
  read_in_body i pos fits at =
      read_in_block (8 + i) pos (omega arith) at
      ∙ ap (λ t. ok (le_value t))
          (from_body ∙ slice-append_left b.body (le_bytes 4 (total_len b)) i 4 fits)
    where
      from_body : slice (8 + i) 4 (encode_block b) ≡ slice i 4 (b.body ++ le_bytes 4 (total_len b))
      from_body = ap (take 4) (sym (drop-drop (encode_block b) i 8 (8 + i) (omega arith)))

  packet_location_lem :
      packet_location content (length front) b.block_type (total_len b)
      ≡ ok (location_of (length front) b)
  unfolding packet_location
  packet_location_lem =
      rw
        (
          same_test 32 20 (length b.body) (omega arith),
          same_test 16 4 (length b.body) (omega arith),
        )
        (elim (Bool-cases (b.block_type == 6 && leb 20 (length b.body))) [
          | inl enhanced ↦ rw (
            enhanced,
            read_in_body 12 (length front + 8 + 12) (omega (arith, large 6 20 enhanced))
                (omega arith),
          )
          | inr other ↦ elim (Bool-cases (b.block_type == 3 && leb 4 (length b.body))) [
            | inl simple ↦ rw (
              other,
              simple,
              read_in_body 0 (length front + 8) (omega (arith, large 3 4 simple)) (omega arith),
            )
            | inr none ↦ rw (other, none)
          ]
        ])
    where
      same_test : (m k n : ℕ) → m ≡ 12 + k → leb m (12 + n) ≡ leb k n
      same_test m k n e = ground arith

      large : (t k : ℕ) → (b.block_type == t && leb k (length b.body)) ≡ true → k ≤ length b.body
      large t k h = ground arith

  pub scan_step :
      (fuel : ℕ) (out : List PacketLocation)
      → scan_loop (suc fuel) content (length front) out
        ≡ scan_loop fuel content (length front + total_len b) (out ++ location_of (length front) b)
  unfolding scan_loop
  scan_step fuel out =
      let size : length content ≡ length front + (total_len b + length tail) = omega (
        arith,
        length-append front (encode_block b ++ tail),
        length-append (encode_block b) tail,
        length-encode_block b,
      ) in
      let kind = le_value-le_bytes_4 b.block_type v.type_fits in
      let len = le_value-le_bytes_4 (total_len b) v.length_fits in
      let in_file : leb (length front + 12) (length content) ≡ true = ground arith in
      let long : ltb (total_len b) 12 ≡ false = ground arith in
      let complete : ltb (length content) (length front + total_len b) ≡ false = ground arith in
      rw (in_file, read_in_block 0 (length front) (omega arith) (omega arith))
        (rw (read_in_block 4 (length front + 4) (omega arith) (omega arith), kind, len)
          (rw (long, complete, packet_location_lem)))
