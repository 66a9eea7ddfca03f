-- ===== src/Classic/Records.antt =====
-- `ClassicPcapReader::Next` of src/pqcap_packet_table.cpp over the records of a classic pcap file.
use duckdb_pqcap_reader.Base.{ℕ, ◌*◌, ◌%◌, ◌≡◌, refl, ◌∙◌, arith, [], ◌∷◌, ◌++◌}
use duckdb_pqcap_reader.Base.{
  length, length-append, take-append, drop-append, Bool, true, false, some, none, ok,
}
use duckdb_pqcap_reader.Base.{leb, ltb, ◌&&◌, not, if◌then◌else◌}
use duckdb_pqcap_reader.Words.{Bytes, IsU32, le_value}
use duckdb_pqcap_reader.Words.Value.{le_value-le_bytes_4}
use duckdb_pqcap_reader.Classic.{ClassicPcapReader, LightPacketHeader, fread_word, swap32, next}
use duckdb_pqcap_reader.Classic.{read_words, read_packet}
use duckdb_pqcap_reader.Classic.Swap.{be_bytes_4, le_bytes_4, swap32-be_bytes}

-- A word in a file of the host's byte order, or of the other one.
abbrev pub file_u32 : Bool → ℕ → Bytes
file_u32 true v = be_bytes_4 v
file_u32 false v = le_bytes_4 v

-- What the file says of one packet.
pub record PcapRecord : Type 0 where
  pub ts_sec : ℕ
  pub ts_sub : ℕ
  pub orig_len : ℕ
  pub bytes : Bytes

pub record IsPcapRecord (p : PcapRecord) : Type 0 where
  pub sec_fits : IsU32 p.ts_sec
  pub sub_fits : IsU32 p.ts_sub
  pub orig_fits : IsU32 p.orig_len
  pub bytes_fit : IsU32 (length p.bytes)

abbrev pub encode_record : Bool → PcapRecord → Bytes
encode_record swap p =
    file_u32 swap p.ts_sec
    ++ (file_u32 swap p.ts_sub
        ++ (file_u32 swap (length p.bytes) ++ (file_u32 swap p.orig_len ++ p.bytes)))

-- The header that the reader hands out for it.
abbrev pub header_of : Bool → ℕ → PcapRecord → LightPacketHeader
header_of nanosecond_ts linktype p = record {
  interface_id = 0;
  captured_length = length p.bytes;
  original_length = p.orig_len;
  data_link = linktype % 65536;
  tv_sec = p.ts_sec;
  tv_nsec = if nanosecond_ts then p.ts_sub else p.ts_sub * 1000;
  comment = none;
}

pub fread_word_4 :
    (a b c d : ℕ) (rest : Bytes)
    → fread_word 4 (a ∷ b ∷ c ∷ d ∷ rest) ≡ some (le_value (a ∷ b ∷ c ∷ d ∷ []), rest)
fread_word_4 a b c d rest =
    let enough : leb 4 (length (a ∷ b ∷ c ∷ d ∷ rest)) ≡ true = ground arith in rw enough

-- Four words, whatever their bytes are.
read_words_lem :
    (a₀ a₁ a₂ a₃ b₀ b₁ b₂ b₃ c₀ c₁ c₂ c₃ d₀ d₁ d₂ d₃ : ℕ) (rest : Bytes)
    → read_words
        (a₀ ∷ a₁ ∷ a₂ ∷ a₃ ∷ b₀ ∷ b₁ ∷ b₂ ∷ b₃ ∷ c₀ ∷ c₁ ∷ c₂ ∷ c₃ ∷ d₀ ∷ d₁ ∷ d₂ ∷ d₃ ∷ rest)
      ≡ some (
        le_value (a₀ ∷ a₁ ∷ a₂ ∷ a₃ ∷ []),
        le_value (b₀ ∷ b₁ ∷ b₂ ∷ b₃ ∷ []),
        le_value (c₀ ∷ c₁ ∷ c₂ ∷ c₃ ∷ []),
        le_value (d₀ ∷ d₁ ∷ d₂ ∷ d₃ ∷ []),
        rest,
      )
unfolding read_words
read_words_lem a₀ a₁ a₂ a₃ b₀ b₁ b₂ b₃ c₀ c₁ c₂ c₃ d₀ d₁ d₂ d₃ rest =
    let fourth : leb 4 (length (d₀ ∷ d₁ ∷ d₂ ∷ d₃ ∷ rest)) ≡ true = ground arith in
    let third : leb 4 (length (c₀ ∷ c₁ ∷ c₂ ∷ c₃ ∷ d₀ ∷ d₁ ∷ d₂ ∷ d₃ ∷ rest)) ≡ true =
      ground arith in
    let second : leb 4 (length (b₀ ∷ b₁ ∷ b₂ ∷ b₃ ∷ c₀ ∷ c₁ ∷ c₂ ∷ c₃ ∷ d₀ ∷ d₁ ∷ d₂ ∷ d₃ ∷ rest))
        ≡ true =
      ground arith in
    let first : leb 4 (
          length
            (a₀ ∷ a₁ ∷ a₂ ∷ a₃ ∷ b₀ ∷ b₁ ∷ b₂ ∷ b₃ ∷ c₀ ∷ c₁ ∷ c₂ ∷ c₃ ∷ d₀ ∷ d₁ ∷ d₂ ∷ d₃ ∷ rest))
        ≡ true =
      ground arith in
    rw (read_words, first, second, third, fourth)

read_words-encode :
    (swap : Bool) (p : PcapRecord) (rest : Bytes)
    → read_words (encode_record swap p ++ rest)
      ≡ some (
        le_value (file_u32 swap p.ts_sec),
        le_value (file_u32 swap p.ts_sub),
        le_value (file_u32 swap (length p.bytes)),
        le_value (file_u32 swap p.orig_len),
        p.bytes ++ rest,
      )
read_words-encode true p rest = read_words_lem _ _ _ _ _ _ _ _ _ _ _ _ _ _ _ _ (p.bytes ++ rest)
read_words-encode false p rest = read_words_lem _ _ _ _ _ _ _ _ _ _ _ _ _ _ _ _ (p.bytes ++ rest)

read_packet-encode :
    (r : ClassicPcapReader) (p : PcapRecord) (rest : Bytes)
    → read_packet r p.ts_sec p.ts_sub (length p.bytes) p.orig_len (p.bytes ++ rest)
      ≡ ok (some (header_of r.nanosecond_ts r.linktype p, p.bytes), record r { file = rest })
unfolding read_packet
read_packet-encode r p rest =
    let there : leb (length p.bytes) (length (p.bytes ++ rest)) ≡ true =
      ground (arith, length-append p.bytes rest) in
    let whole : (ltb 0 (length p.bytes) && not (leb (length p.bytes) (length (p.bytes ++ rest))))
        ≡ false =
      ground arith in
    rw (
      whole,
      take-append p.bytes rest (length p.bytes) refl,
      drop-append p.bytes rest (length p.bytes) refl,
    )

-- In the host's order the words are the numbers, in the other one they are once swapped.
host_order :
    (v : ℕ)
    → IsU32 v
    → (swap32 (le_value (file_u32 true v)) ≡ v) × (le_value (file_u32 false v) ≡ v)
host_order v h = (swap32-be_bytes v h, le_value-le_bytes_4 v h)

next_in_order :
    (swap : Bool) (r : ClassicPcapReader) (p : PcapRecord) (rest : Bytes)
    → r.finished ≡ false
    → r.swap_endian ≡ swap
    → r.file ≡ encode_record swap p ++ rest
    → IsPcapRecord p
    → next r ≡ ok (some (header_of r.nanosecond_ts r.linktype p, p.bytes), record r { file = rest })
unfolding next
next_in_order true r p rest reading order at v =
    let swapped : next r
        ≡ read_packet r p.ts_sec p.ts_sub (length p.bytes) p.orig_len (p.bytes ++ rest) =
      simp (
        reading,
        order,
        at,
        read_words-encode true p rest,
        swap32-be_bytes p.ts_sec v.sec_fits,
        swap32-be_bytes p.ts_sub v.sub_fits,
        swap32-be_bytes p.orig_len v.orig_fits,
        swap32-be_bytes (length p.bytes) v.bytes_fit,
      ) in
    swapped ∙ read_packet-encode r p rest
next_in_order false r p rest reading order at v =
    let kept : next r
        ≡ read_packet r p.ts_sec p.ts_sub (length p.bytes) p.orig_len (p.bytes ++ rest) =
      simp (
        reading,
        order,
        at,
        read_words-encode false p rest,
        le_value-le_bytes_4 p.ts_sec v.sec_fits,
        le_value-le_bytes_4 p.ts_sub v.sub_fits,
        le_value-le_bytes_4 p.orig_len v.orig_fits,
        le_value-le_bytes_4 (length p.bytes) v.bytes_fit,
      ) in
    kept ∙ read_packet-encode r p rest

-- In either byte order `Next` returns the record that comes first in the file, with its time stamp
-- in seconds and nanoseconds, and leaves the file behind that record.
pub next-encode_record :
    (r : ClassicPcapReader) (p : PcapRecord) (rest : Bytes)
    → r.finished ≡ false
    → r.file ≡ encode_record r.swap_endian p ++ rest
    → IsPcapRecord p
    → next r ≡ ok (some (header_of r.nanosecond_ts r.linktype p, p.bytes), record r { file = rest })
next-encode_record r p rest reading at v = next_in_order r.swap_endian r p rest reading refl at v
