-- ===== src/Classic/Header.antt =====
-- `DetectCaptureFormat` and the constructor of `ClassicPcapReader`, src/pqcap_packet_table.cpp, over
-- whole classic pcap files.
use duckdb_pqcap_reader.Base.{ℕ, ◌/◌, ◌%◌, ◌≡◌, refl, ap, ◌∙◌, arith, List, [], ◌∷◌, ◌++◌}
use duckdb_pqcap_reader.Base.{append_assoc, length, Bool, true, false, some, none, ok, All}
use duckdb_pqcap_reader.Base.{
  leb, ◌==◌, ◌||◌, throw, invalid_input_exception, Returns, returns, if◌then◌else◌,
}
use duckdb_pqcap_reader.Words.{Bytes, IsU16, IsU32, le_value}
use duckdb_pqcap_reader.Words.Value.{le_value-le_bytes_4}
use duckdb_pqcap_reader.Stdio.{Disk, FilePath}
use duckdb_pqcap_reader.Classic.{
  ClassicPcapReader, LightPacketHeader, fread_word, swap_u16, swap32, next, open_classic,
  read_words,
}
use duckdb_pqcap_reader.Classic.{
  detect_capture_format, pcapng, classic_pcap, read_u16, read_u32, read_global_header, magic_flags,
}
use duckdb_pqcap_reader.Classic.Swap.{be_bytes_2, swap32-be_bytes, swap_u16-be_bytes}
use duckdb_pqcap_reader.Classic.Records.{
  file_u32, fread_word_4, PcapRecord, IsPcapRecord, encode_record, header_of, next-encode_record,
}

-- What the global header of a file says.
pub record PcapHeader : Type 0 where
  pub swap : Bool
  pub nanoseconds : Bool
  pub version_major : ℕ
  pub version_minor : ℕ
  pub thiszone : ℕ
  pub sigfigs : ℕ
  pub snaplen : ℕ
  pub linktype : ℕ

abbrev file_u16 : Bool → ℕ → Bytes
file_u16 true v = be_bytes_2 v
file_u16 false v = (v % 256) ∷ (v / 256 % 256) ∷ []

abbrev magic_of : Bool → ℕ
magic_of true = 0xA1B23C4D
magic_of false = 0xA1B2C3D4

abbrev pub encode_header : PcapHeader → Bytes
encode_header h =
    file_u32 h.swap (magic_of h.nanoseconds)
    ++ (file_u16 h.swap h.version_major
        ++ (file_u16 h.swap h.version_minor
            ++ (file_u32 h.swap h.thiszone
                ++ (file_u32 h.swap h.sigfigs
                    ++ (file_u32 h.swap h.snaplen ++ file_u32 h.swap h.linktype)))))

abbrev pub encode_records : Bool → List PcapRecord → Bytes
encode_records swap [] = []
encode_records swap (p ∷ ps) = encode_record swap p ++ encode_records swap ps

read_u16_lem :
    (swap : Bool) (a b : ℕ) (rest : Bytes)
    → read_u16 swap (a ∷ b ∷ rest)
      ≡ ok (if swap then swap_u16 (le_value (a ∷ b ∷ [])) else le_value (a ∷ b ∷ []), rest)
unfolding read_u16
read_u16_lem swap a b rest =
    let enough : leb 2 (length (a ∷ b ∷ rest)) ≡ true = ground arith in rw (read_u16, enough)

read_u32_lem :
    (swap : Bool) (a b c d : ℕ) (rest : Bytes)
    → read_u32 swap (a ∷ b ∷ c ∷ d ∷ rest)
      ≡ ok (
        if swap then swap32 (le_value (a ∷ b ∷ c ∷ d ∷ [])) else le_value (a ∷ b ∷ c ∷ d ∷ []),
        rest,
      )
unfolding read_u32
read_u32_lem swap a b c d rest =
    let enough : leb 4 (length (a ∷ b ∷ c ∷ d ∷ rest)) ≡ true = ground arith in
    rw (read_u32, enough)

-- A number is read back from the word that the file has for it.
read_u32-file_u32 :
    (swap : Bool) (v : ℕ) (rest : Bytes)
    → IsU32 v
    → read_u32 swap (file_u32 swap v ++ rest) ≡ ok (v, rest)
read_u32-file_u32 true v rest h =
    read_u32_lem true _ _ _ _ rest ∙ ap (λ w. ok (w, rest)) (swap32-be_bytes v h)
read_u32-file_u32 false v rest h =
    read_u32_lem false _ _ _ _ rest ∙ ap (λ w. ok (w, rest)) (le_value-le_bytes_4 v h)

read_u16-file_u16 :
    (swap : Bool) (v : ℕ) (rest : Bytes)
    → IsU16 v
    → read_u16 swap (file_u16 swap v ++ rest) ≡ ok (v, rest)
read_u16-file_u16 true v rest h =
    read_u16_lem true _ _ rest ∙ ap (λ w. ok (w, rest)) (swap_u16-be_bytes v h)
read_u16-file_u16 false v rest h =
    let value : le_value ((v % 256) ∷ (v / 256 % 256) ∷ []) ≡ v = omega arith in
    read_u16_lem false _ _ rest ∙ ap (λ w. ok (w, rest)) value

pub record IsPcapHeader (h : PcapHeader) : Type 0 where
  pub major_fits : IsU16 h.version_major
  pub minor_fits : IsU16 h.version_minor
  pub zone_fits : IsU32 h.thiszone
  pub sigfigs_fits : IsU32 h.sigfigs
  pub snaplen_fits : IsU32 h.snaplen
  pub linktype_fits : IsU32 h.linktype

-- The reader behind the global header.
abbrev reader_of : PcapHeader → Bytes → ClassicPcapReader
reader_of h file = record {
  file = file;
  swap_endian = h.swap;
  nanosecond_ts = h.nanoseconds;
  linktype = h.linktype;
  finished = false;
}

read_global_header-encode :
    (h : PcapHeader) (rest : Bytes)
    → IsPcapHeader h
    → read_global_header h.swap h.nanoseconds (
        file_u16 h.swap h.version_major
        ++ (file_u16 h.swap h.version_minor
            ++ (file_u32 h.swap h.thiszone
                ++ (file_u32 h.swap h.sigfigs
                    ++ (file_u32 h.swap h.snaplen ++ (file_u32 h.swap h.linktype ++ rest))))))
      ≡ ok (reader_of h rest)
unfolding read_global_header
read_global_header-encode h rest v = rw (
  read_global_header,
  read_u16-file_u16 h.swap h.version_major _ v.major_fits,
  read_u16-file_u16 h.swap h.version_minor _ v.minor_fits,
  read_u32-file_u32 h.swap h.thiszone _ v.zone_fits,
  read_u32-file_u32 h.swap h.sigfigs _ v.sigfigs_fits,
  read_u32-file_u32 h.swap h.snaplen _ v.snaplen_fits,
  read_u32-file_u32 h.swap h.linktype rest v.linktype_fits,
)

-- The magic number as the host reads it: the first argument is a file of the other byte order.
abbrev magic_read : Bool → Bool → ℕ
magic_read true true = 0x4D3CB2A1
magic_read true false = 0xD4C3B2A1
magic_read false true = 0xA1B23C4D
magic_read false false = 0xA1B2C3D4

fread_word-magic :
    (swap nanoseconds : Bool) (rest : Bytes)
    → fread_word 4 (file_u32 swap (magic_of nanoseconds) ++ rest)
      ≡ some (magic_read swap nanoseconds, rest)
fread_word-magic true true rest = fread_word_4 0xA1 0xB2 0x3C 0x4D rest
fread_word-magic true false rest = fread_word_4 0xA1 0xB2 0xC3 0xD4 rest
fread_word-magic false true rest = fread_word_4 0x4D 0x3C 0xB2 0xA1 rest
fread_word-magic false false rest = fread_word_4 0xD4 0xC3 0xB2 0xA1 rest

magic_flags-magic_read :
    (swap nanoseconds : Bool) → magic_flags (magic_read swap nanoseconds) ≡ some (swap, nanoseconds)
unfolding magic_flags
magic_flags-magic_read true true = refl
magic_flags-magic_read true false = refl
magic_flags-magic_read false true = refl
magic_flags-magic_read false false = refl

-- The file with its header taken apart.
encode_header-append :
    (h : PcapHeader) (rest : Bytes)
    → encode_header h ++ rest
      ≡ file_u32 h.swap (magic_of h.nanoseconds)
        ++ (file_u16 h.swap h.version_major
            ++ (file_u16 h.swap h.version_minor
                ++ (file_u32 h.swap h.thiszone
                    ++ (file_u32 h.swap h.sigfigs
                        ++ (file_u32 h.swap h.snaplen ++ (file_u32 h.swap h.linktype ++ rest))))))
encode_header-append h rest = simp append_assoc

open_classic-encode :
    (h : PcapHeader) (path : FilePath) (disk : Disk) (rest : Bytes)
    → IsPcapHeader h
    → disk path ≡ some (encode_header h ++ rest)
    → open_classic path disk ≡ ok (reader_of h rest)
unfolding open_classic
open_classic-encode h path disk rest v at =
    rw
      (
        open_classic,
        at,
        encode_header-append h rest,
        fread_word-magic h.swap h.nanoseconds _,
        magic_flags-magic_read h.swap h.nanoseconds,
      )
      (read_global_header-encode h rest v)

detect-magic_read :
    (h : PcapHeader) (path : FilePath) (disk : Disk) (rest : Bytes)
    → disk path ≡ some (encode_header h ++ rest)
    → detect_capture_format path disk ≡ ok classic_pcap
unfolding detect_capture_format
detect-magic_read h path disk rest at =
    rw
      (
        detect_capture_format,
        at,
        encode_header-append h rest,
        fread_word-magic h.swap h.nanoseconds _,
      )
      (known h.swap h.nanoseconds)
  where
    known :
        (swap nanoseconds : Bool)
        → (if magic_read swap nanoseconds == 0x0A0D0D0A
            then ok pcapng
            else if (magic_read swap nanoseconds == 0xA1B2C3D4
                  || magic_read swap nanoseconds == 0xD4C3B2A1)
                || (magic_read swap nanoseconds == 0xA1B23C4D
                    || magic_read swap nanoseconds == 0x4D3CB2A1)
            then ok classic_pcap
            else throw (
                invalid_input_exception
                  "read_pqcap_packets: unsupported capture format (expected pcap or pcapng): '%s'"
                  (path ∷ [])))
          ≡ ok classic_pcap
    known true true = refl
    known true false = refl
    known false true = refl
    known false false = refl

-- `Next` called until it answers `false` hands out these packets.
pub data Reads : ClassicPcapReader → List (LightPacketHeader × Bytes) → Type 0 where
  at_end : {r r' : ClassicPcapReader} → next r ≡ ok (none, r') → Reads r []
  packet :
      {r r' : ClassicPcapReader} {p : LightPacketHeader × Bytes}
      {ps : List (LightPacketHeader × Bytes)}
      → next r ≡ ok (some p, r')
      → Reads r' ps
      → Reads r (p ∷ ps)

abbrev pub packets_of : PcapHeader → List PcapRecord → List (LightPacketHeader × Bytes)
packets_of h [] = []
packets_of h (p ∷ ps) = (header_of h.nanoseconds h.linktype p, p.bytes) ∷ packets_of h ps

next-nothing :
    (h : PcapHeader)
    → next (reader_of h []) ≡ ok (none, record (reader_of h []) { finished = true })
unfolding next read_words
next-nothing h = refl

Reads-encode_records :
    (h : PcapHeader) (ps : List PcapRecord)
    → All IsPcapRecord ps
    → Reads (reader_of h (encode_records h.swap ps)) (packets_of h ps)
Reads-encode_records h [] v = at_end (next-nothing h)
Reads-encode_records h (p ∷ ps) v =
    packet
      (next-encode_record (reader_of h (encode_records h.swap (p ∷ ps))) p
        (encode_records h.swap ps) refl refl v.0)
      (Reads-encode_records h ps v.1)

-- For a file that is a global header and whole records, in either byte order and with time stamps
-- in micro- or nanoseconds, `DetectCaptureFormat` answers classic pcap, the constructor accepts the
-- file, and `Next` hands out the packets of exactly these records in order and then answers `false`.
pub classic-Reads :
    (h : PcapHeader) (ps : List PcapRecord) (path : FilePath) (disk : Disk)
    → IsPcapHeader h
    → All IsPcapRecord ps
    → disk path ≡ some (encode_header h ++ encode_records h.swap ps)
    → (detect_capture_format path disk ≡ ok classic_pcap)
      × Returns (λ r. Reads r (packets_of h ps)) (open_classic path disk)
classic-Reads h ps path disk v vs at = (
  detect-magic_read h path disk _ at,
  rw (open_classic-encode h path disk _ v at) (returns (Reads-encode_records h ps vs)),
)
