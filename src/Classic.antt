-- ===== src/Classic.antt =====
-- `ClassicPcapReader` and `DetectCaptureFormat` of src/pqcap_packet_table.cpp, on a host that
-- stores the lowest byte first. A `FILE *` is the bytes that are not read yet.
pub mod Swap
pub mod Records
pub mod Header
mod Runs
use Prim.Native.Nat.{bit_and, bit_or}
use duckdb_pqcap_reader.Base.{
  ℕ, zero, suc, ◌+◌, ◌*◌, ◌%◌, ◌^◌, List, [], ◌∷◌, Option, none, some, Bool, true, false,
}
use duckdb_pqcap_reader.Base.{leb, ltb, ◌==◌, ◌||◌, ◌&&◌, not, if◌then◌else◌, length, take, drop}
use duckdb_pqcap_reader.Base.{Result, ok, throw, ◌>>=◌, io_exception, invalid_input_exception}
use duckdb_pqcap_reader.Words.{Bytes, shl, shr, le_value}
use duckdb_pqcap_reader.Stdio.{Disk, FilePath}

abbrev pub pcapng_magic : ℕ
pcapng_magic = 0x0A0D0D0A

abbrev pub pcap_magic_le : ℕ
pcap_magic_le = 0xA1B2C3D4

abbrev pub pcap_magic_be : ℕ
pcap_magic_be = 0xD4C3B2A1

abbrev pub pcap_nsec_magic_le : ℕ
pcap_nsec_magic_le = 0xA1B23C4D

abbrev pub pcap_nsec_magic_be : ℕ
pcap_nsec_magic_be = 0x4D3CB2A1

pub data CaptureReaderKind : Type 0 where
  pcapng classic_pcap : CaptureReaderKind

-- `fread(&out, n, 1, file) == 1` for a word of `n` bytes. A short read uses the file up.
abbrev pub fread_word : ℕ → Bytes → Option (ℕ × Bytes)
fread_word n file = if leb n (length file) then some (le_value (take n file), drop n file) else none

unfoldable pub detect_capture_format : FilePath → Disk → Result CaptureReaderKind
detect_capture_format path disk = elim (disk path) [
  | none ↦ throw (io_exception "read_pqcap_packets: failed to open '%s'" (path ∷ []))
  | some file ↦ elim (fread_word 4 file) [
    | none ↦ throw (io_exception "read_pqcap_packets: file too small: '%s'" (path ∷ []))
    | some (magic, rest) ↦
        if magic == pcapng_magic
        then ok pcapng
        else if (magic == pcap_magic_le || magic == pcap_magic_be)
            || (magic == pcap_nsec_magic_le || magic == pcap_nsec_magic_be)
        then ok classic_pcap
        else throw (
            invalid_input_exception
              "read_pqcap_packets: unsupported capture format (expected pcap or pcapng): '%s'"
              (path ∷ []))
  ]
]

unfoldable pub swap_u16 : ℕ → ℕ
swap_u16 out = bit_or (shr out 8) (shl (bit_and out 0xFF) 8) % 2 ^ 16

unfoldable pub swap32 : ℕ → ℕ
swap32 v =
    bit_or
      (bit_or (bit_or (bit_and (shr v 24) 0xFF) (bit_and (shr v 8) 0xFF00))
        (bit_and (shl v 8 % 2 ^ 32) 0xFF0000))
      (bit_and (shl v 24 % 2 ^ 32) 0xFF000000)

-- The `light_packet_header` of LightPcapNg; `none` is a null comment.
pub record LightPacketHeader : Type 0 where
  pub interface_id : ℕ
  pub captured_length : ℕ
  pub original_length : ℕ
  pub data_link : ℕ
  pub tv_sec : ℕ
  pub tv_nsec : ℕ
  pub comment : Option Bytes

pub record ClassicPcapReader : Type 0 where
  pub file : Bytes
  pub swap_endian : Bool
  pub nanosecond_ts : Bool
  pub linktype : ℕ
  pub finished : Bool

-- What a magic number says of byte order and time stamps, or that it is none.
unfoldable pub magic_flags : ℕ → Option (Bool × Bool)
magic_flags magic =
    if magic == pcap_magic_le
    then some (false, false)
    else if magic == pcap_magic_be
    then some (true, false)
    else if magic == pcap_nsec_magic_le
    then some (false, true)
    else if magic == pcap_nsec_magic_be
    then some (true, true)
    else none

-- The two lambdas of the constructor, and its read of `thiszone`, which is like the second.
unfoldable pub read_u16 : Bool → Bytes → Result (ℕ × Bytes)
read_u16 swap_endian file = elim (fread_word 2 file) [
  | none ↦ throw (io_exception "read_pqcap_packets: truncated pcap global header" [])
  | some (out, rest) ↦ ok (if swap_endian then swap_u16 out else out, rest)
]

unfoldable pub read_u32 : Bool → Bytes → Result (ℕ × Bytes)
read_u32 swap_endian file = elim (fread_word 4 file) [
  | none ↦ throw (io_exception "read_pqcap_packets: truncated pcap global header" [])
  | some (out, rest) ↦ ok (if swap_endian then swap32 out else out, rest)
]

unfoldable pub read_global_header : Bool → Bool → Bytes → Result ClassicPcapReader
read_global_header swap_endian nanosecond_ts file = do
  (version_major, file) ← read_u16 swap_endian file
  (version_minor, file) ← read_u16 swap_endian file
  (thiszone, file) ← read_u32 swap_endian file
  (sigfigs, file) ← read_u32 swap_endian file
  (snaplen, file) ← read_u32 swap_endian file
  (linktype, file) ← read_u32 swap_endian file
  ok (record {
    file = file;
    swap_endian = swap_endian;
    nanosecond_ts = nanosecond_ts;
    linktype = linktype;
    finished = false;
  })

-- The constructor.
unfoldable pub open_classic : FilePath → Disk → Result ClassicPcapReader
open_classic path disk = elim (disk path) [
  | none ↦ throw (io_exception "read_pqcap_packets: failed to open classic pcap '%s'" (path ∷ []))
  | some file ↦ elim (fread_word 4 file) [
    | none ↦ throw (io_exception "read_pqcap_packets: truncated pcap global header" [])
    | some (magic, rest) ↦ elim (magic_flags magic) [
      | none ↦ throw (
          invalid_input_exception "read_pqcap_packets: unsupported classic pcap magic in '%s'"
            (path ∷ []))
      | some (swap_endian, nanosecond_ts) ↦ read_global_header swap_endian nanosecond_ts rest
    ]
  ]
]

-- The four words in front of a packet, as the file has them.
unfoldable pub read_words : Bytes → Option (ℕ × ℕ × ℕ × ℕ × Bytes)
read_words file = elim (fread_word 4 file) [
  | none ↦ none
  | some (ts_sec, file) ↦ elim (fread_word 4 file) [
    | none ↦ none
    | some (ts_sub, file) ↦ elim (fread_word 4 file) [
      | none ↦ none
      | some (incl_len, file) ↦ elim (fread_word 4 file) [
        | none ↦ none
        | some (orig_len, file) ↦ some (ts_sec, ts_sub, incl_len, orig_len, file)
      ]
    ]
  ]
]

-- The packet behind the words, once they are in the host's order.
unfoldable pub read_packet :
    ClassicPcapReader
    → ℕ
    → ℕ
    → ℕ
    → ℕ
    → Bytes
    → Result (Option (LightPacketHeader × Bytes) × ClassicPcapReader)
read_packet r ts_sec ts_sub incl_len orig_len file =
    if ltb 0 incl_len && not (leb incl_len (length file))
    then throw (io_exception "read_pqcap_packets: truncated pcap packet data" [])
    else ok (
      some (
        record {
          interface_id = 0;
          captured_length = incl_len;
          original_length = orig_len;
          data_link = r.linktype % 2 ^ 16;
          tv_sec = ts_sec;
          tv_nsec = if r.nanosecond_ts then ts_sub else ts_sub * 1000;
          comment = none;
        },
        take incl_len file,
      ),
      record r { file = drop incl_len file },
    )

-- `Next`: `none` is the result `false`.
unfoldable pub next :
    ClassicPcapReader → Result (Option (LightPacketHeader × Bytes) × ClassicPcapReader)
next r = if r.finished then ok (none, r) else elim (read_words r.file) [
  | none ↦ ok (none, record r { file = []; finished = true })
  | some (ts_sec, ts_sub, incl_len, orig_len, file) ↦
      if r.swap_endian
      then read_packet r (swap32 ts_sec) (swap32 ts_sub) (swap32 incl_len) (swap32 orig_len) file
      else read_packet r ts_sec ts_sub incl_len orig_len file
]
