-- ===== src/Words.antt =====
-- Bytes, the words that they spell, and reads through a pointer: what pqcap_footer.cpp,
-- pqcap_copy_function.cpp and pqcap_packet_table.cpp do by shifts and masks.
pub mod Bits
pub mod Value
pub mod Segments
pub mod Equality
use Prim.Native.Char.{code}
use Prim.Native.String
use duckdb_pqcap_reader.Base.{ℕ, zero, suc, ◌+◌, ◌*◌, ◌/◌, ◌%◌, ◌^◌, ◌<◌, String}
use duckdb_pqcap_reader.Base.{List, [], ◌∷◌, Result, ok, fault, take, drop}

-- A `std::string` and a `std::vector<uint8_t>` alike.
abbrev pub Bytes : Type 0
Bytes = List ℕ

abbrev pub IsByte : ℕ → Type 0
IsByte b = b < 256

abbrev pub IsU16 : ℕ → Type 0
IsU16 v = v < 65536

abbrev pub IsU32 : ℕ → Type 0
IsU32 v = v < 4294967296

abbrev pub IsU64 : ℕ → Type 0
IsU64 v = v < 18446744073709551616

abbrev pub shl : ℕ → ℕ → ℕ
shl v k = v * 2 ^ k

abbrev pub shr : ℕ → ℕ → ℕ
shr v k = v / 2 ^ k

-- The bytes of an ASCII literal.
abbrev pub codes : String → Bytes
codes String.[] = []
codes (String.◌∷◌ c s) = code c ∷ codes s

-- `p[i]`, where the bytes from `p` on are the list.
abbrev pub byte_at : Bytes → ℕ → Result ℕ
byte_at [] i = fault
byte_at (b ∷ p) zero = ok b
byte_at (b ∷ p) (suc i) = byte_at p i

-- The `n` bytes from position `i` on.
abbrev pub slice : ℕ → ℕ → Bytes → Bytes
slice i n p = take n (drop i p)

-- The number that bytes spell, lowest first.
abbrev pub le_value : Bytes → ℕ
le_value [] = 0
le_value (b ∷ p) = b + 256 * le_value p

-- The `n` lowest bytes of a number, lowest first.
abbrev pub le_bytes : ℕ → ℕ → Bytes
le_bytes zero v = []
le_bytes (suc n) v = (v % 256) ∷ le_bytes n (v / 256)
