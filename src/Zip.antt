-- ===== src/Zip.antt =====
-- packages/core/src/zip.ts: the archive of an export, written and read. zlib and the encoding of names are
-- parameters. The bytes of a number are the lowest first, and every read is inside the archive by the test
-- before it.
pub mod Write
pub mod Read
pub mod Checked
use sigillo.Common.{
  ℕ, zero, suc, ◌+◌, ◌-◌, ◌*◌, ◌/◌, ◌%◌, max, Bool, true, false, not, ◌&&◌, ◌||◌, Option, none,
  some, List, [], ◌∷◌, ◌++◌, length, take, drop, get_elem?, replicate, leb, ltb, ◌==◌,
  if◌then◌else◌, Result, ok, err, ◌>>=◌, ◌>>◌, guard,
}
use sigillo.Crypto.{Bytes}
use sigillo.Text.{Text, text_eq, codes}

-- What node provides. Inflating stops, and fails, past the greatest length given.
pub record ZipCodec : Type 0 where
  pub utf8 : Text → Bytes
  pub from_utf8 : Bytes → Text
  pub deflate : Bytes → Bytes
  pub inflate : Bytes → ℕ → Option Bytes

pub record ZipEntry : Type 0 where
  pub name : Text
  pub contents : Bytes

-- `ZipError`, by what is wrong, and node's refusal to write a number that does not fit its bytes.
pub data ZipError : Type 0 where
  unusable_name duplicate_entry too_large does_not_fit : ZipError
  not_an_archive malformed_directory encrypted past_limit : ZipError
  no_local_header other_local_name truncated not_deflated unsupported_method : ZipError
  other_size other_checksum : ZipError

abbrev pub max_size : ℕ
max_size = 4294967295

abbrev pub local_header : ℕ
local_header = 67324752

abbrev pub central_header : ℕ
central_header = 33639248

abbrev pub end_of_central_directory : ℕ
end_of_central_directory = 101010256

-- Bit by bit, from the lowest.
unfoldable pub xor : ℕ → ℕ → ℕ → ℕ
xor zero a b = 0
xor (suc bits) a b = (if a % 2 == b % 2 then 0 else 1) + 2 * xor bits (a / 2) (b / 2)

unfoldable pub crc_rounds : ℕ → ℕ → ℕ
unfolding xor
crc_rounds zero value = value
crc_rounds (suc bits) value =
    crc_rounds bits (if value % 2 == 1 then xor 32 3988292384 (value / 2) else value / 2)

-- An entry of `CRC_TABLE`.
abbrev pub crc_table : ℕ → ℕ
crc_table index = crc_rounds 8 index

unfoldable pub crc_bytes : ℕ → Bytes → ℕ
unfolding xor crc_rounds
crc_bytes crc [] = crc
crc_bytes crc (byte ∷ bytes) =
    crc_bytes (xor 32 (crc_table (xor 32 crc byte % 256)) (crc / 256)) bytes

unfoldable pub crc32 : Bytes → ℕ
unfolding xor crc_bytes
crc32 bytes = xor 32 (crc_bytes max_size bytes) max_size

abbrev pub u16 : ℕ → Bytes
u16 n = n % 256 ∷ n / 256 % 256 ∷ []

abbrev pub u32 : ℕ → Bytes
u32 n = n % 256 ∷ n / 256 % 256 ∷ n / 65536 % 256 ∷ n / 16777216 % 256 ∷ []

-- `names.has(name)`.
unfoldable pub has_name : Text → List Text → Bool
has_name name [] = false
has_name name (other ∷ names) = if text_eq other name then true else has_name name names
