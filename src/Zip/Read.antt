-- ===== src/Zip/Read.antt =====
-- zip.ts, `readZip`: the archive read, every read inside it by the test before it.
use sigillo.Common.{
  ℕ, zero, suc, ◌+◌, ◌-◌, ◌*◌, ◌%◌, not, ◌&&◌, Option, none, some, List, [], ◌∷◌, length, take,
  drop, get_elem?, leb, ◌==◌, if◌then◌else◌, Result, ok, err, ◌>>=◌, ◌>>◌, guard,
}
use sigillo.Crypto.{Bytes}
use sigillo.Text.{Text, text_eq}
use sigillo.Zip.{
  ZipCodec, ZipEntry, ZipError, duplicate_entry, not_an_archive, malformed_directory, encrypted,
  past_limit, no_local_header, other_local_name, truncated, not_deflated, unsupported_method,
  other_size, other_checksum, local_header, central_header, end_of_central_directory, crc32,
  has_name,
}

abbrev pub byte_of : Option ℕ → ℕ
byte_of none = 0
byte_of (some byte) = byte

abbrev pub byte_at : ℕ → Bytes → ℕ
byte_at index bytes = byte_of (get_elem? bytes index)

abbrev pub read_u16 : ℕ → Bytes → ℕ
read_u16 index bytes = byte_at index bytes + 256 * byte_at (index + 1) bytes

abbrev pub read_u32 : ℕ → Bytes → ℕ
read_u32 index bytes = read_u16 index bytes + 65536 * read_u16 (index + 2) bytes

-- `subarray(index, index + size)`
abbrev pub subarray : ℕ → ℕ → Bytes → Bytes
subarray index size bytes = take size (drop index bytes)

-- `findEndOfCentralDirectory`: the loop back to `earliest`.
unfoldable pub find_end_from : ℕ → ℕ → Bytes → Result ZipError ℕ
find_end_from earliest zero archive = err not_an_archive
find_end_from earliest (suc rounds) archive =
    let rest = find_end_from earliest rounds archive in
    if read_u32 (earliest + rounds) archive == end_of_central_directory
    then ok (earliest + rounds)
    else rest

unfoldable pub find_end : Bytes → Result ZipError ℕ
unfolding find_end_from
find_end archive =
    let earliest = length archive - 22 - 65535 in
    find_end_from earliest (length archive - 22 - earliest + 1) archive

-- The names read so far and the size of what was inflated, with the place of the next entry.
pub record Reading : Type 0 where
  pub cursor : ℕ
  pub names : List Text
  pub total : ℕ

abbrev pub inflated : Option Bytes → Result ZipError Bytes
inflated none = err not_deflated
inflated (some bytes) = ok bytes

module _ (z : ZipCodec) (max_entry max_total : ℕ) where
  abbrev pub expand : ℕ → ℕ → Bytes → Result ZipError Bytes
  expand method size compressed =
      if method == 0
      then ok compressed
      else if method == 8
      then inflated (z.inflate compressed (size + 1))
      else err unsupported_method

  -- One round of the loop over the directory.
  unfoldable pub read_entry : Bytes → Reading → Result ZipError (ZipEntry × Reading)
  unfolding has_name crc32
  read_entry archive r = do
    let cursor = r.cursor
    guard (leb (cursor + 46) (length archive) && read_u32 cursor archive == central_header)
        malformed_directory
    let flags = read_u16 (cursor + 8) archive
    let method = read_u16 (cursor + 10) archive
    let checksum = read_u32 (cursor + 16) archive
    let compressed_size = read_u32 (cursor + 20) archive
    let size = read_u32 (cursor + 24) archive
    let name_length = read_u16 (cursor + 28) archive
    let extra_length = read_u16 (cursor + 30) archive
    let comment_length = read_u16 (cursor + 32) archive
    let local_offset = read_u32 (cursor + 42) archive
    let name_bytes = subarray (cursor + 46) name_length archive
    let name = z.from_utf8 name_bytes
    guard (not (has_name name r.names)) duplicate_entry
    guard (flags % 2 == 0) encrypted
    guard (leb size max_entry && leb (r.total + size) max_total) past_limit
    guard
        (leb (local_offset + 30) (length archive) && read_u32 local_offset archive == local_header)
        no_local_header
    let local_name_length = read_u16 (local_offset + 26) archive
    let local_extra_length = read_u16 (local_offset + 28) archive
    guard (text_eq (subarray (local_offset + 30) local_name_length archive) name_bytes)
        other_local_name
    let start = local_offset + 30 + local_name_length + local_extra_length
    let compressed = subarray start compressed_size archive
    guard (length compressed == compressed_size) truncated
    contents ← expand method size compressed
    guard (length contents == size) other_size
    guard (crc32 contents == checksum) other_checksum
    ok (
      record { name = name; contents = contents },
      record {
        cursor = cursor + 46 + name_length + extra_length + comment_length;
        names = name ∷ r.names;
        total = r.total + size;
      },
    )

  unfoldable pub read_entries : ℕ → Bytes → Reading → Result ZipError (List ZipEntry)
  unfolding read_entry
  read_entries zero archive r = ok []
  read_entries (suc count) archive r = do
    (entry, r') ← read_entry archive r
    entries ← read_entries count archive r'
    ok (entry ∷ entries)

  unfoldable pub read_zip : Bytes → Result ZipError (List ZipEntry)
  unfolding find_end read_entries
  read_zip archive = do
    guard (leb 22 (length archive)) not_an_archive
    end ← find_end archive
    read_entries (read_u16 (end + 10) archive) archive
        (record { cursor = read_u32 (end + 16) archive; names = []; total = 0 })
