-- ===== src/Zip/Write.antt =====
-- zip.ts, `createZip`: the archive written.
use sigillo.Common.{
  ℕ, Bool, false, not, ◌&&◌, ◌||◌, List, [], ◌∷◌, ◌++◌, length, leb, ltb, ◌==◌, if◌then◌else◌,
  Result, ok, ◌>>=◌, ◌>>◌, guard,
}
use sigillo.Crypto.{Bytes}
use sigillo.Text.{Text}
use sigillo.Zip.{
  ZipCodec, ZipEntry, ZipError, unusable_name, duplicate_entry, too_large, does_not_fit, max_size,
  local_header, central_header, end_of_central_directory, crc32, u16, u32, has_name,
}

unfoldable pub includes_dots : Text → Bool
includes_dots [] = false
includes_dots (a ∷ []) = false
includes_dots (a ∷ b ∷ text) = a == b'.' && b == b'.' || includes_dots (b ∷ text)

abbrev pub starts_with_slash : Text → Bool
starts_with_slash [] = false
starts_with_slash (a ∷ text) = a == b'/'

abbrev pub unusable : Text → Bool
unusable name = length name == 0 || starts_with_slash name || includes_dots name

-- What is being written: the locals, the centrals and their names so far.
pub record Writing : Type 0 where
  pub locals : Bytes
  pub centrals : Bytes
  pub names : List Text

-- The members that the local header and the directory share: flags, method, times, checksum and lengths.
abbrev pub shared_members : ℕ → Bytes → Bytes → Bytes → Bytes
shared_members method raw compressed name =
    u16 0
    ++ u16 method
    ++ u16 0
    ++ u16 0
    ++ u32 (crc32 raw)
    ++ u32 (length compressed)
    ++ u32 (length raw)
    ++ u16 (length name)
    ++ u16 0

abbrev pub local_bytes : ℕ → Bytes → Bytes → Bytes → Bytes
local_bytes method raw compressed name =
    u32 local_header ++ u16 20 ++ shared_members method raw compressed name ++ name ++ compressed

abbrev pub central_bytes : ℕ → ℕ → Bytes → Bytes → Bytes → Bytes
central_bytes offset method raw compressed name =
    u32 central_header
    ++ u16 20
    ++ u16 20
    ++ shared_members method raw compressed name
    ++ u16 0
    ++ u16 0
    ++ u16 0
    ++ u32 0
    ++ u32 offset
    ++ name

abbrev pub end_bytes : ℕ → ℕ → ℕ → Bytes
end_bytes count size offset =
    u32 end_of_central_directory
    ++ u16 0
    ++ u16 0
    ++ u16 count
    ++ u16 count
    ++ u32 size
    ++ u32 offset
    ++ u16 0

module _ (z : ZipCodec) where
  unfoldable pub write_entry : ZipEntry → Writing → Result ZipError Writing
  unfolding includes_dots has_name crc32
  write_entry entry w = do
    guard (not (unusable entry.name)) unusable_name
    guard (not (has_name entry.name w.names)) duplicate_entry
    let name = z.utf8 entry.name
    let raw = entry.contents
    let deflated = z.deflate raw
    let smaller = ltb (length deflated) (length raw)
    let compressed = if smaller then deflated else raw
    let method = if smaller then 8 else 0
    guard (leb (length raw) max_size && leb (length compressed) max_size) too_large
    guard (leb (length name) 65535 && leb (length w.locals) max_size) does_not_fit
    ok (record {
      locals = w.locals ++ local_bytes method raw compressed name;
      centrals = w.centrals ++ central_bytes (length w.locals) method raw compressed name;
      names = entry.name ∷ w.names;
    })

  unfoldable pub write_entries : List ZipEntry → Writing → Result ZipError Writing
  unfolding write_entry
  write_entries [] w = ok w
  write_entries (entry ∷ entries) w = do w' ← write_entry entry w; write_entries entries w'

  unfoldable pub create_zip : List ZipEntry → Result ZipError Bytes
  unfolding write_entries
  create_zip entries = do
    w ← write_entries entries (record { locals = []; centrals = []; names = [] })
    guard
        (leb (length entries) 65535
          && leb (length w.centrals) max_size
          && leb (length w.locals) max_size)
        does_not_fit
    ok (w.locals ++ w.centrals ++ end_bytes (length entries) (length w.centrals) (length w.locals))
