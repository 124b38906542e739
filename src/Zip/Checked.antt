-- ===== src/Zip/Checked.antt =====
-- What an archive that is accepted holds: whatever its bytes are, its entries have different names, and
-- they stay inside the limits.
use sigillo.Common.{
  ℕ, zero, suc, ◌+◌, ◌%◌, ◌≤◌, ◌≡◌, refl, sym, ap, false, not, ◌&&◌, List, [], ◌∷◌, length, leb,
  ◌==◌, ==_iff, ok, >>=-eq-ok, guard-eq-ok, ok-injective, arith, All,
}
use sigillo.Crypto.{Bytes}
use sigillo.Text.{Text, text_eq}
use sigillo.Zip.{
  ZipCodec, ZipEntry, malformed_directory, encrypted, past_limit, no_local_header, other_local_name,
  truncated, duplicate_entry, other_size, other_checksum, not_an_archive, has_name, crc32,
  central_header, local_header,
}
use sigillo.Zip.Read.{
  read_u16, read_u32, subarray, find_end, Reading, expand, read_entry, read_entries, read_zip,
}

-- No name is among those before it.
abbrev pub AreDistinct : List Text → List ZipEntry → Type 0
AreDistinct names [] = Unit
AreDistinct names (entry ∷ entries) =
    (has_name entry.name names ≡ false) × AreDistinct (entry.name ∷ names) entries

abbrev pub total_size : List ZipEntry → ℕ
total_size [] = 0
total_size (entry ∷ entries) = length entry.contents + total_size entries

module _ (z : ZipCodec) (max_entry max_total : ℕ) where
  record IsRead (r : Reading) (entry : ZipEntry) (r' : Reading) : Type 0 where
    pub fresh_name : has_name entry.name r.names ≡ false
    pub small : length entry.contents ≤ max_entry
    pub named : r'.names ≡ entry.name ∷ r.names
    pub summed : r'.total ≡ r.total + length entry.contents
    pub within : r'.total ≤ max_total

  read_entry-IsRead :
      (archive : Bytes) (r : Reading) {end : ZipEntry × Reading}
      → read_entry z max_entry max_total archive r ≡ ok end
      → IsRead r end.0 end.1
  unfolding read_entry
  read_entry-IsRead archive r {end} h =
      let cursor = r.cursor in
      let size = read_u32 (cursor + 24) archive in
      let packed_size = read_u32 (cursor + 20) archive in
      let local_offset = read_u32 (cursor + 42) archive in
      let name_bytes = subarray (cursor + 46) (read_u16 (cursor + 28) archive) archive in
      let name = z.from_utf8 name_bytes in
      let local_length = read_u16 (local_offset + 26) archive in
      let start = local_offset + 30 + local_length + read_u16 (local_offset + 28) archive in
      let packed = subarray start packed_size archive in
      let placed =
        guard-eq-ok
          (leb (cursor + 46) (length archive) && read_u32 cursor archive == central_header)
          malformed_directory _ h in
      let fresh = guard-eq-ok (not (has_name name r.names)) duplicate_entry _ placed.1 in
      let plain = guard-eq-ok (read_u16 (cursor + 8) archive % 2 == 0) encrypted _ fresh.1 in
      let limited =
        guard-eq-ok (leb size max_entry && leb (r.total + size) max_total) past_limit _ plain.1 in
      let local =
        guard-eq-ok
          (leb (local_offset + 30) (length archive)
            && read_u32 local_offset archive == local_header)
          no_local_header _ limited.1 in
      let named =
        guard-eq-ok (text_eq (subarray (local_offset + 30) local_length archive) name_bytes)
          other_local_name _ local.1 in
      let whole = guard-eq-ok (length packed == packed_size) truncated _ named.1 in
      let (contents, expanded, next) =
        >>=-eq-ok (expand z max_entry max_total (read_u16 (cursor + 10) archive) size packed) _
          whole.1 in
      let sized = guard-eq-ok (length contents == size) other_size _ next in
      let summed =
        guard-eq-ok (crc32 contents == read_u32 (cursor + 16) archive) other_checksum _ sized.1 in
      let same = ok-injective summed.1 in
      let as_large : length contents ≡ size = (==_iff (length contents) size).0 sized.0 in
      rw (← same) (record {
        fresh_name = ground (arith, fresh.0);
        small = ground (arith, as_large, limited.0);
        named = refl;
        summed = ap (λ n. r.total + n) (sym as_large);
        within = ground (arith, limited.0);
      })

  record IsAccepted (names : List Text) (total : ℕ) (entries : List ZipEntry) : Type 0 where
    pub distinct : AreDistinct names entries
    pub small : All (λ (entry : ZipEntry). length entry.contents ≤ max_entry) entries
    pub bounded : total + total_size entries ≤ max_total

  read_entries-IsAccepted :
      (count : ℕ) (archive : Bytes) (r : Reading) {entries : List ZipEntry}
      → r.total ≤ max_total
      → read_entries z max_entry max_total count archive r ≡ ok entries
      → IsAccepted r.names r.total entries
  unfolding read_entries
  read_entries-IsAccepted zero archive r {entries} within h =
      let none_read : [] ≡ entries = ok-injective h in
      rw (← none_read) (record { distinct = tt; small = tt; bounded = omega (arith, within) })
  read_entries-IsAccepted (suc count) archive r {entries} within h =
      let ((entry, r'), first, next) = >>=-eq-ok (read_entry z max_entry max_total archive r) _ h in
      let (others, rest, last) =
        >>=-eq-ok (read_entries z max_entry max_total count archive r') _ next in
      let here = read_entry-IsRead archive r first in
      let after = read_entries-IsAccepted count archive r' here.within rest in
      let same : (entry ∷ others) ≡ entries = ok-injective last in
      rw (← same) (record {
        distinct = (here.fresh_name, rw (here.named) at (after.distinct));
        small = (here.small, after.small);
        bounded = omega (arith, after.bounded, here.summed);
      })

  -- Whatever bytes readZip is given and whatever the decompressor and the decoding of names make of them:
  -- the entries it returns have different names, none is larger than the limit for an entry, and together
  -- they are no larger than the limit for all.
  pub read_zip-AreDistinct :
      (archive : Bytes) {entries : List ZipEntry}
      → read_zip z max_entry max_total archive ≡ ok entries
      → AreDistinct [] entries
        × All (λ (entry : ZipEntry). length entry.contents ≤ max_entry) entries
        × (total_size entries ≤ max_total)
  unfolding read_zip
  read_zip-AreDistinct archive h =
      let long = guard-eq-ok (leb 22 (length archive)) not_an_archive _ h in
      let (end, found, next) = >>=-eq-ok (find_end archive) _ long.1 in
      let accepted =
        read_entries-IsAccepted (read_u16 (end + 10) archive) archive
          (record { cursor = read_u32 (end + 16) archive; names = []; total = 0 }) (omega arith)
          next in
      (accepted.distinct, accepted.small, omega (arith, accepted.bounded))
