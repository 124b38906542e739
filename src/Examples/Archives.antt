-- ===== src/Examples/Archives.antt =====
-- An archive at concrete inputs: one entry written and read back.
use sigillo.Common.{◌≤◌, ◌≡◌, refl, some, List, [], ◌∷◌, length, ok, err, Result, All}
use sigillo.Crypto.{Bytes}
use sigillo.Text.{codes, text_eq}
use sigillo.Zip.{ZipCodec, ZipEntry, ZipError, has_name, crc32, crc_bytes, crc_rounds, xor}
use sigillo.Zip.Write.{create_zip, write_entries, write_entry, includes_dots}
use sigillo.Zip.Read.{read_zip, read_entries, read_entry, find_end, find_end_from}
use sigillo.Zip.Checked.{AreDistinct, total_size, read_zip-AreDistinct}

-- It leaves everything as it is.
abbrev plain_codec : ZipCodec
plain_codec = record {
  utf8 = λ text. text;
  from_utf8 = λ bytes. bytes;
  deflate = λ bytes. bytes;
  inflate = λ bytes limit. some bytes;
}

abbrev one_file : List ZipEntry
one_file = record { name = codes "a"; contents = 104 ∷ 105 ∷ [] } ∷ []

abbrev bytes_of : Result ZipError Bytes → Bytes
bytes_of (ok bytes) = bytes
bytes_of (err _) = []

abbrev one_archive : Bytes
one_archive = bytes_of (create_zip plain_codec one_file)

-- The checksum of "hi".
crc32-hi : crc32 (104 ∷ 105 ∷ []) ≡ 3633523372
unfolding crc32 crc_bytes crc_rounds xor
crc32-hi = refl

one_archive-read_zip : read_zip plain_codec 10 10 one_archive ≡ ok one_file
unfolding create_zip write_entries write_entry read_zip read_entries read_entry find_end
    find_end_from includes_dots has_name crc32 crc_bytes crc_rounds xor text_eq
one_archive-read_zip = refl

read_zip-AreDistinct_example :
    AreDistinct [] one_file
    × All (λ (entry : ZipEntry). length entry.contents ≤ 10) one_file
    × (total_size one_file ≤ 10)
read_zip-AreDistinct_example =
    read_zip-AreDistinct plain_codec 10 10 one_archive one_archive-read_zip
