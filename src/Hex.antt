-- ===== src/Hex.antt =====
-- packages/core/src/canonical.ts: `toHex` and `fromHex`. Text is a list of UTF-16 code units.
pub mod RoundTrip
use sigillo.Common.{
  ℕ, ◌+◌, ◌-◌, ◌*◌, ◌/◌, ◌%◌, Bool, true, false, ◌&&◌, ◌||◌, List, [], ◌∷◌, ◌++◌, length, ltb, leb,
  ◌==◌, if◌then◌else◌, Result, ok, err, ◌>>=◌, ◌>>◌, guard,
}
use sigillo.Crypto.{Bytes, CoreError, not_hex}
use sigillo.Text.{Text}

unfoldable pub hex_digit : ℕ → ℕ
hex_digit n = if ltb n 10 then b'0' + n else b'a' + (n - 10)

-- `byte.toString(16).padStart(2, "0")`
unfoldable pub byte_to_hex : ℕ → Text
unfolding hex_digit
byte_to_hex byte =
    if ltb byte 16
    then b'0' ∷ hex_digit byte ∷ []
    else hex_digit (byte / 16) ∷ hex_digit (byte % 16) ∷ []

unfoldable pub to_hex : Bytes → Text
unfolding byte_to_hex
to_hex [] = []
to_hex (byte ∷ bytes) = byte_to_hex byte ++ to_hex bytes

-- A character of `[0-9a-f]`.
unfoldable pub is_hex : ℕ → Bool
is_hex c = leb b'0' c && leb c b'9' || leb b'a' c && leb c b'f'

unfoldable pub all_hex : Text → Bool
unfolding is_hex
all_hex [] = true
all_hex (c ∷ text) = is_hex c && all_hex text

-- The digits of `Number.parseInt(…, 16)`.
unfoldable pub digit_value : ℕ → ℕ
digit_value c = if leb c b'9' then c - b'0' else c - b'a' + 10

unfoldable pub parse_pairs : Text → Bytes
unfolding digit_value
parse_pairs [] = []
parse_pairs (high ∷ []) = digit_value high ∷ []
parse_pairs (high ∷ low ∷ text) = (digit_value high * 16 + digit_value low) ∷ parse_pairs text

unfoldable pub from_hex : Text → Result CoreError Bytes
unfolding all_hex parse_pairs
from_hex hex = do guard (length hex % 2 == 0 && all_hex hex) not_hex; ok (parse_pairs hex)
