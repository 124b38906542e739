-- ===== src/Hex/RoundTrip.antt =====
-- `toHex` and `fromHex` are inverse to each other.
use sigillo.Common.{
  ℕ, sym, ap, ◌+◌, ◌*◌, ◌/◌, ◌%◌, ◌<◌, ◌≡◌, refl, ap, true, ◌&&◌, [], ◌∷◌, length, ok, ◌==◌,
  Bool-cases, ltb, ltb→lt, ◌∙◌, inl, inr, arith,
}
use sigillo.Crypto.{Bytes, IsBytes}
use sigillo.Text.{Text}
use sigillo.Hex.{
  hex_digit, byte_to_hex, to_hex, is_hex, all_hex, digit_value, parse_pairs, from_hex,
}

digit_value-hex_digit : (n : ℕ) → n < 16 → digit_value (hex_digit n) ≡ n
unfolding digit_value hex_digit
digit_value-hex_digit n h = ground arith

is_hex-hex_digit : (n : ℕ) → n < 16 → is_hex (hex_digit n) ≡ true
unfolding is_hex hex_digit
is_hex-hex_digit n h = ground arith

hex_digit-digit_value :
    (c : ℕ) → is_hex c ≡ true → (hex_digit (digit_value c) ≡ c) × (digit_value c < 16)
unfolding is_hex hex_digit digit_value
hex_digit-digit_value c h = (ground arith, ground arith)

-- The padding of a small byte is its high digit.
byte_to_hex-pair :
    (byte : ℕ) → byte_to_hex byte ≡ hex_digit (byte / 16) ∷ hex_digit (byte % 16) ∷ []
unfolding byte_to_hex
byte_to_hex-pair byte = elim (Bool-cases (ltb byte 16)) [
  | inl small ↦
      let lt = ltb→lt byte 16 small in
      let high : byte / 16 ≡ 0 = omega arith in
      let low : byte % 16 ≡ byte = omega arith in rw (byte_to_hex, small, high, low)
  | inr large ↦ rw (byte_to_hex, large)
]

-- The text has two characters for each byte.
pub length-to_hex : (bytes : Bytes) → length (to_hex bytes) ≡ 2 * length bytes
unfolding to_hex
length-to_hex [] = refl
length-to_hex (byte ∷ bytes) =
    rw (to_hex, byte_to_hex-pair byte) (omega (arith, length-to_hex bytes))

parse_pairs-to_hex : (bytes : Bytes) → IsBytes bytes → parse_pairs (to_hex bytes) ≡ bytes
unfolding parse_pairs to_hex
parse_pairs-to_hex [] h = refl
parse_pairs-to_hex (byte ∷ bytes) (small, h) =
    let value : byte / 16 * 16 + byte % 16 ≡ byte = omega arith in
    rw (
      to_hex,
      byte_to_hex-pair byte,
      digit_value-hex_digit (byte / 16) (omega arith),
      digit_value-hex_digit (byte % 16) (omega arith),
      value,
      parse_pairs-to_hex bytes h,
    )

pub all_hex-to_hex : (bytes : Bytes) → IsBytes bytes → all_hex (to_hex bytes) ≡ true
unfolding all_hex to_hex
all_hex-to_hex [] h = refl
all_hex-to_hex (byte ∷ bytes) (small, h) = rw (
  to_hex,
  byte_to_hex-pair byte,
  is_hex-hex_digit (byte / 16) (omega arith),
  is_hex-hex_digit (byte % 16) (omega arith),
  all_hex-to_hex bytes h,
)

-- Every byte string is read back from its hex text.
pub from_hex-to_hex : (bytes : Bytes) → IsBytes bytes → from_hex (to_hex bytes) ≡ ok bytes
unfolding from_hex
from_hex-to_hex bytes h =
    let even : (length (to_hex bytes) % 2 == 0) ≡ true = ground (arith, length-to_hex bytes) in
    rw (from_hex, even, all_hex-to_hex bytes h, parse_pairs-to_hex bytes h)

-- The two-digit number of a pair of hex characters gives the pair back.
pair-byte_to_hex :
    (high low : ℕ)
    → is_hex high ≡ true
    → is_hex low ≡ true
    → byte_to_hex (digit_value high * 16 + digit_value low) ≡ high ∷ low ∷ []
pair-byte_to_hex high low h l =
    let (same_high, high_small) = hex_digit-digit_value high h in
    let (same_low, low_small) = hex_digit-digit_value low l in
    let up : (digit_value high * 16 + digit_value low) / 16 ≡ digit_value high = omega arith in
    let down : (digit_value high * 16 + digit_value low) % 16 ≡ digit_value low = omega arith in
    byte_to_hex-pair (digit_value high * 16 + digit_value low) ∙ rw (up, down, same_high, same_low)

parse_pairs-lem :
    (hex : Text)
    → length hex % 2 ≡ 0
    → all_hex hex ≡ true
    → (to_hex (parse_pairs hex) ≡ hex) × IsBytes (parse_pairs hex)
unfolding parse_pairs all_hex to_hex
parse_pairs-lem [] even h = (refl, tt)
parse_pairs-lem (high ∷ []) even h = absurd (omega arith)
parse_pairs-lem (high ∷ low ∷ hex) even h =
    let (high_hex, more) : (is_hex high ≡ true) × (is_hex low && all_hex hex ≡ true) =
      ground arith in
    let (low_hex, rest_hex) : (is_hex low ≡ true) × (all_hex hex ≡ true) = ground arith in
    let (same, bytes) = parse_pairs-lem hex (omega arith) rest_hex in
    let (_, high_small) = hex_digit-digit_value high high_hex in
    let (_, low_small) = hex_digit-digit_value low low_hex in
    (rw (pair-byte_to_hex high low high_hex low_hex, same), (omega arith, bytes))

-- Text that `fromHex` accepts is the hex text of what it returns, which holds bytes only. So it has
-- one spelling.
pub to_hex-from_hex :
    (hex : Text) {bytes : Bytes} → from_hex hex ≡ ok bytes → (to_hex bytes ≡ hex) × IsBytes bytes
unfolding from_hex
to_hex-from_hex hex {bytes} e =
    let (even, h, same) : (length hex % 2 ≡ 0) × (all_hex hex ≡ true) × (parse_pairs hex ≡ bytes) =
      (ground arith, ground arith, ground arith) in
    rw (← same) (parse_pairs-lem hex even h)

-- What is read has half as many bytes as the text has characters.
pub length-from_hex :
    (hex : Text) {bytes : Bytes} → from_hex hex ≡ ok bytes → 2 * length bytes ≡ length hex
length-from_hex hex {bytes} e = sym (length-to_hex bytes) ∙ ap length (to_hex-from_hex hex e).0
