-- ===== src/Base64.antt =====
-- The base64 text of a signature: the expression `/^[A-Za-z0-9+/]{86}==$/` of signing.ts,
-- receipt.ts and checkpoint.ts.
use sigillo.Common.{ℕ, Bool, false, ◌&&◌, ◌||◌, [], ◌∷◌, length, leb, ◌==◌}
use sigillo.Text.{Text}

unfoldable pub is_base64_char : ℕ → Bool
is_base64_char c =
    leb b'A' c && leb c b'Z'
    || leb b'a' c && leb c b'z'
    || leb b'0' c && leb c b'9'
    || c == b'+'
    || c == b'/'

-- Base64 characters and then `==`.
unfoldable pub padded_twice : Text → Bool
unfolding is_base64_char
padded_twice [] = false
padded_twice (c ∷ []) = false
padded_twice (c ∷ d ∷ []) = c == b'=' && d == b'='
padded_twice (c ∷ d ∷ e ∷ text) = is_base64_char c && padded_twice (d ∷ e ∷ text)

unfoldable pub is_signature_text : Text → Bool
unfolding padded_twice
is_signature_text text = length text == 88 && padded_twice text
