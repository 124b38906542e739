-- ===== src/DocumentText.antt =====
-- packages/core/src/text.ts, `canonicalText`: the text of a document under the rule sigillo-text/1. The
-- decoding of UTF-8 and the normal form NFC are the runtime's, and parameters.
pub mod Tidy
use sigillo.Common.{
  ℕ, Bool, true, false, not, ◌&&◌, ◌||◌, Option, none, some, List, [], ◌∷◌, leb, ◌==◌,
  if◌then◌else◌,
}
use sigillo.Crypto.{Bytes}
use sigillo.Text.{Text}

-- Soft hyphen, zero-width space, word joiner, byte order mark.
abbrev pub is_invisible : ℕ → Bool
is_invisible c = c == 173 || c == 8203 || c == 8288 || c == 65279

abbrev pub space : ℕ
space = 32

-- White_Space, listed in full.
abbrev pub is_white : ℕ → Bool
is_white c =
    leb 9 c && leb c 13
    || c == space
    || c == 133
    || c == 160
    || c == 5760
    || leb 8192 c && leb c 8202
    || c == 8232
    || c == 8233
    || c == 8239
    || c == 8287
    || c == 12288

unfoldable pub remove_invisible : Text → Text
remove_invisible [] = []
remove_invisible (c ∷ text) =
    let rest = remove_invisible text in if is_invisible c then rest else c ∷ rest

abbrev pub starts_blank : Text → Bool
starts_blank [] = false
starts_blank (c ∷ text) = c == space

-- Every run of white space becomes one space. A run goes on where the rest, already done, starts with
-- a space.
unfoldable pub join_white : Text → Text
join_white [] = []
join_white (c ∷ text) =
    let rest = join_white text in
    if is_white c then (if starts_blank rest then rest else space ∷ rest) else c ∷ rest

abbrev pub trim_start : Text → Text
trim_start [] = []
trim_start (c ∷ text) = if c == space then text else c ∷ text

unfoldable pub trim_end : Text → Text
trim_end [] = []
trim_end (c ∷ []) = if c == space then [] else c ∷ []
trim_end (c ∷ d ∷ text) = c ∷ trim_end (d ∷ text)

abbrev pub unless_empty : Text → Option Text
unless_empty [] = none
unless_empty (c ∷ text) = some (c ∷ text)

module _ (normal_form : Text → Text) where
  unfoldable pub canonical_of : Text → Option Text
  canonical_of text =
      unless_empty (trim_end (trim_start (join_white (normal_form (remove_invisible text)))))

  abbrev pub of_decoded : Option Text → Option Text
  of_decoded none = none
  of_decoded (some text) = canonical_of text

  -- `decode` is none on bytes that are not UTF-8.
  unfoldable pub canonical_text : (Bytes → Option Text) → Bytes → Option Text
  canonical_text decode bytes = of_decoded (decode bytes)
