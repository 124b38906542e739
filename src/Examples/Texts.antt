-- ===== src/Examples/Texts.antt =====
-- The canonical text of a document, at a concrete input.
use sigillo.Common.{◌≡◌, refl, Option, some, ◌∷◌, []}
use sigillo.Crypto.{Bytes}
use sigillo.Text.{Text, codes}
use sigillo.DocumentText.{canonical_text, canonical_of, remove_invisible, join_white, trim_end}
use sigillo.DocumentText.Tidy.{IsTidy, canonical_text-IsTidy}

abbrev ascii : Bytes → Option Text
ascii bytes = some bytes

abbrev unchanged : Text → Text
unchanged text = text

-- A tab, a soft hyphen and spaces around two words.
abbrev document : Bytes
document = 32 ∷ 32 ∷ 97 ∷ 173 ∷ 9 ∷ 32 ∷ 98 ∷ 32 ∷ []

document-canonical_text : canonical_text unchanged ascii document ≡ some (codes "a b")
unfolding canonical_text canonical_of remove_invisible join_white trim_end
document-canonical_text = refl

canonical_text-IsTidy_example : IsTidy (codes "a b")
canonical_text-IsTidy_example =
    canonical_text-IsTidy unchanged ascii document document-canonical_text
