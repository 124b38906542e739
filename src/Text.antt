-- ===== src/Text.antt =====
-- JavaScript strings, as their UTF-16 code units, and `===` on them.
use Prim.Native.Char.{code}
use Prim.Native.String.{String}
use sigillo.Common.{
  ℕ, ◌≡◌, ◌↔◌, refl, Bool, true, false, ◌&&◌, List, [], ◌∷◌, leb, ◌==◌, arith, if◌then◌else◌,
}

abbrev pub Text : Type 0
Text = List ℕ

-- The code units of a literal in the Basic Multilingual Plane.
abbrev pub codes : String → Text
codes String.[] = []
codes (String.◌∷◌ c s) = code c ∷ codes s

-- `a === b`
unfoldable pub text_eq : Text → Text → Bool
text_eq [] [] = true
text_eq [] (_ ∷ _) = false
text_eq (_ ∷ _) [] = false
text_eq (a ∷ s) (b ∷ t) = a == b && text_eq s t

pub text_eq_iff : (s t : Text) → (text_eq s t ≡ true) ↔ (s ≡ t)
unfolding text_eq
text_eq_iff [] [] = ground arith
text_eq_iff [] (b ∷ t) = ground arith
text_eq_iff (a ∷ s) [] = ground arith
text_eq_iff (a ∷ s) (b ∷ t) = ground (arith, text_eq_iff s t)

pub text_eq_refl : (s : Text) → text_eq s s ≡ true
text_eq_refl s = (text_eq_iff s s).1 refl

-- `s.isWellFormed()`: every surrogate stands in a pair, the high one first.
unfoldable pub is_high_surrogate : ℕ → Bool
is_high_surrogate c = leb 0xd800 c && leb c 0xdbff

unfoldable pub is_low_surrogate : ℕ → Bool
is_low_surrogate c = leb 0xdc00 c && leb c 0xdfff

unfoldable pub is_well_formed : Text → Bool
unfolding is_high_surrogate is_low_surrogate
is_well_formed [] = true
is_well_formed (c ∷ []) =
    if is_high_surrogate c then false else if is_low_surrogate c then false else true
is_well_formed (c ∷ d ∷ s) =
    let paired = is_well_formed s in
    let single = is_well_formed (d ∷ s) in
    elim (is_high_surrogate c) [
      | true ↦ is_low_surrogate d && paired
      | false ↦ if is_low_surrogate c then false else single
    ]
