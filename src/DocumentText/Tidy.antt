-- ===== src/DocumentText/Tidy.antt =====
-- What a canonical text looks like, whatever the document and whatever the normal form makes of it.
use sigillo.Common.{
  ◌≡◌, ◌⊎◌, refl, Bool, false, ◌&&◌, ◌==◌, Option, none, some, [], ◌∷◌, Bool-cases, Option-cases,
  inl, inr, arith,
}
use sigillo.Crypto.{Bytes}
use sigillo.Text.{Text}
use sigillo.DocumentText.{
  is_white, space, starts_blank, join_white, trim_start, trim_end, remove_invisible, unless_empty,
  canonical_of, canonical_text,
}

-- Of white space, only the space.
abbrev pub OnlySpaces : Text → Type 0
OnlySpaces [] = Unit
OnlySpaces (c ∷ text) = ((is_white c ≡ false) ⊎ (c ≡ space)) × OnlySpaces text

-- No two spaces together.
abbrev pub HasNoRun : Text → Type 0
HasNoRun [] = Unit
HasNoRun (c ∷ text) = ((c == space && starts_blank text) ≡ false) × HasNoRun text

abbrev pub ends_blank : Text → Bool
ends_blank [] = false
ends_blank (c ∷ []) = c == space
ends_blank (c ∷ d ∷ text) = ends_blank (d ∷ text)

abbrev pub IsTidy : Text → Type 0
IsTidy text =
    OnlySpaces text × HasNoRun text × (starts_blank text ≡ false) × (ends_blank text ≡ false)

join_white-OnlySpaces : (text : Text) → OnlySpaces (join_white text)
unfolding join_white
join_white-OnlySpaces [] = tt
join_white-OnlySpaces (c ∷ text) = elim (Bool-cases (is_white c)) [
  | inr plain ↦ rw plain (inl plain, join_white-OnlySpaces text)
  | inl white ↦ elim (Bool-cases (starts_blank (join_white text))) [
    | inl more ↦ rw (white, more) (join_white-OnlySpaces text)
    | inr alone ↦ rw (white, alone) (inr refl, join_white-OnlySpaces text)
  ]
]

join_white-HasNoRun : (text : Text) → HasNoRun (join_white text)
unfolding join_white
join_white-HasNoRun [] = tt
join_white-HasNoRun (c ∷ text) = elim (Bool-cases (is_white c)) [
  | inr plain ↦
      let other : (c == space) ≡ false = ground (arith, plain) in
      rw plain (rw other refl, join_white-HasNoRun text)
  | inl white ↦ elim (Bool-cases (starts_blank (join_white text))) [
    | inl more ↦ rw (white, more) (join_white-HasNoRun text)
    | inr alone ↦ rw (white, alone) (rw alone refl, join_white-HasNoRun text)
  ]
]

trim_start-IsTidy :
    (text : Text)
    → OnlySpaces text
    → HasNoRun text
    → OnlySpaces (trim_start text)
      × HasNoRun (trim_start text)
      × (starts_blank (trim_start text) ≡ false)
trim_start-IsTidy [] only runs = (tt, tt, refl)
trim_start-IsTidy (c ∷ text) only runs = elim (Bool-cases (c == space)) [
  | inl blank ↦
      let alone : starts_blank text ≡ false = rw blank at (runs.0) in
      rw blank (only.1, runs.1, alone)
  | inr first ↦ rw first ((only.0, only.1), (runs.0, runs.1), first)
]

trim_end-starts : (text : Text) → starts_blank text ≡ false → starts_blank (trim_end text) ≡ false
unfolding trim_end
trim_end-starts [] h = refl
trim_end-starts (c ∷ []) h = rw h h
trim_end-starts (c ∷ d ∷ text) h = h

trim_end-OnlySpaces : (text : Text) → OnlySpaces text → OnlySpaces (trim_end text)
unfolding trim_end
trim_end-OnlySpaces [] only = tt
trim_end-OnlySpaces (c ∷ []) only = elim (Bool-cases (c == space)) [
  | inl blank ↦ rw blank tt
  | inr last ↦ rw last only
]
trim_end-OnlySpaces (c ∷ d ∷ text) only = (only.0, trim_end-OnlySpaces (d ∷ text) only.1)

trim_end-HasNoRun : (text : Text) → HasNoRun text → HasNoRun (trim_end text)
unfolding trim_end
trim_end-HasNoRun [] runs = tt
trim_end-HasNoRun (c ∷ []) runs = elim (Bool-cases (c == space)) [
  | inl blank ↦ rw blank tt
  | inr last ↦ rw last runs
]
trim_end-HasNoRun (c ∷ d ∷ text) runs =
    let rest = trim_end-HasNoRun (d ∷ text) runs.1 in
    elim (Bool-cases (d == space)) [
      | inl blank ↦
          let plain : (c == space) ≡ false = ground (arith, runs.0, blank) in (rw plain refl, rest)
      | inr other ↦
          let alone : starts_blank (trim_end (d ∷ text)) ≡ false =
            trim_end-starts (d ∷ text) other in
          (ground (arith, alone), rest)
    ]

trim_end-ends : (text : Text) → HasNoRun text → ends_blank (trim_end text) ≡ false
unfolding trim_end
trim_end-ends [] runs = refl
trim_end-ends (c ∷ []) runs = elim (Bool-cases (c == space)) [
  | inl blank ↦ rw blank refl
  | inr last ↦ rw last last
]
trim_end-ends (c ∷ d ∷ []) runs = elim (Bool-cases (d == space)) [
  | inl blank ↦ let plain : (c == space) ≡ false = ground (arith, runs.0, blank) in rw blank plain
  | inr last ↦ rw last last
]
trim_end-ends (c ∷ d ∷ e ∷ text) runs = trim_end-ends (d ∷ e ∷ text) runs.1

unless_empty-eq : (text : Text) {end : Text} → unless_empty text ≡ some end → text ≡ end
unless_empty-eq [] h = cc
unless_empty-eq (c ∷ text) h = cc

module _ (normal_form : Text → Text) where
  canonical_of-IsTidy :
      (text : Text) {end : Text} → canonical_of normal_form text ≡ some end → IsTidy end
  unfolding canonical_of
  canonical_of-IsTidy text h =
      let joined = join_white (normal_form (remove_invisible text)) in
      let start =
        trim_start-IsTidy joined (join_white-OnlySpaces (normal_form (remove_invisible text)))
          (join_white-HasNoRun (normal_form (remove_invisible text))) in
      let same = unless_empty-eq (trim_end (trim_start joined)) h in
      rw (← same) (
        trim_end-OnlySpaces (trim_start joined) start.0,
        trim_end-HasNoRun (trim_start joined) start.1,
        trim_end-starts (trim_start joined) start.2,
        trim_end-ends (trim_start joined) start.1,
      )

  -- Whatever a document holds, and whatever the decoder and the normal form make of it, its canonical
  -- text has no white space but the space, no two spaces together, and none at either end.
  pub canonical_text-IsTidy :
      (decode : Bytes → Option Text) (bytes : Bytes) {end : Text}
      → canonical_text normal_form decode bytes ≡ some end
      → IsTidy end
  unfolding canonical_text
  canonical_text-IsTidy decode bytes {end} h = elim (Option-cases (decode bytes)) [
    | inl unread ↦ let absent : none ≡ some end = rw unread at (h) in cc
    | inr (text, read) ↦ canonical_of-IsTidy text (rw read at (h))
  ]
