-- ===== src/GenTime/Inside.antt =====
-- The time that is read lies within the token.
use sigillo.Common.{
  ℕ, suc, zero, ◌≤◌, ◌≡◌, refl, Option, none, some, List, [], ◌∷◌, length, get_elem?, ◌==◌,
  Bool-cases, inl, inr, arith,
}
use sigillo.Crypto.{Bytes}
use sigillo.GenTime.{
  Element, element, children, tagged, then_read, is_tagged, child, content_info, outer_element,
  content_of, gen_time_element, tag_sequence, tag_oid, tag_explicit_0, tag_octet_string,
  tag_generalized_time,
}
use sigillo.GenTime.Walk.{element-Lies, Tiles, children-Tiles}

abbrev pub IsInside : Bytes → Element → Type 0
IsInside token e = (e.start ≤ e.end) × (e.end ≤ length token)

then_read-some {ℓ} :
    {A : Type ℓ} (read : Option Element) (next : Element → Option A) {value : A}
    → then_read read next ≡ some value
    → (e : Element) × (read ≡ some e) × (next e ≡ some value)
then_read-some none next h = cc
then_read-some (some e) next h = (e, refl, h)

tagged-some :
    (tag : ℕ) (read : Option Element) {e : Element} → tagged tag read ≡ some e → read ≡ some e
tagged-some tag none h = cc
tagged-some tag (some other) {e} h = elim (Bool-cases (other.tag == tag)) [
  | inl same ↦ rw same at (h)
  | inr apart ↦ let absent : none ≡ some e = rw apart at (h) in cc
]

Tiles-Lies :
    (bytes : Bytes) (offset : ℕ) (elements : List Element) (end index : ℕ) {e : Element}
    → Tiles bytes offset elements end
    → get_elem? elements index ≡ some e
    → (e.start ≤ e.end) × (e.end ≤ end)
Tiles-Lies bytes offset [] end index tiles h = cc
Tiles-Lies bytes offset (q ∷ elements) end zero {e} tiles h =
    let same : q ≡ e = cc in rw (← same) (tiles.1.1, tiles.1.2)
Tiles-Lies bytes offset (q ∷ elements) end (suc index) tiles h =
    Tiles-Lies bytes q.end elements end index tiles.2 h

module _ (token : Bytes) where
  child-IsInside :
      (parent : Element) (index : ℕ) {e : Element}
      → IsInside token parent
      → child token parent index ≡ some e
      → IsInside token e
  child-IsInside parent index {e} inside h = elim (children-Tiles token parent inside.0) [
    | inl none_there ↦ let absent : none ≡ some e = rw none_there at (h) in cc
    | inr tiles ↦
        let lies = Tiles-Lies token parent.start (children token parent) parent.end index tiles h in
        (lies.0, omega (arith, lies.1, inside.1))
  ]

  tagged-child-IsInside :
      (tag : ℕ) (parent : Element) (index : ℕ) {e : Element}
      → IsInside token parent
      → tagged tag (child token parent index) ≡ some e
      → IsInside token e
  tagged-child-IsInside tag parent index inside h =
      child-IsInside parent index inside (tagged-some tag (child token parent index) h)

  element-IsInside :
      (offset limit : ℕ) {e : Element}
      → limit ≤ length token
      → element token offset limit ≡ some e
      → IsInside token e
  element-IsInside offset limit below h =
      let lies = element-Lies token offset limit h in (lies.1, omega (arith, lies.2, below))

  outer_element-IsInside : {e : Element} → outer_element token ≡ some e → IsInside token e
  outer_element-IsInside {e} h =
      let (outer, read, rest) =
        then_read-some (tagged tag_sequence (element token 0 (length token))) _ h in
      elim (Bool-cases (outer.end == length token)) [
        | inr short ↦ let absent : none ≡ some e = rw short at (rest) in cc
        | inl whole ↦
            let kept : some outer ≡ some e = rw whole at (rest) in
            let same : outer ≡ e = cc in
            rw (← same) (
              element-IsInside 0 (length token) (omega arith)
                (tagged-some tag_sequence (element token 0 (length token)) read))
      ]

  content_info-IsInside :
      (outer : Element) {e : Element}
      → IsInside token outer
      → content_info token outer ≡ some e
      → IsInside token e
  content_info-IsInside outer {e} inside h =
      elim (Bool-cases (is_tagged tag_sequence (child token outer 0))) [
        | inl status ↦ child-IsInside outer 1 inside (rw status at (h))
        | inr bare ↦
            let kept : some outer ≡ some e = rw bare at (h) in
            let same : outer ≡ e = cc in rw (← same) inside
      ]

  -- The element that genTimeOfToken reads the time from lies within the token.
  pub gen_time_element-IsInside : {e : Element} → gen_time_element token ≡ some e → IsInside token e
  unfolding gen_time_element
  gen_time_element-IsInside h =
      let (outer, read, h₁) = then_read-some (outer_element token) _ h in
      let (info, read₁, h₂) =
        then_read-some (tagged tag_sequence (content_info token outer)) _ h₁ in
      let (content, read₂, h₃) = then_read-some (content_of token info) _ h₂ in
      let (signed_data, read₃, h₄) =
        then_read-some (tagged tag_sequence (child token content 0)) _ h₃ in
      let (encap, read₄, h₅) =
        then_read-some (tagged tag_sequence (child token signed_data 2)) _ h₄ in
      let (e_content, read₅, h₆) =
        then_read-some (tagged tag_explicit_0 (child token encap 1)) _ h₅ in
      let (octets, read₆, h₇) =
        then_read-some (tagged tag_octet_string (child token e_content 0)) _ h₆ in
      let (tst_info, read₇, h₈) =
        then_read-some (tagged tag_sequence (element token octets.start octets.end)) _ h₇ in
      let (oid, read₈, inner) = then_read-some (tagged tag_oid (child token info 0)) _ read₂ in
      let info-in =
        content_info-IsInside outer (outer_element-IsInside read)
          (tagged-some tag_sequence (content_info token outer) read₁) in
      let content-in = tagged-child-IsInside tag_explicit_0 info 1 info-in inner in
      let signed-in = tagged-child-IsInside tag_sequence content 0 content-in read₃ in
      let encap-in = tagged-child-IsInside tag_sequence signed_data 2 signed-in read₄ in
      let content-in' = tagged-child-IsInside tag_explicit_0 encap 1 encap-in read₅ in
      let octets-in = tagged-child-IsInside tag_octet_string e_content 0 content-in' read₆ in
      let tst-in =
        element-IsInside octets.start octets.end octets-in.1
          (tagged-some tag_sequence (element token octets.start octets.end) read₇) in
      tagged-child-IsInside tag_generalized_time tst_info 4 tst-in h₈
