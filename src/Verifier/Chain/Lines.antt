-- ===== src/Verifier/Chain/Lines.antt =====
-- What the reading of the keys and of the lines of receipts leaves: every one of them, as it stands.
use sigillo.Common.{
  ℕ, ◌+◌, ◌≡◌, refl, List, [], ◌∷◌, ◌==◌, guard-eq-ok, ==_iff, length, ok, >>=-eq-ok, ok-injective,
  All, map,
}
use sigillo.Text.{text_eq, text_eq_iff}
use sigillo.Receipt.{Receipt}
use sigillo.Platform.{Platform}
use sigillo.Verifier.{
  failed, read_line, read_line-parsed, Line, parsed, ManifestKey, receipt_json, receipt_schema,
  receipt_line, key, manifest_file,
}
use sigillo.Verifier.Chain.{KeyMap, key_id_of, key_set, read_keys, read_receipts}

-- No line is skipped.
pub read_receipts-lines :
    (n : ℕ) (lines : List (Line Receipt)) {receipts : List Receipt}
    → read_receipts n lines ≡ ok receipts
    → lines ≡ map (λ (r : Receipt). parsed r) receipts
unfolding read_receipts
read_receipts-lines n [] h = rw (← ok-injective h) refl
read_receipts-lines n (line ∷ lines) h =
    let (r, read, h₁) =
      >>=-eq-ok (read_line receipt_json receipt_schema (receipt_line n) line) _ h in
    let (more, rest, h₂) = >>=-eq-ok (read_receipts (n + 1) lines) _ h₁ in
    let here : line ≡ parsed r =
      read_line-parsed receipt_json receipt_schema (receipt_line n) line read in
    rw (← ok-injective h₂, here, read_receipts-lines (n + 1) lines rest) refl

module _ (p : Platform) where
  -- A key of 32 bytes under the identifier that is its own.
  abbrev pub NamesItself : ManifestKey → Type 0
  NamesItself entry = (length entry.public_key ≡ 32) × (key_id_of p entry.public_key ≡ entry.key_id)

  pub read_keys-NamesItself :
      (keys : KeyMap) (entries : List ManifestKey) {found : KeyMap}
      → read_keys p keys entries ≡ ok found
      → All NamesItself entries
  unfolding read_keys
  read_keys-NamesItself keys [] h = tt
  read_keys-NamesItself keys (entry ∷ entries) h =
      let (long, h₁) = guard-eq-ok (length entry.public_key == 32) (failed key manifest_file) _ h in
      let (own, h₂) =
        guard-eq-ok (text_eq (key_id_of p entry.public_key) entry.key_id) (failed key manifest_file)
          _ h₁ in
      (
        (
          (==_iff (length entry.public_key) 32).0 long,
          (text_eq_iff (key_id_of p entry.public_key) entry.key_id).0 own,
        ),
        read_keys-NamesItself (key_set entry.key_id entry.public_key keys) entries h₂,
      )
