-- ===== src/Verifier/Checkpoints/Accepted.antt =====
-- Every checkpoint that the loop has taken up was accepted.
use sigillo.Common.{
  refl, sym, ap, ◌∙◌, map, append-nil, append_assoc, ℕ, ◌+◌, ◌≡◌, Option, List, [], ◌∷◌, ◌++◌, ok,
  >>=-eq-ok, ok-injective, All,
}
use sigillo.Text.{Text}
use sigillo.Receipt.{Receipt}
use sigillo.Platform.{Platform}
use sigillo.Verifier.{
  read_line-parsed, parsed, CheckpointEntry, Manifest, Line, read_line, checkpoint_json,
  checkpoint_schema, checkpoint_line,
}
use sigillo.Verifier.Chain.{KeyMap}
use sigillo.Verifier.Checkpoints.{Tally, tally_entry, rebuildable, check_entry, check_checkpoints}
use sigillo.Verifier.Checkpoints.Roots.{IsAnchored, check_entry-IsAnchored}

module _ (p : Platform) (trusted : Option (List Text)) (m : Manifest) (keys : KeyMap)
    (first : Receipt) (receipts : List Receipt) where
  All-append :
      (entries : List CheckpointEntry) (entry : CheckpointEntry)
      → All (IsAnchored p trusted m keys first receipts) entries
      → IsAnchored p trusted m keys first receipts entry
      → All (IsAnchored p trusted m keys first receipts) (entries ++ entry ∷ [])
  All-append [] entry h k = (k, tt)
  All-append (other ∷ entries) entry h k = (h.0, All-append entries entry h.1 k)

  -- The lines all hold an entry, and the loop takes up each of them, in order.
  pub check_checkpoints-lines :
      (n : ℕ) (t : Tally) (lines : List (Line CheckpointEntry)) {t' : Tally}
      → check_checkpoints p trusted m keys first receipts n t lines ≡ ok t'
      → (entries : List CheckpointEntry) × (lines ≡ map (λ (e : CheckpointEntry). parsed e) entries)
        × (t'.checkpoints ≡ t.checkpoints ++ entries)
  unfolding check_checkpoints
  check_checkpoints-lines n t [] h = (
    [],
    refl,
    ap (λ (u : Tally). u.checkpoints) (sym (ok-injective h)) ∙ sym (append-nil t.checkpoints),
  )
  check_checkpoints-lines n t (line ∷ lines) {t'} h =
      let (entry, read, h₁) =
        >>=-eq-ok (read_line checkpoint_json checkpoint_schema (checkpoint_line n) line) _ h in
      let (_, _, h₂) = >>=-eq-ok (check_entry p trusted m keys first receipts n entry) _ h₁ in
      let (entries, same, all) =
        check_checkpoints-lines (n + 1)
          (tally_entry p n entry (rebuildable p first receipts entry.checkpoint) t) lines h₂ in
      let here : line ≡ parsed entry =
        read_line-parsed checkpoint_json checkpoint_schema (checkpoint_line n) line read in
      (
        entry ∷ entries,
        ap (λ first. first ∷ lines) here ∙ ap (λ more. parsed entry ∷ more) same,
        all ∙ append_assoc t.checkpoints (entry ∷ []) entries,
      )

  pub check_checkpoints-IsAnchored :
      (n : ℕ) (t : Tally) (lines : List (Line CheckpointEntry)) {t' : Tally}
      → check_checkpoints p trusted m keys first receipts n t lines ≡ ok t'
      → All (IsAnchored p trusted m keys first receipts) t.checkpoints
      → All (IsAnchored p trusted m keys first receipts) t'.checkpoints
  unfolding check_checkpoints
  check_checkpoints-IsAnchored n t [] h all = rw (← ok-injective h) all
  check_checkpoints-IsAnchored n t (line ∷ lines) h all =
      let (entry, _, h₁) =
        >>=-eq-ok (read_line checkpoint_json checkpoint_schema (checkpoint_line n) line) _ h in
      let (_, passed, h₂) = >>=-eq-ok (check_entry p trusted m keys first receipts n entry) _ h₁ in
      check_checkpoints-IsAnchored (n + 1)
        (tally_entry p n entry (rebuildable p first receipts entry.checkpoint) t) lines h₂
        (All-append t.checkpoints entry all
          (check_entry-IsAnchored p trusted m keys first receipts n entry passed))
