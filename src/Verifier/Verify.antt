-- ===== src/Verifier/Verify.antt =====
-- `verifyBundle` as a whole, in the order of its steps, and what it accepts.
use sigillo.Common.{
  ℕ, ◌+◌, ◌≡◌, refl, sym, ◌∙◌, ◌&&◌, Option, none, some, List, [], ◌∷◌, if◌then◌else◌, ◌==◌, leb,
  max, length, Result, ok, err, ◌>>=◌, ◌>>◌, >>=-eq-ok, ok-injective, arith, All, ap, map,
}
use sigillo.Crypto.{Bytes}
use sigillo.Text.{Text, text_eq}
use sigillo.Receipt.{Receipt, version_number}
use sigillo.Platform.{Platform}
use sigillo.Verifier.{
  VerifierError, failed, require, read_line, read_line-parsed, parsed, Manifest, Bundle,
  CheckpointEntry, manifest_file, receipts_file, manifest, range,
}
use sigillo.Verifier.Chain.{KeyMap, last_of, read_keys, read_receipts, check_chain}
use sigillo.Verifier.Chain.Sound.{IsChain, check_chain-IsChain}
use sigillo.Verifier.Chain.Lines.{NamesItself, read_keys-NamesItself, read_receipts-lines}
use sigillo.Verifier.Indices.{check_artifacts, check_openings, tokens_used, check_subjects}
use sigillo.Verifier.Checkpoints.{Tally, empty_tally, check_checkpoints}
use sigillo.Verifier.Checkpoints.Roots.{IsAnchored}
use sigillo.Verifier.Checkpoints.Accepted.{check_checkpoints-IsAnchored, check_checkpoints-lines}

pub record VerificationSummary : Type 0 where
  pub system_id : Text
  pub receipts : ℕ
  pub first_seq : ℕ
  pub last_seq : ℕ
  pub key_ids : List Text
  pub checkpoints : ℕ
  pub inclusion_proofs : ℕ
  pub roots_recomputed : ℕ
  pub artifacts_indexed : ℕ
  pub unlinked_checkpoints : ℕ
  pub unanchored_receipts : ℕ
  pub openings_disclosed : ℕ
  pub subjects_disclosed : ℕ

pub record Verified : Type 0 where
  pub summary : VerificationSummary
  pub receipts : List Receipt
  pub linked_checkpoints : List (ℕ × CheckpointEntry)

unfoldable pub count_timestamps : List CheckpointEntry → ℕ
count_timestamps [] = 0
count_timestamps (entry ∷ entries) = length entry.timestamps + count_timestamps entries

unfoldable pub highest_version : List Receipt → ℕ
highest_version [] = 0
highest_version (r ∷ receipts) = max (version_number r.v) (highest_version receipts)

-- `receipts.filter((receipt) => receipt.seq >= anchoredThrough).length`
unfoldable pub count_from : ℕ → List Receipt → ℕ
count_from seq [] = 0
count_from seq (r ∷ receipts) =
    if leb seq r.seq then count_from seq receipts + 1 else count_from seq receipts

abbrev pub unanchored : Option ℕ → List Receipt → ℕ
unanchored none receipts = 0
unanchored (some seq) receipts = count_from seq receipts

-- The first of the receipts and the others.
abbrev pub split_first : List Receipt → Result VerifierError (Receipt × List Receipt)
split_first [] = err (failed range receipts_file)
split_first (first ∷ more) = ok (first, more)

-- Step 13.
unfoldable pub check_range :
    Manifest → Receipt → List Receipt → List CheckpointEntry → Result VerifierError (Unit {0})
check_range m first more checkpoints = do
  let last = last_of first more
  require (last.seq == m.to_seq) range manifest_file
  require (text_eq m.from_ts first.ts_received && text_eq m.to_ts last.ts_received) range
      manifest_file
  require (m.receipts == length (first ∷ more)) range manifest_file
  require (m.checkpoints == length checkpoints) range manifest_file
  require (m.timestamps == count_timestamps checkpoints) range manifest_file
  require (m.receipt_version == highest_version (first ∷ more)) range manifest_file

abbrev pub summary_of :
    Manifest
    → KeyMap
    → Receipt
    → List Receipt
    → Tally
    → ℕ
    → List Text
    → List Text
    → VerificationSummary
summary_of m keys first more t indexed opened named = record {
  system_id = m.system_id;
  receipts = length (first ∷ more);
  first_seq = first.seq;
  last_seq = (last_of first more).seq;
  key_ids = map (λ (entry : Text × Bytes). entry.0) keys;
  checkpoints = length t.checkpoints;
  inclusion_proofs = t.proofs_checked;
  roots_recomputed = t.roots_recomputed;
  artifacts_indexed = indexed;
  unlinked_checkpoints = t.unlinked;
  unanchored_receipts = unanchored t.anchored_through (first ∷ more);
  openings_disclosed = length opened;
  subjects_disclosed = length named;
}

module _ (p : Platform) (trusted : Option (List Text)) where
  unfoldable pub verify_bundle : Bundle → Result VerifierError Verified
  verify_bundle bundle = do
    m ← read_line manifest manifest manifest_file bundle.manifest
    keys ← read_keys p [] m.keys
    receipts ← read_receipts 1 bundle.receipts
    (first, more) ← split_first receipts
    check_chain p trusted m keys first more
    check_artifacts (first ∷ more) bundle.artifacts_index
    opened ← check_openings (first ∷ more) 1 [] bundle.openings
    named ← check_subjects (tokens_used (first ∷ more)) 1 [] bundle.subjects
    t ← check_checkpoints p trusted m keys first (first ∷ more) 1 empty_tally bundle.checkpoints
    check_range m first more t.checkpoints
    ok (record {
      summary = summary_of m keys first more t (length bundle.artifacts_index) opened named;
      receipts = first ∷ more;
      linked_checkpoints = t.linked;
    })

  -- What an accepted bundle is.
  pub record IsVerified (bundle : Bundle) (v : Verified) : Type 0 where
    pub m : Manifest
    pub is_manifest : bundle.manifest ≡ parsed m
    pub keys : KeyMap
    pub are_keys : read_keys p [] m.keys ≡ ok keys
    pub own_ids : All (NamesItself p) m.keys
    pub first : Receipt
    pub more : List Receipt
    pub same_receipts : v.receipts ≡ first ∷ more
    pub every_receipt : bundle.receipts ≡ map (λ (r : Receipt). parsed r) v.receipts
    pub chain : IsChain p trusted keys m first more
    pub ends : (last_of first more).seq ≡ m.to_seq
    pub counted : m.receipts ≡ length v.receipts
    pub checkpoints : List CheckpointEntry
    pub every_checkpoint : bundle.checkpoints ≡ map (λ (e : CheckpointEntry). parsed e) checkpoints
    pub anchored : All (IsAnchored p trusted m keys first (first ∷ more)) checkpoints
    pub checkpoints_counted : m.checkpoints ≡ length checkpoints

  is_split :
      (receipts : List Receipt) {pair : Receipt × List Receipt}
      → split_first receipts ≡ ok pair
      → receipts ≡ pair.0 ∷ pair.1
  is_split [] h = cc
  is_split (r ∷ more) h = rw (← ok-injective h) refl

  check_range-counts :
      (m : Manifest) (first : Receipt) (more : List Receipt) (checkpoints : List CheckpointEntry)
      → check_range m first more checkpoints ≡ ok tt
      → ((last_of first more).seq ≡ m.to_seq)
        × (m.receipts ≡ length (first ∷ more))
        × (m.checkpoints ≡ length checkpoints)
  unfolding check_range
  check_range-counts m first more checkpoints h = (ground arith, ground arith, ground arith)

  -- A bundle that the verifier accepts holds a manifest whose keys carry their own identifiers; every
  -- line of its receipts is a receipt, and these are a chain of its system from its first number to its
  -- last, as many as it counts; and every line of its checkpoints is a checkpoint accepted over these
  -- receipts, as many as it counts.
  pub verify_bundle-IsVerified :
      (bundle : Bundle) {v : Verified} → verify_bundle bundle ≡ ok v → IsVerified bundle v
  unfolding verify_bundle
  verify_bundle-IsVerified bundle {v} h =
      let (m, manifested, h₁) =
        >>=-eq-ok (read_line manifest manifest manifest_file bundle.manifest) _ h in
      let (keys, keyed, h₂) = >>=-eq-ok (read_keys p [] m.keys) _ h₁ in
      let (receipts, read, h₃) = >>=-eq-ok (read_receipts 1 bundle.receipts) _ h₂ in
      let (pair, parted, h₄) = >>=-eq-ok (split_first receipts) _ h₃ in
      let first = pair.0 in
      let more = pair.1 in
      let (_, chained, h₅) = >>=-eq-ok (check_chain p trusted m keys first more) _ h₄ in
      let (_, _, h₆) = >>=-eq-ok (check_artifacts (first ∷ more) bundle.artifacts_index) _ h₅ in
      let (_, _, h₇) = >>=-eq-ok (check_openings (first ∷ more) 1 [] bundle.openings) _ h₆ in
      let (_, _, h₈) =
        >>=-eq-ok (check_subjects (tokens_used (first ∷ more)) 1 [] bundle.subjects) _ h₇ in
      let (t, tallied, h₉) =
        >>=-eq-ok
          (check_checkpoints p trusted m keys first (first ∷ more) 1 empty_tally bundle.checkpoints)
          _ h₈ in
      let taken =
        check_checkpoints-lines p trusted m keys first (first ∷ more) 1 empty_tally
          bundle.checkpoints tallied in
      let (_, ranged, done) = >>=-eq-ok (check_range m first more t.checkpoints) _ h₉ in
      let (ends, counted, checkpoints_counted) =
        check_range-counts m first more t.checkpoints ranged in
      let same = ap (λ (w : Verified). w.receipts) (sym (ok-injective done)) in
      record {
        m = m;
        is_manifest = read_line-parsed manifest manifest manifest_file bundle.manifest manifested;
        keys = keys;
        are_keys = keyed;
        own_ids = read_keys-NamesItself p [] m.keys keyed;
        first = first;
        more = more;
        same_receipts = same;
        every_receipt =
            read_receipts-lines 1 bundle.receipts read
            ∙ ap (λ found. map (λ (r : Receipt). parsed r) found)
                (is_split receipts parted ∙ sym same);
        chain = (check_chain-IsChain p trusted keys m first more).0 chained;
        ends = ends;
        counted = counted ∙ ap length (sym same);
        checkpoints = t.checkpoints;
        every_checkpoint =
            taken.1 ∙ ap (λ found. map (λ (e : CheckpointEntry). parsed e) found) (sym taken.2);
        anchored =
            check_checkpoints-IsAnchored p trusted m keys first (first ∷ more) 1 empty_tally
              bundle.checkpoints tallied tt;
        checkpoints_counted = checkpoints_counted;
      }
