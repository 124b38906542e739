-- ===== src/Verifier/Checkpoints/Roots.antt =====
-- What an accepted checkpoint says of the receipts: its root is theirs, and each of its proofs leads
-- from a receipt of the export to it.
use sigillo.Common.{
  ℕ, ◌≡◌, ◌<◌, ◌⊎◌, refl, sym, ◌∙◌, true, Option, none, some, List, [], ◌∷◌, Result, ok, err, All,
  take, map, >>=-eq-ok, guard-eq-ok, ok-injective, arith, length, leb, ◌==◌, Bool-cases, inl, inr,
}
use sigillo.Crypto.{Bytes, CoreError}
use sigillo.Text.{Text, text_eq, text_eq_iff}
use sigillo.Hex.{to_hex}
use sigillo.Hex.RoundTrip.{from_hex-to_hex}
use sigillo.Merkle.{merkle_root, root_from_inclusion_proof}
use sigillo.Receipt.{Receipt}
use sigillo.Platform.{Platform, receipt_hash}
use sigillo.Signing.{receipt_hash-IsBytes}
use sigillo.Checkpoint.{Checkpoint, verify_checkpoint_signature}
use sigillo.Verifier.{
  failed, uncaught, InclusionProof, CheckpointEntry, Manifest, checkpoint_line, find_receipt,
  checkpoint_signature, inclusion_proof_check, system, key,
}
use sigillo.Verifier.Chain.{KeyMap, key_get, is_trusted, published}
use sigillo.Verifier.Checkpoints.{
  from_hexes, caught, found_receipt, hash_hex, leaves_of, check_root, rebuild, check_proof,
  check_proofs, rebuildable, check_root_if, check_entry,
}

module _ (p : Platform) where
  abbrev pub hashes : List Receipt → List Bytes
  hashes receipts = map (λ (r : Receipt). receipt_hash p r.unsigned) receipts

  leaves_of-eq : (receipts : List Receipt) → leaves_of p receipts ≡ ok (hashes receipts)
  unfolding leaves_of
  leaves_of-eq [] = refl
  leaves_of-eq (r ∷ receipts) =
      rw
        (
          leaves_of,
          from_hex-to_hex (receipt_hash p r.unsigned) (receipt_hash-IsBytes p r.unsigned),
          leaves_of-eq receipts,
        )
        refl

  -- The proof leads from a receipt of the export to the checkpoint's root.
  abbrev pub Proves : Checkpoint → List Receipt → InclusionProof → Type 0
  Proves checkpoint receipts proof =
      (r : Receipt) × (path : List Bytes) × (root : Bytes) × (find_receipt proof.seq receipts
        ≡ some r)
      × (from_hexes proof.path ≡ ok path)
      × (root_from_inclusion_proof p.hash (receipt_hash p r.unsigned) proof.seq checkpoint.tree_size
            path
          ≡ ok root)
      × (to_hex root ≡ checkpoint.root_hash)

  caught-eq-ok : (n : ℕ) (m : Result CoreError Text) {t : Text} → caught n m ≡ ok t → m ≡ ok t
  caught-eq-ok n (ok u) h = cc
  caught-eq-ok n (err e) h = cc

  found_receipt-eq-ok :
      (n : ℕ) (m : Option Receipt) {r : Receipt} → found_receipt n m ≡ ok r → m ≡ some r
  found_receipt-eq-ok n none h = cc
  found_receipt-eq-ok n (some r) h = cc

  uncaught-eq-ok {ℓ} : {A : Type ℓ} (m : Result CoreError A) {a : A} → uncaught m ≡ ok a → m ≡ ok a
  uncaught-eq-ok (ok a) h = cc
  uncaught-eq-ok (err e) h = cc

  rebuild-inv :
      (r : Receipt) (seq tree_size : ℕ) (texts : List Text) {rebuilt : Text}
      → rebuild p (hash_hex p r) seq tree_size texts ≡ ok rebuilt
      → (path : List Bytes) × (root : Bytes) × (from_hexes texts ≡ ok path)
        × (root_from_inclusion_proof p.hash (receipt_hash p r.unsigned) seq tree_size path
            ≡ ok root)
        × (to_hex root ≡ rebuilt)
  unfolding rebuild
  rebuild-inv r seq tree_size texts h =
      let read = from_hex-to_hex (receipt_hash p r.unsigned) (receipt_hash-IsBytes p r.unsigned) in
      let (path, steps, h₁) = >>=-eq-ok (from_hexes texts) _ (rw (rebuild, read) at h) in
      let (root, walked, h₂) =
        >>=-eq-ok (root_from_inclusion_proof p.hash (receipt_hash p r.unsigned) seq tree_size path)
          _ h₁ in
      (path, root, steps, walked, ok-injective h₂)

  check_proof-Proves :
      (n : ℕ) (c : Checkpoint) (receipts : List Receipt) (proof : InclusionProof)
      → check_proof p n c receipts proof ≡ ok tt
      → Proves c receipts proof
  unfolding check_proof
  check_proof-Proves n c receipts proof h =
      let (r, found, h₁) = >>=-eq-ok (found_receipt n (find_receipt proof.seq receipts)) _ h in
      let (_, h₂) =
        guard-eq-ok (text_eq (hash_hex p r) proof.receipt_hash)
          (failed inclusion_proof_check (checkpoint_line n)) _ h₁ in
      let (rebuilt, run, h₃) =
        >>=-eq-ok (caught n (rebuild p (hash_hex p r) proof.seq c.tree_size proof.path)) _ h₂ in
      let same : text_eq rebuilt c.root_hash ≡ true = ground arith in
      let (path, root, steps, walked, hashed) =
        rebuild-inv r proof.seq c.tree_size proof.path (caught-eq-ok n _ run) in
      (
        r,
        path,
        root,
        found_receipt-eq-ok n (find_receipt proof.seq receipts) found,
        steps,
        walked,
        hashed ∙ (text_eq_iff rebuilt c.root_hash).0 same,
      )

  check_proofs-Proves :
      (n : ℕ) (c : Checkpoint) (receipts : List Receipt) (proofs : List InclusionProof)
      → check_proofs p n c receipts proofs ≡ ok tt
      → All (Proves c receipts) proofs
  unfolding check_proofs
  check_proofs-Proves n c receipts [] h = tt
  check_proofs-Proves n c receipts (proof ∷ proofs) h =
      let (_, first, more) = >>=-eq-ok (check_proof p n c receipts proof) _ h in
      (check_proof-Proves n c receipts proof first, check_proofs-Proves n c receipts proofs more)

  -- The first receipts, as many as the tree has, build the checkpoint's root.
  abbrev pub Builds : Checkpoint → List Receipt → Type 0
  Builds checkpoint receipts =
      (root : Bytes) × (merkle_root p.hash (hashes (take checkpoint.tree_size receipts)) ≡ ok root)
      × (to_hex root ≡ checkpoint.root_hash)

  -- They do, unless the chain does not start at 0 or the tree is larger than the export.
  abbrev pub BuildsIfWhole : Receipt → Checkpoint → List Receipt → Type 0
  BuildsIfWhole first checkpoint receipts =
      (0 < first.seq) ⊎ (length receipts < checkpoint.tree_size) ⊎ Builds checkpoint receipts

  check_root-Builds :
      (n : ℕ) (c : Checkpoint) (receipts : List Receipt)
      → check_root p n c receipts ≡ ok tt
      → Builds c receipts
  unfolding check_root
  check_root-Builds n c receipts h =
      let (leaves, read, h₁) = >>=-eq-ok (uncaught (leaves_of p (take c.tree_size receipts))) _ h in
      let (root, built, h₂) = >>=-eq-ok (uncaught (merkle_root p.hash leaves)) _ h₁ in
      let same : text_eq (to_hex root) c.root_hash ≡ true = ground arith in
      let own : leaves ≡ hashes (take c.tree_size receipts) = ok-injective (
        sym (uncaught-eq-ok (leaves_of p (take c.tree_size receipts)) read)
        ∙ leaves_of-eq (take c.tree_size receipts)) in
      (
        root,
        rw (← own) (uncaught-eq-ok (merkle_root p.hash leaves) built),
        (text_eq_iff (to_hex root) c.root_hash).0 same,
      )

  check_root_if-BuildsIfWhole :
      (first : Receipt) (n : ℕ) (c : Checkpoint) (receipts : List Receipt)
      → check_root_if p (rebuildable p first receipts c) n c receipts ≡ ok tt
      → BuildsIfWhole first c receipts
  check_root_if-BuildsIfWhole first n c receipts h = elim (Bool-cases (first.seq == 0)) [
    | inr later ↦ inl (ground (arith, later))
    | inl opening ↦ elim (Bool-cases (leb c.tree_size (length receipts))) [
      | inr larger ↦ inr (inl (ground (arith, larger)))
      | inl whole ↦ inr (inr (check_root-Builds n c receipts (rw (opening, whole) at (h))))
    ]
  ]

  module _ (trusted : Option (List Text)) (m : Manifest) (keys : KeyMap) (first : Receipt)
      (receipts : List Receipt) where
    -- An accepted entry of checkpoints.jsonl.
    pub record IsAnchored (entry : CheckpointEntry) : Type 0 where
      pub own_system : entry.checkpoint.system_id ≡ m.system_id
      pub raw : Bytes
      pub is_published : key_get entry.checkpoint.key_id keys ≡ some raw
      pub trust : is_trusted entry.checkpoint.key_id trusted ≡ true
      pub signed : verify_checkpoint_signature p entry.checkpoint raw ≡ true
      pub builds : BuildsIfWhole first entry.checkpoint receipts
      pub proves : All (Proves entry.checkpoint receipts) entry.proofs

    published-eq-some :
        (n : ℕ) (found : Option Bytes) {raw : Bytes}
        → published found (checkpoint_line n) ≡ ok raw
        → found ≡ some raw
    published-eq-some n none h = cc
    published-eq-some n (some raw) h = cc

    -- A checkpoint that the verifier accepts is of the manifest's system and signed by a published
    -- and trusted key; where the receipts start at 0 and are no fewer than its tree has, as many of
    -- the first ones build its root; and each of its proofs leads from a receipt of the export to it.
    pub check_entry-IsAnchored :
        (n : ℕ) (entry : CheckpointEntry)
        → check_entry p trusted m keys first receipts n entry ≡ ok tt
        → IsAnchored entry
    unfolding check_entry
    check_entry-IsAnchored n entry h =
        let c = entry.checkpoint in
        let (own, h₁) =
          guard-eq-ok (text_eq c.system_id m.system_id) (failed system (checkpoint_line n)) _ h in
        let (raw, found, h₂) =
          >>=-eq-ok (published (key_get c.key_id keys) (checkpoint_line n)) _ h₁ in
        let (trust, h₃) =
          guard-eq-ok (is_trusted c.key_id trusted) (failed key (checkpoint_line n)) _ h₂ in
        let (signed, h₄) =
          guard-eq-ok (verify_checkpoint_signature p c raw)
            (failed checkpoint_signature (checkpoint_line n)) _ h₃ in
        let (_, rooted, h₅) =
          >>=-eq-ok (check_root_if p (rebuildable p first receipts c) n c receipts) _ h₄ in
        record {
          own_system = (text_eq_iff c.system_id m.system_id).0 own;
          raw = raw;
          is_published = published-eq-some n (key_get c.key_id keys) found;
          trust = trust;
          signed = signed;
          builds = check_root_if-BuildsIfWhole first n c receipts rooted;
          proves = check_proofs-Proves n c receipts entry.proofs h₅;
        }
