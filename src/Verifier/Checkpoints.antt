-- ===== src/Verifier/Checkpoints.antt =====
-- verifyBundle, steps 10 to 12: each checkpoint of the export, its root and its inclusion proofs.
pub mod Roots
pub mod Accepted
use sigillo.Common.{
  ℕ, zero, suc, ◌+◌, ◌≡◌, Bool, true, false, not, ◌&&◌, ◌||◌, Option, none, some, List, [], ◌∷◌,
  ◌++◌, if◌then◌else◌, ◌==◌, leb, Result, ok, err, ◌>>=◌, ◌>>◌, guard, length, take, max,
}
use sigillo.Crypto.{Bytes, CoreError}
use sigillo.Text.{Text, text_eq}
use sigillo.Hex.{to_hex, from_hex}
use sigillo.Merkle.{merkle_root, root_from_inclusion_proof}
use sigillo.Receipt.{Receipt}
use sigillo.Platform.{Platform, receipt_hash}
use sigillo.Checkpoint.{Checkpoint, verify_checkpoint_signature}
use sigillo.Verifier.{
  VerifierError, failed, require, uncaught, read_line, Line, InclusionProof, CheckpointEntry,
  Manifest, checkpoint_line, find_receipt, checkpoint_json, checkpoint_schema, checkpoint_signature,
  merkle_root_check, inclusion_proof_check, system, key,
}
use sigillo.Verifier.Chain.{KeyMap, key_get, is_trusted, published}

-- The variables that the loop over the checkpoints changes.
pub record Tally : Type 0 where
  pub checkpoints : List CheckpointEntry
  pub linked : List (ℕ × CheckpointEntry)
  pub roots_recomputed : ℕ
  pub proofs_checked : ℕ
  pub unlinked : ℕ
  pub anchored_through : Option ℕ

abbrev pub empty_tally : Tally
empty_tally = record {
  checkpoints = [];
  linked = [];
  roots_recomputed = 0;
  proofs_checked = 0;
  unlinked = 0;
  anchored_through = none;
}

-- `Math.max(anchoredThrough ?? 0, size)`
abbrev pub anchor : Option ℕ → ℕ → Option ℕ
anchor none size = some size
anchor (some before) size = some (max before size)

unfoldable pub from_hexes : List Text → Result CoreError (List Bytes)
from_hexes [] = ok []
from_hexes (text ∷ texts) = do bytes ← from_hex text; rest ← from_hexes texts; ok (bytes ∷ rest)

-- The errors that the `try` around an inclusion proof catches.
abbrev pub caught {ℓ} : {A : Type ℓ} → ℕ → Result CoreError A → Result VerifierError A
caught n (ok value) = ok value
caught n (err e) = err (failed inclusion_proof_check (checkpoint_line n))

abbrev pub found_receipt : ℕ → Option Receipt → Result VerifierError Receipt
found_receipt n none = err (failed inclusion_proof_check (checkpoint_line n))
found_receipt n (some r) = ok r

abbrev pub is_empty {ℓ} : {A : Type ℓ} → List A → Bool
is_empty [] = true
is_empty (_ ∷ _) = false

module _ (p : Platform) where
  abbrev pub hash_hex : Receipt → Text
  hash_hex r = to_hex (receipt_hash p r.unsigned)

  unfoldable pub leaves_of : List Receipt → Result CoreError (List Bytes)
  leaves_of [] = ok []
  leaves_of (r ∷ receipts) = do
    leaf ← from_hex (hash_hex r)
    leaves ← leaves_of receipts
    ok (leaf ∷ leaves)

  -- Step 11, where the receipts of the tree are present.
  unfoldable pub check_root : ℕ → Checkpoint → List Receipt → Result VerifierError (Unit {0})
  check_root n checkpoint receipts = do
    leaves ← uncaught (leaves_of (take checkpoint.tree_size receipts))
    root ← uncaught (merkle_root p.hash leaves)
    require (text_eq (to_hex root) checkpoint.root_hash) merkle_root_check (checkpoint_line n)

  -- The root that a proof rebuilds, with its errors.
  unfoldable pub rebuild : Text → ℕ → ℕ → List Text → Result CoreError Text
  rebuild hash seq tree_size path = do
    entry ← from_hex hash
    steps ← from_hexes path
    root ← root_from_inclusion_proof p.hash entry seq tree_size steps
    ok (to_hex root)

  -- Step 12.
  unfoldable pub check_proof :
      ℕ → Checkpoint → List Receipt → InclusionProof → Result VerifierError (Unit {0})
  check_proof n checkpoint receipts proof = do
    r ← found_receipt n (find_receipt proof.seq receipts)
    require (text_eq (hash_hex r) proof.receipt_hash) inclusion_proof_check (checkpoint_line n)
    rebuilt ← caught n (rebuild (hash_hex r) proof.seq checkpoint.tree_size proof.path)
    require (text_eq rebuilt checkpoint.root_hash) inclusion_proof_check (checkpoint_line n)

  unfoldable pub check_proofs :
      ℕ → Checkpoint → List Receipt → List InclusionProof → Result VerifierError (Unit {0})
  check_proofs n checkpoint receipts [] = ok tt
  check_proofs n checkpoint receipts (proof ∷ proofs) = do
    check_proof n checkpoint receipts proof
    check_proofs n checkpoint receipts proofs

  abbrev pub rebuildable : Receipt → List Receipt → Checkpoint → Bool
  rebuildable first receipts checkpoint =
      first.seq == 0 && leb checkpoint.tree_size (length receipts)

  abbrev pub check_root_if : Bool → ℕ → Checkpoint → List Receipt → Result VerifierError (Unit {0})
  check_root_if true n checkpoint receipts = check_root n checkpoint receipts
  check_root_if false n checkpoint receipts = ok tt

  abbrev count_if : Bool → ℕ → ℕ
  count_if b n = if b then n + 1 else n

  -- The tally after an entry that passed.
  abbrev pub tally_entry : ℕ → CheckpointEntry → Bool → Tally → Tally
  tally_entry n entry whole t =
      let tied = whole || not (is_empty entry.proofs) in
      record {
        checkpoints = t.checkpoints ++ entry ∷ [];
        linked = if tied then t.linked ++ (n, entry) ∷ [] else t.linked;
        roots_recomputed = count_if whole t.roots_recomputed;
        proofs_checked = t.proofs_checked + length entry.proofs;
        unlinked = if tied then t.unlinked else t.unlinked + 1;
        anchored_through =
            if tied
            then anchor t.anchored_through entry.checkpoint.tree_size
            else t.anchored_through;
      }

  module _ (trusted : Option (List Text)) (m : Manifest) (keys : KeyMap) (first : Receipt)
      (receipts : List Receipt) where
    unfoldable pub check_entry : ℕ → CheckpointEntry → Result VerifierError (Unit {0})
    check_entry n entry = do
      let checkpoint = entry.checkpoint
      require (text_eq checkpoint.system_id m.system_id) system (checkpoint_line n)
      raw ← published (key_get checkpoint.key_id keys) (checkpoint_line n)
      require (is_trusted checkpoint.key_id trusted) key (checkpoint_line n)
      require (verify_checkpoint_signature p checkpoint raw) checkpoint_signature
          (checkpoint_line n)
      check_root_if (rebuildable first receipts checkpoint) n checkpoint receipts
      check_proofs n checkpoint receipts entry.proofs

    unfoldable pub check_checkpoints :
        ℕ → Tally → List (Line CheckpointEntry) → Result VerifierError Tally
    check_checkpoints n t [] = ok t
    check_checkpoints n t (line ∷ lines) = do
      entry ← read_line checkpoint_json checkpoint_schema (checkpoint_line n) line
      check_entry n entry
      check_checkpoints (n + 1)
          (tally_entry n entry (rebuildable first receipts entry.checkpoint) t) lines
