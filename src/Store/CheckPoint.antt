-- ===== src/Store/CheckPoint.antt =====
-- store.ts: `writeCheckpoint`. The signer's checkpoint is checked against the tree of the hashes that
-- the database holds.
use sigillo.Common.{
  ℕ, Bool, true, false, not, ◌&&◌, ◌||◌, Option, none, some, List, [], ◌∷◌, ◌++◌, length, ltb, ◌==◌,
  if◌then◌else◌, Result, ok, err, ◌>>=◌,
}
use sigillo.Crypto.{Bytes, CoreError}
use sigillo.Text.{Text, codes, text_eq}
use sigillo.Hex.{to_hex, from_hex}
use sigillo.Merkle.{merkle_root}
use sigillo.Platform.{Platform}
use sigillo.Checkpoint.{Checkpoint, verify_checkpoint_signature}
use sigillo.Signer.{sequence}
use sigillo.Verifier.Indices.{number_text}
use sigillo.Store.{
  StoreError, storage_error, constraint_error, core_error, refused_by_signer, read_receipt_hashes,
}
use sigillo.Store.Service.{SigningService, SigningError, StoreState}
use sigillo.Store.Insert.{signing_error}
use sigillo.Store.Reconcile.{
  ReconcileOutcome, in_sync, recovered, diverged, reconcile_now, record_divergence,
}

unfoldable pub from_hex_all : List Text → Result CoreError (List Bytes)
from_hex_all [] = ok []
from_hex_all (text ∷ texts) = do bytes ← from_hex text; more ← from_hex_all texts; ok (bytes ∷ more)

abbrev larger : ℕ → Option ℕ → Option ℕ
larger size none = some size
larger size (some other) = if ltb size other then some other else some size

-- The largest tree of a stored checkpoint of the chain.
unfoldable pub covered : Text → List Checkpoint → Option ℕ
covered id [] = none
covered id (c ∷ checkpoints) =
    if text_eq c.system_id id
    then larger c.tree_size (covered id checkpoints)
    else covered id checkpoints

abbrev pub is_size : Option ℕ → ℕ → Bool
is_size none size = false
is_size (some other) size = other == size

abbrev pub in_core {ℓ} : {A : Type ℓ} → Result CoreError A → Result StoreError A
in_core (ok value) = ok value
in_core (err e) = err (core_error e)

abbrev pub mismatch : Checkpoint → ℕ → Text → Text
mismatch c count root =
    codes "the signer's checkpoint covers "
    ++ number_text c.tree_size
    ++ codes " receipts with root "
    ++ c.root_hash
    ++ codes ", and this database holds "
    ++ number_text count
    ++ codes " with root "
    ++ root

abbrev pub store_checkpoint : {σ : Type 0} → Checkpoint → StoreState σ → StoreState σ
store_checkpoint c s = record s { db = record s.db { checkpoints = c ∷ s.db.checkpoints } }

-- `UNIQUE (system_id, tree_size)`
unfoldable pub has_size : Text → ℕ → List Checkpoint → Bool
has_size id size [] = false
has_size id size (c ∷ checkpoints) =
    if text_eq c.system_id id && c.tree_size == size then true else has_size id size checkpoints

module _ (p : Platform) where
  -- `merkleRoot(hashes.map(fromHex))`, in hexadecimal.
  unfoldable pub root_of : List Text → Result StoreError Text
  root_of hashes = do
    leaves ← in_core (from_hex_all hashes)
    root ← in_core (merkle_root p.hash leaves)
    ok (to_hex root)

module _ (p : Platform) {σ : Type 0} (svc : SigningService σ) where
  abbrev pub check_root :
      Text
      → Text
      → ℕ
      → Checkpoint
      → StoreState σ
      → Result StoreError Text
      → Result StoreError (Option Checkpoint) × StoreState σ
  check_root now id count c s (err e) = (err e, s)
  check_root now id count c s (ok root) =
      if not (c.tree_size == count) || not (text_eq c.root_hash root)
      then (err (refused_by_signer sequence), record_divergence now id (mismatch c count root) s)
      else if has_size c.system_id c.tree_size s.db.checkpoints
      then (err constraint_error, s)
      else (ok (some c), store_checkpoint c s)

  abbrev pub check_checkpoint :
      Text
      → Text
      → List Text
      → StoreState σ
      → Result SigningError Checkpoint × σ
      → Result StoreError (Option Checkpoint) × StoreState σ
  check_checkpoint now id hashes s (err e, service) =
      (err (signing_error e), record s { service = service })
  check_checkpoint now id hashes s (ok c, service) =
      if not (text_eq c.system_id id)
        || not (text_eq c.key_id svc.key_id)
        || not (verify_checkpoint_signature p c svc.public_key)
      then (err storage_error, record s { service = service })
      else check_root now id (length hashes) c (record s { service = service }) (root_of p hashes)

  -- Nothing to do where the newest checkpoint covers every receipt.
  abbrev pub agreed :
      Text → Text → StoreState σ → Result StoreError (Option Checkpoint) × StoreState σ
  agreed now id s =
      if length (read_receipt_hashes id s.db) == 0
      then (err storage_error, s)
      else if is_size (covered id s.db.checkpoints) (length (read_receipt_hashes id s.db))
      then (ok none, s)
      else check_checkpoint now id (read_receipt_hashes id s.db) s (svc.checkpoint id s.service)

  abbrev pub after_agreement :
      Text
      → Text
      → Result StoreError ReconcileOutcome × StoreState σ
      → Result StoreError (Option Checkpoint) × StoreState σ
  after_agreement now id (err e, s) = (err e, s)
  after_agreement now id (ok (diverged _), s) = (err (refused_by_signer sequence), s)
  after_agreement now id (ok in_sync, s) = agreed now id s
  after_agreement now id (ok (recovered _ _ _), s) = agreed now id s

  unfoldable pub write_checkpoint :
      Text → Text → StoreState σ → Result StoreError (Option Checkpoint) × StoreState σ
  write_checkpoint now id s = after_agreement now id (reconcile_now p svc now id s)
