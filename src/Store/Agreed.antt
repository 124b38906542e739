-- ===== src/Store/Agreed.antt =====
-- What `writeCheckpoint` does once store and service agree keeps every chain: it writes no receipt.
use sigillo.Common.{ℕ, refl, not, ◌||◌, List, ok, err, Result, Bool-cases, inl, inr, ◌==◌, length}
use sigillo.Text.{Text, text_eq}
use sigillo.Platform.{Platform}
use sigillo.Checkpoint.{Checkpoint, verify_checkpoint_signature}
use sigillo.Store.{KeyRow, StoreError, read_receipt_hashes}
use sigillo.Store.Service.{SigningService, SigningError, StoreState}
use sigillo.Store.CheckPoint.{
  covered, has_size, is_size, root_of, mismatch, store_checkpoint, check_root, check_checkpoint,
  agreed,
}
use sigillo.Store.Sound.{Advances-refl, Keeps-Advances, StoreAdvances}
use sigillo.Store.Restore.{record_divergence-Advances}

module _ (p : Platform) {σ : Type 0} (svc : SigningService σ) (keys : List KeyRow) where
  store_checkpoint-Advances :
      (c : Checkpoint) (s : StoreState σ) → StoreAdvances p svc keys s (store_checkpoint c s)
  store_checkpoint-Advances c s =
      Keeps-Advances p svc.key_id svc.public_key keys
        (record { same_receipts = refl; same_keys = refl })

  check_root-Advances :
      (now id : Text) (count : ℕ) (c : Checkpoint) (s : StoreState σ)
      (root : Result StoreError Text)
      → StoreAdvances p svc keys s (check_root p svc now id count c s root).1
  check_root-Advances now id count c s (err e) = Advances-refl p svc.key_id svc.public_key keys s.db
  check_root-Advances now id count c s (ok root) =
      elim (Bool-cases (not (c.tree_size == count) || not (text_eq c.root_hash root))) [
        | inl other ↦
            rw other (record_divergence-Advances p svc keys now id (mismatch c count root) s)
        | inr same ↦ elim (Bool-cases (has_size c.system_id c.tree_size s.db.checkpoints)) [
          | inl there ↦ rw (same, there) (Advances-refl p svc.key_id svc.public_key keys s.db)
          | inr new ↦ rw (same, new) (store_checkpoint-Advances c s)
        ]
      ]

  check_checkpoint-Advances :
      (now id : Text) (hashes : List Text) (s : StoreState σ)
      (answer : Result SigningError Checkpoint × σ)
      → StoreAdvances p svc keys s (check_checkpoint p svc now id hashes s answer).1
  check_checkpoint-Advances now id hashes s (err e, service) =
      Advances-refl p svc.key_id svc.public_key keys s.db
  check_checkpoint-Advances now id hashes s (ok c, service) =
      elim (Bool-cases (
        not (text_eq c.system_id id)
        || not (text_eq c.key_id svc.key_id)
        || not (verify_checkpoint_signature p c svc.public_key))) [
          | inl unsigned ↦ rw unsigned (Advances-refl p svc.key_id svc.public_key keys s.db)
          | inr signed ↦ rw signed (
              check_root-Advances now id (length hashes) c (record s { service = service })
                (root_of p hashes))
        ]

  pub agreed-Advances :
      (now id : Text) (s : StoreState σ) → StoreAdvances p svc keys s (agreed p svc now id s).1
  agreed-Advances now id s = elim (Bool-cases (length (read_receipt_hashes id s.db) == 0)) [
    | inl empty ↦ rw empty (Advances-refl p svc.key_id svc.public_key keys s.db)
    | inr some_there ↦
        elim (Bool-cases
          (is_size (covered id s.db.checkpoints) (length (read_receipt_hashes id s.db)))) [
            | inl done ↦ rw (some_there, done) (Advances-refl p svc.key_id svc.public_key keys s.db)
            | inr behind ↦
                rw (some_there, behind)
                  (check_checkpoint-Advances now id (read_receipt_hashes id s.db) s
                    (svc.checkpoint id s.service))
          ]
  ]
