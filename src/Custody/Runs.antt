-- ===== src/Custody/Runs.antt =====
-- The runs of a store before a service that keeps a log: operations, restarts, and the changes of the
-- service that its custody allows, in any order.
use sigillo.Common.{
  ℕ, ◌≡◌, not, ◌||◌, none, List, [], length, ◌==◌, ok, err, Result, Bool-cases, inl, inr,
}
use sigillo.Text.{Text, text_eq}
use sigillo.Platform.{Platform}
use sigillo.Receipt.{Receipt}
use sigillo.Checkpoint.{Checkpoint, verify_checkpoint_signature}
use sigillo.Signer.Log.{log_of}
use sigillo.Store.{Database, StoreError, public_key_for, chain_of, read_receipt_hashes}
use sigillo.Store.Service.{SigningService, SigningError, StoreState, open_store}
use sigillo.Store.CheckPoint.{
  covered, has_size, is_size, root_of, mismatch, check_root, check_checkpoint, agreed,
}
use sigillo.Store.Ordered.{receipts_of}
use sigillo.Store.Writes.{
  Rule, create_system-Rule, append-Rule, append_batch-Rule, write_checkpoint-Rule,
}
use sigillo.Store.Runs.{
  Step, created, appended, batched, reconciled, checkpointed, restarted, moved, Run, start, next,
  chains_kept, open_store-receipts, open_store-IsWellFormed, Run-Advances,
}
use sigillo.Custody.{IsCustodian, Kept, Keeping, Stored}
use sigillo.Custody.Insert.{insert_receipt-Keeping}
use sigillo.Store.Reconcile.{reconcile_now}
use sigillo.Custody.Level.{IsAgreed, reconcile_now-level}
use sigillo.Custody.Reconcile.{
  reconcile_now-KeptAt, record_divergence-KeptAt, reconcile_now-Keeping,
}
use sigillo.Custody.Older.{IsOlder, IsChain-IsOlder, chain_of-Stored}

module _ (p : Platform) {σ : Type 0} (svc : SigningService σ) (Moves : σ → σ → Type 0) where
  -- What the service does on its own is what it may do.
  abbrev pub IsHonestStep : {s s' : StoreState σ} → Step p svc s s' → Type 0
  IsHonestStep {s} (moved service) = Moves s.service service
  IsHonestStep _ = Unit

  abbrev pub IsHonest : {s s' : StoreState σ} → Run p svc s s' → Type 0
  IsHonest start = Unit
  IsHonest (next a b run step) = IsHonest run × IsHonestStep step

module _ (p : Platform) {σ : Type 0} {svc : SigningService σ} (c : IsCustodian p svc) where
  check_root-Keeping :
      (now id : Text) (count : ℕ) (cp : Checkpoint) (s : StoreState σ)
      (root : Result StoreError Text)
      → Keeping p c s (check_root p svc now id count cp s root).1
  check_root-Keeping now id count cp s (err e) k = k
  check_root-Keeping now id count cp s (ok root) k =
      elim (Bool-cases (not (cp.tree_size == count) || not (text_eq cp.root_hash root))) [
        | inl other ↦ rw other (record {
          log = k.log;
          kept = record_divergence-KeptAt p c now id (mismatch cp count root) k.log s k.kept;
        })
        | inr same ↦ elim (Bool-cases (has_size cp.system_id cp.tree_size s.db.checkpoints)) [
          | inl there ↦ rw (same, there) k
          | inr new ↦
              rw (same, new)
                (record {
                  log = k.log;
                  kept = record { logged = k.kept.logged; stored = k.kept.stored };
                })
        ]
      ]

  check_checkpoint-Kept :
      (now id : Text) (hashes : List Text) (s : StoreState σ) (log : List Receipt)
      (answer : Result SigningError Checkpoint × σ)
      → c.Logged answer.1 log
      → Stored log s.db.receipts
      → Kept p c (check_checkpoint p svc now id hashes s answer).1
  check_checkpoint-Kept now id hashes s log (err e, service) logged stored = record {
    log = log;
    kept = record { logged = logged; stored = stored };
  }
  check_checkpoint-Kept now id hashes s log (ok cp, service) logged stored =
      let k : Kept p c (record s { service = service }) = record {
        log = log;
        kept = record { logged = logged; stored = stored };
      } in
      elim (Bool-cases (
        not (text_eq cp.system_id id)
        || not (text_eq cp.key_id svc.key_id)
        || not (verify_checkpoint_signature p cp svc.public_key))) [
          | inl unsigned ↦ rw unsigned k
          | inr signed ↦ rw signed (
              check_root-Keeping now id (length hashes) cp (record s { service = service })
                (root_of p hashes) k)
        ]

  agreed-Keeping : (now id : Text) (s : StoreState σ) → Keeping p c s (agreed p svc now id s).1
  agreed-Keeping now id s k = elim (Bool-cases (length (read_receipt_hashes id s.db) == 0)) [
    | inl empty ↦ rw empty k
    | inr some_there ↦
        elim (Bool-cases
          (is_size (covered id s.db.checkpoints) (length (read_receipt_hashes id s.db)))) [
            | inl done ↦ rw (some_there, done) k
            | inr behind ↦
                rw (some_there, behind)
                  (check_checkpoint-Kept now id (read_receipt_hashes id s.db) s k.log
                    (svc.checkpoint id s.service) (c.checks id s.service k.log k.kept.logged)
                    k.kept.stored)
          ]
  ]

  unfoldable keeping_rule : Rule p svc
  keeping_rule = record {
    Holds = Keeping p c;
    still = λ s k. k;
    joined = λ a b d f g k. g (f k);
    inserted = insert_receipt-Keeping p c;
    reconciled = reconcile_now-Keeping p c;
    agrees = agreed-Keeping;
  }

  Step-Keeping :
      {s s' : StoreState σ} (step : Step p svc s s')
      → IsHonestStep p svc c.Moves step
      → Keeping p c s s'
  unfolding keeping_rule
  Step-Keeping {s} (created id ts organization_id attempts) honest k =
      create_system-Rule p svc keeping_rule id ts organization_id attempts s k
  Step-Keeping {s} (appended event check checked attempts) honest k =
      append-Rule p svc keeping_rule event check checked attempts s k
  Step-Keeping {s} (batched events check checked) honest k =
      append_batch-Rule p svc keeping_rule events check checked s k
  Step-Keeping {s} (reconciled now id) honest k = reconcile_now-Keeping p c now id s k
  Step-Keeping {s} (checkpointed now id) honest k =
      write_checkpoint-Rule p svc keeping_rule now id s k
  Step-Keeping {s} restarted honest k = record {
    log = k.log;
    kept = record { logged = k.kept.logged; stored = k.kept.stored };
  }
  Step-Keeping {s} (moved service) honest k = record {
    log = k.log;
    kept = record { logged = c.moves honest k.kept.logged; stored = k.kept.stored };
  }

  pub Run-Keeping :
      {s s' : StoreState σ} (run : Run p svc s s') → IsHonest p svc c.Moves run → Keeping p c s s'
  Run-Keeping start honest k = k
  Run-Keeping (next a b run step) honest k = Step-Keeping step honest.1 (Run-Keeping run honest.0 k)

  opened-Kept :
      (db : Database) {s : StoreState σ}
      → db.receipts ≡ []
      → open_store p svc db ≡ ok s.db
      → c.Logged s.service []
      → Kept p c s
  opened-Kept db {s} empty started logged =
      let bare : s.db.receipts ≡ [] = open_store-receipts p svc db empty started in
      record { log = []; kept = record { logged = logged; stored = rw bare tt } }

  -- Take a store opened on a database without receipts, for a key not on file, before a service that
  -- keeps to a log of what it signs and has signed nothing yet. After any creations, appends, batches,
  -- reconciliations, checkpoints, restarts and moves of the service that its custody allows, the service
  -- is at a log of which the rows of every system are the older part: the database holds no receipt
  -- that the service did not sign, and those it is missing are the newest.
  pub stored_behind :
      (db : Database) {s s' : StoreState σ}
      → db.receipts ≡ []
      → public_key_for svc.key_id db.signing_keys ≡ none
      → open_store p svc db ≡ ok s.db
      → c.Logged s.service []
      → (run : Run p svc s s') → IsHonest p svc c.Moves run
      → (log : List Receipt) × c.Logged s'.service log
        × ((id : Text) → IsOlder (receipts_of (chain_of id s'.db.receipts)) (log_of id log))
  stored_behind db {s} {s'} empty new started logged run honest =
      let k = Run-Keeping run honest (opened-Kept db empty started logged) in
      (
        k.log,
        k.kept.logged,
        λ id.
            IsChain-IsOlder p s.db.signing_keys (chain_of id s'.db.receipts) (log_of id k.log)
              (c.links id k.kept.logged) (chains_kept p svc db empty new started run id)
              (chain_of-Stored id k.log s'.db.receipts k.kept.stored),
      )

  -- After such a run, a reconciliation of a system that ends in agreement, with nothing to take back or
  -- with all of it taken, leaves in the database exactly what the log has of that system.
  pub stored_level :
      (db : Database) {s s' : StoreState σ} (now id : Text)
      → db.receipts ≡ []
      → public_key_for svc.key_id db.signing_keys ≡ none
      → open_store p svc db ≡ ok s.db
      → c.Logged s.service []
      → (run : Run p svc s s') → IsHonest p svc c.Moves run
      → IsAgreed (reconcile_now p svc now id s').0
      → (log : List Receipt) × c.Logged (reconcile_now p svc now id s').1.service log
        × (receipts_of (chain_of id (reconcile_now p svc now id s').1.db.receipts) ≡ log_of id log)
  stored_level db {s} {s'} now id empty new started logged run honest agreed =
      let k = Run-Keeping run honest (opened-Kept db empty started logged) in
      let w =
        (Run-Advances p svc s.db.signing_keys run
          (open_store-IsWellFormed p svc db empty new started)).0 in
      (
        k.log,
        (reconcile_now-KeptAt p c now id k.log s' k.kept).logged,
        reconcile_now-level p c now id s.db.signing_keys s' k.log w k.kept agreed,
      )
