-- ===== src/Store/Runs.antt =====
-- The runs of a store before a signing service that may answer anything: the public operations of
-- store.ts in any order, restarts, and whatever the service does on its own.
use sigillo.Common.{
  ◌≡◌, refl, ◌&&◌, guard-eq-ok, ok-injective, sym, ap, ◌∙◌, Option, none, some, List, [], ◌++◌, ok,
  ◌==◌, length,
}
use sigillo.Text.{Text, text_eq, text_eq_refl}
use sigillo.Platform.{Platform}
use sigillo.Verifier.Chain.{key_id_of}
use sigillo.Store.{ChainEvent, StoredRow, KeyRow, public_key_for, storage_error, Database, chain_of}
use sigillo.Store.Prepare.{Random}
use sigillo.Store.Service.{add_key, open_store, SigningService, StoreState}
use sigillo.Store.Reconcile.{reconcile_now}
use sigillo.Store.Append.{Attempts, create_system, append, append_batch}
use sigillo.Store.CheckPoint.{write_checkpoint}
use sigillo.Store.Chain.{Extends-trans, IsWellFormed, IsChain}
use sigillo.Store.Sound.{Advances-refl, Advances-trans, StoreAdvances, insert_receipt-Advances}
use sigillo.Store.Agreed.{agreed-Advances}
use sigillo.Store.Restore.{reconcile_now-Advances}
use sigillo.Store.Writes.{
  Rule, create_system-Rule, append-Rule, append_batch-Rule, write_checkpoint-Rule,
}

module _ (p : Platform) {σ : Type 0} (svc : SigningService σ) where
  -- One operation, a restart of the process, or a change of the service that no call of the store made.
  pub data Step (s : StoreState σ) : StoreState σ → Type 0 where
    created :
        (id ts : Text) (organization_id : Option Text) (attempts : Attempts)
        → Step s (create_system p svc id ts organization_id attempts s).1
    appended :
        (event : ChainEvent) (check : Random) (checked : Database) (attempts : Attempts)
        → Step s (append p svc event check checked attempts s).1
    batched :
        (events : List (ChainEvent × Attempts)) (check : Random) (checked : Database)
        → Step s (append_batch p svc events check checked s).1
    reconciled : (now id : Text) → Step s (reconcile_now p svc now id s).1
    checkpointed : (now id : Text) → Step s (write_checkpoint p svc now id s).1
    restarted : Step s (record s { divergences = [] })
    moved : (service : σ) → Step s (record s { service = service })

  pub data Run (s : StoreState σ) : StoreState σ → Type 0 where
    start : Run s s
    next : (a b : StoreState σ) → Run s a → Step a b → Run s b

module _ (p : Platform) {σ : Type 0} (svc : SigningService σ) (keys : List KeyRow) where
  unfoldable pub advances_rule : Rule p svc
  advances_rule = record {
    Holds = StoreAdvances p svc keys;
    still = λ s. Advances-refl p svc.key_id svc.public_key keys s.db;
    joined = λ a b c f g. Advances-trans p svc.key_id svc.public_key keys f g;
    inserted = insert_receipt-Advances p svc keys;
    reconciled = reconcile_now-Advances p svc keys;
    agrees = agreed-Advances p svc keys;
  }

  Step-Advances : {s s' : StoreState σ} → Step p svc s s' → StoreAdvances p svc keys s s'
  unfolding advances_rule
  Step-Advances {s} (created id ts organization_id attempts) =
      create_system-Rule p svc advances_rule id ts organization_id attempts s
  Step-Advances {s} (appended event check checked attempts) =
      append-Rule p svc advances_rule event check checked attempts s
  Step-Advances {s} (batched events check checked) =
      append_batch-Rule p svc advances_rule events check checked s
  Step-Advances {s} (reconciled now id) = reconcile_now-Advances p svc keys now id s
  Step-Advances {s} (checkpointed now id) = write_checkpoint-Rule p svc advances_rule now id s
  Step-Advances {s} restarted = Advances-refl p svc.key_id svc.public_key keys s.db
  Step-Advances {s} (moved service) = Advances-refl p svc.key_id svc.public_key keys s.db

  pub Run-Advances : {s s' : StoreState σ} → Run p svc s s' → StoreAdvances p svc keys s s'
  Run-Advances {s} start w = Advances-refl p svc.key_id svc.public_key keys s.db w
  Run-Advances {s} (next a b run step) w =
      let first = Run-Advances run w in
      let second = Step-Advances step first.0 in (second.0, Extends-trans first.1 second.1)

module _ (p : Platform) {σ : Type 0} (svc : SigningService σ) where
  pub open_store-receipts :
      (db : Database) {end : Database}
      → db.receipts ≡ []
      → open_store p svc db ≡ ok end
      → end.receipts ≡ []
  unfolding open_store
  open_store-receipts db empty h =
      let (checked, done) =
        guard-eq-ok (length svc.public_key == 32 && text_eq (key_id_of p svc.public_key) svc.key_id)
          storage_error _ h in
      ap (λ (d : Database). d.receipts) (sym (ok-injective done)) ∙ empty

  -- A store opened on a database without receipts, for a key it has not seen.
  pub open_store-IsWellFormed :
      (db : Database) {end : Database}
      → db.receipts ≡ []
      → public_key_for svc.key_id db.signing_keys ≡ none
      → open_store p svc db ≡ ok end
      → IsWellFormed p svc.key_id svc.public_key end.signing_keys end
  unfolding open_store public_key_for
  open_store-IsWellFormed db {end} empty new h =
      let found : public_key_for svc.key_id (add_key svc.key_id svc.public_key db.signing_keys none)
          ≡ some svc.public_key =
        rw (text_eq_refl svc.key_id) refl in
      let (checked, done) =
        guard-eq-ok (length svc.public_key == 32 && text_eq (key_id_of p svc.public_key) svc.key_id)
          storage_error _ h in
      let same = ok-injective done in
      let rows = open_store-receipts db empty h in
      let keys : end.signing_keys ≡ add_key svc.key_id svc.public_key db.signing_keys none =
        ap (λ (d : Database). d.signing_keys) (sym same)
        ∙ ap (add_key svc.key_id svc.public_key db.signing_keys) new in
      record {
        known = ap (public_key_for svc.key_id) keys ∙ found;
        keys_kept = refl;
        chained = λ id. rw rows tt;
      }

  -- Whatever the signing service answers, and however calls of createSystem, append, appendBatch, the
  -- reconciliation and writeCheckpoint, restarts and changes of the service follow one another, a store
  -- opened on a database without receipts, for a key not on file, holds chains: the rows of each system
  -- are numbered from 0 without a gap, each receipt carries the hash of the one before it, the stored
  -- hash is the receipt's own, and its signature verifies under the key on file by its `key_id`.
  pub chains_kept :
      (db : Database) {s s' : StoreState σ}
      → db.receipts ≡ []
      → public_key_for svc.key_id db.signing_keys ≡ none
      → open_store p svc db ≡ ok s.db
      → Run p svc s s'
      → (id : Text) → IsChain p s.db.signing_keys (chain_of id s'.db.receipts)
  chains_kept db {s} empty new opened run =
      (Run-Advances p svc s.db.signing_keys run
        (open_store-IsWellFormed db empty new opened)).0.chained

  -- On a run of these operations from a store whose rows are such chains, no row is ever changed or
  -- removed: the rows at the end are rows added before those at the start.
  pub rows_kept :
      {s s' : StoreState σ}
      → IsWellFormed p svc.key_id svc.public_key s.db.signing_keys s.db
      → Run p svc s s'
      → (added : List StoredRow) × (s'.db.receipts ≡ added ++ s.db.receipts)
  rows_kept {s} w run =
      let more = (Run-Advances p svc s.db.signing_keys run w).1 in (more.added, more.kept)
