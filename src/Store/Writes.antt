-- ===== src/Store/Writes.antt =====
-- The public operations of store.ts that write receipts or checkpoints, one after another: the runs of
-- a store, from the transactions they are made of.
use sigillo.Common.{
  ◌≡◌, refl, not, ◌||◌, Option, none, List, [], ◌∷◌, ok, err, Result, Bool-cases, inl, inr,
}
use sigillo.Text.{Text}
use sigillo.Platform.{Platform}
use sigillo.Signer.{is_genesis, sequence, malformed, version, invalid, clock, unknown_system}
use sigillo.Store.{
  ChainEvent, Database, StoreError, storage_error, format_error, constraint_error, unavailable,
  refused_by_signer, core_error, is_deleted,
}
use sigillo.Store.Prepare.{Random, check_event}
use sigillo.Store.Service.{SigningService, StoreState}
use sigillo.Store.Insert.{Mode, genesis_mode, continuation, Written, insert_receipt}
use sigillo.Store.Reconcile.{ReconcileOutcome, in_sync, recovered, diverged, reconcile_now}
use sigillo.Store.Append.{
  Attempts, is_reserved, organization_exists, genesis_event, Batch, checked_then,
  after_reconciliation, after_first, write_receipt, create_system, append, batch_from, then_count,
  write_batch, any_refused, check_events, append_batch,
}
use sigillo.Store.CheckPoint.{agreed, after_agreement, write_checkpoint}

-- What holds from one state of the store to another: between the states around an operation, when it
-- holds around the transactions that the operation is made of.
pub record Rule (p : Platform) {σ : Type 0} (svc : SigningService σ) : Type 1 where
  pub Holds : StoreState σ → StoreState σ → Type 0
  pub still : (s : StoreState σ) → Holds s s
  pub joined : (a b c : StoreState σ) → Holds a b → Holds b c → Holds a c
  pub inserted :
      (event : ChainEvent) (mode : Mode) (organization_id : Option Text) (random : Random)
      (s : StoreState σ)
      → Holds s (insert_receipt p svc event mode organization_id random s).1
  pub reconciled : (now id : Text) (s : StoreState σ) → Holds s (reconcile_now p svc now id s).1
  pub agrees : (now id : Text) (s : StoreState σ) → Holds s (agreed p svc now id s).1

module _ (p : Platform) {σ : Type 0} (svc : SigningService σ) (rule : Rule p svc) where
  after_reconciliation-Rule :
      (event : ChainEvent) (mode : Mode) (organization_id : Option Text) (random : Random)
      (outcome : Result StoreError ReconcileOutcome × StoreState σ)
      → rule.Holds outcome.1
          (after_reconciliation p svc event mode organization_id random outcome).1
  after_reconciliation-Rule event mode organization_id random (err e, s) = rule.still s
  after_reconciliation-Rule event mode organization_id random (ok (recovered seq hash count), s) =
      rule.inserted event mode organization_id random s
  after_reconciliation-Rule event mode organization_id random (ok in_sync, s) = rule.still s
  after_reconciliation-Rule event mode organization_id random (ok (diverged detail), s) =
      rule.still s

  after_first-Rule :
      (event : ChainEvent) (mode : Mode) (organization_id : Option Text) (attempts : Attempts)
      (outcome : Result StoreError Written × StoreState σ)
      → rule.Holds outcome.1 (after_first p svc event mode organization_id attempts outcome).1
  after_first-Rule event mode organization_id attempts (err (refused_by_signer sequence), s) =
      let outcome = reconcile_now p svc attempts.now event.system_id s in
      rule.joined s outcome.1
        (after_reconciliation p svc event mode organization_id attempts.second outcome).1
        (rule.reconciled attempts.now event.system_id s)
        (after_reconciliation-Rule event mode organization_id attempts.second outcome)
  after_first-Rule event mode organization_id attempts (err (refused_by_signer malformed), s) =
      rule.still s
  after_first-Rule event mode organization_id attempts (err (refused_by_signer version), s) =
      rule.still s
  after_first-Rule event mode organization_id attempts (err (refused_by_signer invalid), s) =
      rule.still s
  after_first-Rule event mode organization_id attempts (err (refused_by_signer clock), s) =
      rule.still s
  after_first-Rule event mode organization_id attempts (err (refused_by_signer unknown_system), s) =
      rule.still s
  after_first-Rule event mode organization_id attempts (err storage_error, s) = rule.still s
  after_first-Rule event mode organization_id attempts (err format_error, s) = rule.still s
  after_first-Rule event mode organization_id attempts (err constraint_error, s) = rule.still s
  after_first-Rule event mode organization_id attempts (err unavailable, s) = rule.still s
  after_first-Rule event mode organization_id attempts (err (core_error e), s) = rule.still s
  after_first-Rule event mode organization_id attempts (ok written, s) = rule.still s

  pub write_receipt-Rule :
      (event : ChainEvent) (mode : Mode) (organization_id : Option Text) (attempts : Attempts)
      (s : StoreState σ)
      → rule.Holds s (write_receipt p svc event mode organization_id attempts s).1
  unfolding write_receipt
  write_receipt-Rule event mode organization_id attempts s =
      let outcome = insert_receipt p svc event mode organization_id attempts.first s in
      rule.joined s outcome.1 (after_first p svc event mode organization_id attempts outcome).1
        (rule.inserted event mode organization_id attempts.first s)
        (after_first-Rule event mode organization_id attempts outcome)

  pub create_system-Rule :
      (id ts : Text) (organization_id : Option Text) (attempts : Attempts) (s : StoreState σ)
      → rule.Holds s (create_system p svc id ts organization_id attempts s).1
  unfolding create_system
  create_system-Rule id ts organization_id attempts s =
      elim (Bool-cases (not (organization_exists organization_id s.db))) [
        | inl unknown ↦ rw unknown (rule.still s)
        | inr exists ↦ elim (Bool-cases (is_deleted id s.db.admin_log)) [
          | inl deleted ↦ rw (exists, deleted) (rule.still s)
          | inr free ↦
              rw (exists, free)
                (write_receipt-Rule (genesis_event id ts) genesis_mode organization_id attempts s)
        ]
      ]

  checked_then-Rule :
      {A : Type 0} (check : Result StoreError (Unit {0}))
      (next : Result StoreError A × StoreState σ) (s : StoreState σ)
      → rule.Holds s next.1
      → rule.Holds s (checked_then check next s).1
  checked_then-Rule (err e) next s step = rule.still s
  checked_then-Rule (ok _) next s step = step

  pub append-Rule :
      (event : ChainEvent) (check : Random) (checked : Database) (attempts : Attempts)
      (s : StoreState σ)
      → rule.Holds s (append p svc event check checked attempts s).1
  unfolding append
  append-Rule event check checked attempts s =
      elim (Bool-cases (is_genesis event.action.kind || is_reserved event)) [
        | inl reserved ↦ rw reserved (rule.still s)
        | inr free ↦ rw free (
            checked_then-Rule (check_event p event svc.key_id check checked)
              (write_receipt p svc event continuation none attempts s) s
              (write_receipt-Rule event continuation none attempts s))
      ]

  pub then_count-state :
      (written : Written) (rest : Result StoreError Batch × StoreState σ)
      → (then_count p svc written rest).1 ≡ rest.1
  then_count-state written (err e, s) = refl
  then_count-state written (ok batch, s) = refl

  batch_from-Rule :
      (before : StoreState σ) (outcome : Result StoreError Written × StoreState σ)
      (rest : Result StoreError Batch × StoreState σ)
      → rule.Holds before outcome.1
      → rule.Holds outcome.1 rest.1
      → rule.Holds before (batch_from p svc outcome.0 outcome.1 rest).1
  batch_from-Rule before (err e, s) rest first more = first
  batch_from-Rule before (ok written, s) rest first more =
      rw (then_count-state written rest) (rule.joined before s rest.1 first more)

  pub write_batch-Rule :
      (events : List (ChainEvent × Attempts)) (s : StoreState σ)
      → rule.Holds s (write_batch p svc events s).1
  unfolding write_batch
  write_batch-Rule [] s = rule.still s
  write_batch-Rule ((event, attempts) ∷ events) s =
      let outcome = write_receipt p svc event continuation none attempts s in
      batch_from-Rule s outcome (write_batch p svc events outcome.1)
        (write_receipt-Rule event continuation none attempts s) (write_batch-Rule events outcome.1)

  pub append_batch-Rule :
      (events : List (ChainEvent × Attempts)) (check : Random) (checked : Database)
      (s : StoreState σ)
      → rule.Holds s (append_batch p svc events check checked s).1
  unfolding append_batch
  append_batch-Rule events check checked s = elim (Bool-cases (any_refused p svc events)) [
    | inl refused ↦ rw refused (rule.still s)
    | inr free ↦ rw free (
        checked_then-Rule (check_events p svc events check checked) (write_batch p svc events s) s
          (write_batch-Rule events s))
  ]

  after_agreement-Rule :
      (now id : Text) (outcome : Result StoreError ReconcileOutcome × StoreState σ)
      → rule.Holds outcome.1 (after_agreement p svc now id outcome).1
  after_agreement-Rule now id (err e, s) = rule.still s
  after_agreement-Rule now id (ok (diverged detail), s) = rule.still s
  after_agreement-Rule now id (ok in_sync, s) = rule.agrees now id s
  after_agreement-Rule now id (ok (recovered seq hash count), s) = rule.agrees now id s

  pub write_checkpoint-Rule :
      (now id : Text) (s : StoreState σ) → rule.Holds s (write_checkpoint p svc now id s).1
  unfolding write_checkpoint
  write_checkpoint-Rule now id s =
      let outcome = reconcile_now p svc now id s in
      rule.joined s outcome.1 (after_agreement p svc now id outcome).1 (rule.reconciled now id s)
        (after_agreement-Rule now id outcome)
