-- ===== src/Store/Append.antt =====
-- store.ts: `writeReceipt` and the public operations that write receipts. Each call of
-- `insert_receipt` is one transaction; the random bytes of each attempt are drawn by the caller.
use sigillo.Common.{
  ℕ, ◌+◌, Bool, true, false, not, ◌||◌, Option, none, some, List, [], ◌∷◌, length, take,
  if◌then◌else◌, Result, ok, err, ◌>>=◌,
}
use sigillo.Text.{Text, codes, text_eq}
use sigillo.Platform.{Platform}
use sigillo.Receipt.{Receipt, genesis, Outcome, api}
use sigillo.Signer.{sequence, is_genesis}
use sigillo.Store.{ChainEvent, Database, StoreError, storage_error, refused_by_signer, is_deleted}
use sigillo.Store.Prepare.{Random, check_event}
use sigillo.Store.Service.{SigningService, StoreState}
use sigillo.Store.Insert.{Mode, genesis_mode, continuation, Written, insert_receipt}
use sigillo.Store.Reconcile.{ReconcileOutcome, in_sync, recovered, diverged, reconcile_now}

-- Two attempts, and the instant a reconciliation between them is logged with.
pub record Attempts : Type 0 where
  pub first : Random
  pub second : Random
  pub now : Text

abbrev pub connection_prefix : Text
connection_prefix = codes "sigillo.connection."

-- `refuseReservedName`, as whether it refuses.
abbrev pub is_reserved : ChainEvent → Bool
is_reserved event = text_eq (take (length connection_prefix) event.action.name) connection_prefix

-- An `Organization` is the identifier in its table.
unfoldable pub has_organization : Text → List Text → Bool
has_organization id [] = false
has_organization id (other ∷ others) = if text_eq other id then true else has_organization id others

abbrev pub organization_exists : Option Text → Database → Bool
organization_exists none db = true
organization_exists (some id) db = has_organization id db.organizations

abbrev pub genesis_event : Text → Text → ChainEvent
genesis_event id ts = record {
  system_id = id;
  ts_event = ts;
  ts_received = ts;
  actor = record { agent = id; on_behalf_of = none };
  action = record { kind = genesis; name = id };
  input_hash = none;
  output_hash = none;
  raw_input = none;
  raw_output = none;
  input_nonce = none;
  output_nonce = none;
  outcome = Outcome.ok;
  source = record { type = api; trace_id = none; span_id = none };
  artifacts = none;
  model = none;
}

pub record Batch : Type 0 where
  pub receipts : List Receipt
  pub duplicates : ℕ

abbrev pub count_in : Written → Batch → Batch
count_in written batch = record {
  receipts = written.receipt ∷ batch.receipts;
  duplicates = if written.duplicate then batch.duplicates + 1 else batch.duplicates;
}

-- An event that fails its check leaves the store as it was.
abbrev pub checked_then :
    {σ : Type 0} {A : Type 0}
    → Result StoreError (Unit {0})
    → Result StoreError A × StoreState σ
    → StoreState σ
    → Result StoreError A × StoreState σ
checked_then (err e) next s = (err e, s)
checked_then (ok _) next s = next

module _ (p : Platform) {σ : Type 0} (svc : SigningService σ) where
  -- The refusal of a position stands, unless the reconciliation took the missing receipts back.
  abbrev pub after_reconciliation :
      ChainEvent
      → Mode
      → Option Text
      → Random
      → Result StoreError ReconcileOutcome × StoreState σ
      → Result StoreError Written × StoreState σ
  after_reconciliation event mode organization_id random (err e, s) = (err e, s)
  after_reconciliation event mode organization_id random (ok (recovered _ _ _), s) =
      insert_receipt p svc event mode organization_id random s
  after_reconciliation event mode organization_id random (ok in_sync, s) =
      (err (refused_by_signer sequence), s)
  after_reconciliation event mode organization_id random (ok (diverged _), s) =
      (err (refused_by_signer sequence), s)

  abbrev pub after_first :
      ChainEvent
      → Mode
      → Option Text
      → Attempts
      → Result StoreError Written × StoreState σ
      → Result StoreError Written × StoreState σ
  after_first event mode organization_id attempts (err (refused_by_signer sequence), s) =
      after_reconciliation event mode organization_id attempts.second
        (reconcile_now p svc attempts.now event.system_id s)
  after_first event mode organization_id attempts (outcome, s) = (outcome, s)

  unfoldable pub write_receipt :
      ChainEvent
      → Mode
      → Option Text
      → Attempts
      → StoreState σ
      → Result StoreError Written × StoreState σ
  write_receipt event mode organization_id attempts s =
      after_first event mode organization_id attempts
        (insert_receipt p svc event mode organization_id attempts.first s)

  unfoldable pub create_system :
      Text → Text → Option Text → Attempts → StoreState σ → Result StoreError Written × StoreState σ
  create_system id ts organization_id attempts s =
      if not (organization_exists organization_id s.db)
      then (err storage_error, s)
      else if is_deleted id s.db.admin_log
      then (err storage_error, s)
      else write_receipt (genesis_event id ts) genesis_mode organization_id attempts s

  -- `checked` is the state of the database when the event was checked, before it was queued.
  unfoldable pub append :
      ChainEvent
      → Random
      → Database
      → Attempts
      → StoreState σ
      → Result StoreError Written × StoreState σ
  append event check checked attempts s =
      if is_genesis event.action.kind || is_reserved event
      then (err storage_error, s)
      else checked_then (check_event p event svc.key_id check checked)
          (write_receipt event continuation none attempts s) s

  abbrev pub then_count :
      Written → Result StoreError Batch × StoreState σ → Result StoreError Batch × StoreState σ
  then_count written (err e, s) = (err e, s)
  then_count written (ok batch, s) = (ok (count_in written batch), s)

  abbrev pub batch_from :
      Result StoreError Written
      → StoreState σ
      → Result StoreError Batch × StoreState σ
      → Result StoreError Batch × StoreState σ
  batch_from (err e) s rest = (err e, s)
  batch_from (ok written) s rest = then_count written rest

  -- The loop of `appendBatch`: a failure leaves what the earlier events wrote.
  unfoldable pub write_batch :
      List (ChainEvent × Attempts) → StoreState σ → Result StoreError Batch × StoreState σ
  write_batch [] s = (ok (record { receipts = []; duplicates = 0 }), s)
  write_batch ((event, attempts) ∷ events) s =
      let (outcome, s') = write_receipt event continuation none attempts s in
      let rest = write_batch events s' in batch_from outcome s' rest

  unfoldable pub any_refused : List (ChainEvent × Attempts) → Bool
  any_refused [] = false
  any_refused ((event, _) ∷ events) =
      is_genesis event.action.kind || is_reserved event || any_refused events

  unfoldable pub check_events :
      List (ChainEvent × Attempts) → Random → Database → Result StoreError (Unit {0})
  check_events [] random db = ok tt
  check_events ((event, _) ∷ events) random db = do
    _ ← check_event p event svc.key_id random db
    check_events events random db

  unfoldable pub append_batch :
      List (ChainEvent × Attempts)
      → Random
      → Database
      → StoreState σ
      → Result StoreError Batch × StoreState σ
  append_batch events check checked s =
      if any_refused events
      then (err storage_error, s)
      else checked_then (check_events events check checked) (write_batch events s) s
