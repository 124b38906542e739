-- ===== src/Store/Again.antt =====
-- The loop of `appendBatch` over a batch sent twice.
use mathlib.Core.Path.{subst}
use sigillo.Common.{
  ◌≡◌, refl, sym, true, Option, none, List, [], ◌∷◌, length, map, ok, err, Result, arith,
}
use sigillo.Text.{Text}
use sigillo.Platform.{Platform}
use sigillo.Signer.{sequence, malformed, version, invalid, clock, unknown_system}
use sigillo.Store.{
  ChainEvent, KeyRow, Database, StoreError, storage_error, format_error, constraint_error,
  unavailable, refused_by_signer, core_error,
}
use sigillo.Store.Prepare.{Random}
use sigillo.Store.Service.{SigningService, StoreState}
use sigillo.Store.Insert.{continuation, Written, insert_receipt}
use sigillo.Store.Reconcile.{ReconcileOutcome, in_sync, recovered, diverged, reconcile_now}
use sigillo.Store.Append.{
  Attempts, Batch, count_in, after_reconciliation, after_first, write_receipt, batch_from,
  write_batch,
}
use sigillo.Store.Chain.{IsWellFormed, Extends}
use sigillo.Store.Writes.{write_receipt-Rule, write_batch-Rule}
use sigillo.Store.Runs.{advances_rule}
use sigillo.Store.Resend.{
  NamesSpan, IsFound, find_span-append, insert_receipt_finds, insert_receipt-IsFound,
}

abbrev event_of : ChainEvent × Attempts → ChainEvent
event_of (event, attempts) = event

abbrev pub events_of : List (ChainEvent × Attempts) → List ChainEvent
events_of events = map event_of events

abbrev pub AllNamed : List ChainEvent → Type 0
AllNamed [] = Unit
AllNamed (event ∷ events) = NamesSpan event × AllNamed events

abbrev AllFound : (events : List ChainEvent) → AllNamed events → Database → Type 0
AllFound [] n db = Unit
AllFound (event ∷ events) n db = IsFound event n.0 db × AllFound events n.1 db

IsFound-Extends :
    (event : ChainEvent) (n : NamesSpan event) (before after : Database)
    → Extends before after
    → IsFound event n before
    → IsFound event n after
IsFound-Extends event n before after e (row, there) =
    let (found, again) =
      find_span-append event.system_id n.trace n.span e.added before.receipts there in
    (found, rw e.kept again)

module _ (p : Platform) {σ : Type 0} (svc : SigningService σ) where
  after_reconciliation_finds :
      (event : ChainEvent) (n : NamesSpan event) (organization_id : Option Text) (random : Random)
      (outcome : Result StoreError ReconcileOutcome × StoreState σ) {written : Written}
      → (after_reconciliation p svc event continuation organization_id random outcome).0
        ≡ ok written
      → IsFound event n
          (after_reconciliation p svc event continuation organization_id random outcome).1.db
  after_reconciliation_finds event n organization_id random (err e, s) h = cc
  after_reconciliation_finds event n organization_id random (ok (recovered seq hash count), s) h =
      insert_receipt_finds p svc event n organization_id random s h
  after_reconciliation_finds event n organization_id random (ok in_sync, s) h = cc
  after_reconciliation_finds event n organization_id random (ok (diverged detail), s) h = cc

  after_first_finds :
      (event : ChainEvent) (n : NamesSpan event) (organization_id : Option Text)
      (attempts : Attempts) (outcome : Result StoreError Written × StoreState σ) {written : Written}
      → ((value : Written) → outcome.0 ≡ ok value → IsFound event n outcome.1.db)
      → (after_first p svc event continuation organization_id attempts outcome).0 ≡ ok written
      → IsFound event n (after_first p svc event continuation organization_id attempts outcome).1.db
  after_first_finds event n organization_id attempts (err (refused_by_signer sequence), s) first h =
      after_reconciliation_finds event n organization_id attempts.second
        (reconcile_now p svc attempts.now event.system_id s) h
  after_first_finds event n organization_id attempts (err (refused_by_signer malformed), s) first
        h =
      cc
  after_first_finds event n organization_id attempts (err (refused_by_signer version), s) first h =
      cc
  after_first_finds event n organization_id attempts (err (refused_by_signer invalid), s) first h =
      cc
  after_first_finds event n organization_id attempts (err (refused_by_signer clock), s) first h = cc
  after_first_finds event n organization_id attempts (err (refused_by_signer unknown_system), s)
        first h =
      cc
  after_first_finds event n organization_id attempts (err storage_error, s) first h = cc
  after_first_finds event n organization_id attempts (err format_error, s) first h = cc
  after_first_finds event n organization_id attempts (err constraint_error, s) first h = cc
  after_first_finds event n organization_id attempts (err unavailable, s) first h = cc
  after_first_finds event n organization_id attempts (err (core_error e), s) first h = cc
  after_first_finds event n organization_id attempts (ok written, s) first h = first written refl

  write_receipt_finds :
      (event : ChainEvent) (n : NamesSpan event) (organization_id : Option Text)
      (attempts : Attempts) (s : StoreState σ) {written : Written}
      → (write_receipt p svc event continuation organization_id attempts s).0 ≡ ok written
      → IsFound event n (write_receipt p svc event continuation organization_id attempts s).1.db
  unfolding write_receipt
  write_receipt_finds event n organization_id attempts s h =
      after_first_finds event n organization_id attempts
        (insert_receipt p svc event continuation organization_id attempts.first s)
        (λ value done. insert_receipt_finds p svc event n organization_id attempts.first s done) h

  batch_from_finds :
      (event : ChainEvent) (n : NamesSpan event) (events : List ChainEvent) (ns : AllNamed events)
      (outcome : Result StoreError Written × StoreState σ)
      (rest : Result StoreError Batch × StoreState σ) {batch : Batch}
      → ((value : Written) → outcome.0 ≡ ok value → IsFound event n outcome.1.db)
      → Extends outcome.1.db rest.1.db
      → ((value : Batch) → rest.0 ≡ ok value → AllFound events ns rest.1.db)
      → (batch_from p svc outcome.0 outcome.1 rest).0 ≡ ok batch
      → AllFound (event ∷ events) (n, ns) (batch_from p svc outcome.0 outcome.1 rest).1.db
  batch_from_finds event n events ns (err e, s) rest first more others h = cc
  batch_from_finds event n events ns (ok written, s) (err e, s') first more others h = cc
  batch_from_finds event n events ns (ok written, s) (ok value, s') first more others h =
      (IsFound-Extends event n s.db s'.db more (first written refl), others value refl)

  write_batch_finds :
      (keys : List KeyRow) (events : List (ChainEvent × Attempts))
      (ns : AllNamed (events_of events)) (s : StoreState σ) {batch : Batch}
      → IsWellFormed p svc.key_id svc.public_key keys s.db
      → (write_batch p svc events s).0 ≡ ok batch
      → AllFound (events_of events) ns (write_batch p svc events s).1.db
  unfolding write_batch advances_rule
  write_batch_finds keys [] ns s w h = tt
  write_batch_finds keys ((event, attempts) ∷ events) (n, ns) s w h =
      let outcome = write_receipt p svc event continuation none attempts s in
      let moved =
        write_receipt-Rule p svc (advances_rule p svc keys) event continuation none attempts s w in
      let rest = write_batch p svc events outcome.1 in
      batch_from_finds event n (events_of events) ns outcome rest
        (λ value done. write_receipt_finds event n none attempts s done)
        (write_batch-Rule p svc (advances_rule p svc keys) events outcome.1 moved.0).1
        (λ value done. write_batch_finds keys events ns outcome.1 moved.0 done) h

  write_receipt-IsFound :
      (event : ChainEvent) (n : NamesSpan event) (attempts : Attempts) (s : StoreState σ)
      → IsFound event n s.db
      → (written : Written) × (write_receipt p svc event continuation none attempts s
          ≡ (ok written, s))
        × (written.duplicate ≡ true)
  unfolding write_receipt
  write_receipt-IsFound event n attempts s there =
      let (written, done, duplicate) =
        insert_receipt-IsFound p svc event n none attempts.first s there in
      (written, rw (write_receipt, done) refl, duplicate)

  write_batch-AllFound :
      (again : List (ChainEvent × Attempts)) (ns : AllNamed (events_of again)) (s : StoreState σ)
      → AllFound (events_of again) ns s.db
      → (batch : Batch) × (write_batch p svc again s ≡ (ok batch, s))
        × (batch.duplicates ≡ length again)
  unfolding write_batch
  write_batch-AllFound [] ns s there = (record { receipts = []; duplicates = 0 }, refl, refl)
  write_batch-AllFound ((event, attempts) ∷ again) (n, ns) s there =
      let (written, done, duplicate) = write_receipt-IsFound event n attempts s there.0 in
      let (batch, rest, count) = write_batch-AllFound again ns s there.1 in
      (
        count_in written batch,
        rw (write_batch, done, rest) refl,
        rw duplicate (omega (arith, count)),
      )

  -- Where a store's rows are chains and the loop of `appendBatch` wrote a batch whose events all name a
  -- span, the same events sent again, with whatever randomness, are all found: the loop ends, counts
  -- each of them as a duplicate, and leaves the database, the record of divergences and the signing
  -- service as they were.
  pub resent_batch :
      (keys : List KeyRow) (events again : List (ChainEvent × Attempts)) (s : StoreState σ)
      {batch : Batch}
      → IsWellFormed p svc.key_id svc.public_key keys s.db
      → AllNamed (events_of events)
      → (write_batch p svc events s).0 ≡ ok batch
      → events_of again ≡ events_of events
      → (resent : Batch) × (write_batch p svc again (write_batch p svc events s).1
          ≡ (ok resent, (write_batch p svc events s).1))
        × (resent.duplicates ≡ length again)
  resent_batch keys events again s w ns h same =
      let found = write_batch_finds keys events ns s w h in
      let end = (write_batch p svc events s).1 in
      let (ns', there) : (ns' : AllNamed (events_of again)) × AllFound (events_of again) ns'
            end.db =
        subst (λ found_events. (ns' : AllNamed found_events) × AllFound found_events ns' end.db)
          (sym same) (ns, found) in
      write_batch-AllFound again ns' end there
