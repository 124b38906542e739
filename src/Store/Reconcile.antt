-- ===== src/Store/Reconcile.antt =====
-- store.ts, `reconcileNow`: the calls of the signer, and what is written once its answers are judged.
use sigillo.Common.{
  ℕ, zero, suc, ◌+◌, ◌-◌, Bool, false, Option, none, some, List, [], ◌∷◌, ◌++◌, length, ltb, ◌==◌,
  if◌then◌else◌, Result, ok, err, ◌>>=◌,
}
use sigillo.Text.{Text, text_eq}
use sigillo.Platform.{Platform}
use sigillo.Receipt.{Receipt}
use sigillo.Store.{Database, StoreError, tip_of, log_admin, signer_recovered, signer_divergence}
use sigillo.Store.Insert.{hash_hex, insert_row, register_system, signing_error}
use sigillo.Store.Service.{SigningService, SigningError, StoreState}
use sigillo.Store.Judge.{Verdict, nothing, apart, take_back, next_seq, judge}

pub data ReconcileOutcome : Type 0 where
  in_sync : ReconcileOutcome
  recovered : (seq : ℕ) (hash : Text) (count : ℕ) → ReconcileOutcome
  diverged : (detail : Text) → ReconcileOutcome

abbrev pub recovery_page : ℕ
recovery_page = 50

unfoldable pub divergence_of : Text → List (Text × Text) → Option Text
divergence_of id [] = none
divergence_of id ((other, detail) ∷ divergences) =
    if text_eq other id then some detail else divergence_of id divergences

unfoldable pub forget_divergence : Text → List (Text × Text) → List (Text × Text)
forget_divergence id [] = []
forget_divergence id ((other, detail) ∷ divergences) =
    if text_eq other id
    then forget_divergence id divergences
    else (other, detail) ∷ forget_divergence id divergences

abbrev pub is_detail : Option Text → Text → Bool
is_detail none detail = false
is_detail (some other) detail = text_eq other detail

unfoldable pub record_divergence : {σ : Type 0} → Text → Text → Text → StoreState σ → StoreState σ
record_divergence now id detail s =
    if is_detail (divergence_of id s.divergences) detail then s else record s {
      divergences = (id, detail) ∷ forget_divergence id s.divergences;
      db = log_admin now signer_divergence id s.db;
    }

module _ (p : Platform) where
  module _ {σ : Type 0} (svc : SigningService σ) where
    -- The pages of the signer's journal, until `wanted` receipts are there, a page is empty, or a call
    -- fails. Each page that is not the last adds a receipt, so `wanted` rounds are enough.
    unfoldable pub read_pages : ℕ → Text → ℕ → ℕ → List Receipt → σ → Option (List Receipt) × σ
    read_pages zero id first wanted journal s = (some journal, s)
    read_pages (suc rounds) id first wanted journal s =
        if ltb (length journal) wanted
        then (let (page, s') = svc.receipts id (first + length journal) recovery_page s in
            elim page [
              | err _ ↦ (none, s')
              | ok receipts ↦ elim receipts [
                | [] ↦ (some journal, s')
                | r ∷ more ↦ read_pages rounds id first wanted (journal ++ r ∷ more) s'
              ]
            ])
        else (some journal, s)

    abbrev pub fetch_journal : Text → Option Receipt → ℕ → σ → Option (List Receipt) × σ
    fetch_journal id none first s = (none, s)
    fetch_journal id (some head) first s =
        if ltb first head.seq
        then read_pages (head.seq + 1 - first) id first (head.seq + 1 - first) [] s
        else (none, s)

  -- The rows of the receipts taken back, each with its entry in the log.
  unfoldable pub restore : Text → Text → List Receipt → Database → Result StoreError Database
  restore now id [] db = ok db
  restore now id (r ∷ receipts) db = do
    db' ← if r.seq == 0 then register_system id r.ts_received none db else ok db
    db'' ← insert_row p r none db'
    restore now id receipts (log_admin now signer_recovered id db'')

  abbrev pub restored :
      {σ : Type 0}
      → Text
      → Receipt
      → ℕ
      → StoreState σ
      → Result StoreError Database
      → Result StoreError ReconcileOutcome × StoreState σ
  restored id head count s (err e) = (err e, s)
  restored id head count s (ok db) = (
    ok (recovered head.seq (hash_hex p head) count),
    record s { db = db; divergences = forget_divergence id s.divergences },
  )

  unfoldable pub carry_out :
      {σ : Type 0}
      → Text
      → Text
      → Option Receipt
      → Verdict
      → StoreState σ
      → Result StoreError ReconcileOutcome × StoreState σ
  carry_out now id head nothing s = (ok in_sync, s)
  carry_out now id head (apart detail) s = (ok (diverged detail), record_divergence now id detail s)
  carry_out now id none (take_back receipts) s = (ok in_sync, s)
  carry_out now id (some head) (take_back receipts) s =
      restored id head (length receipts) s (restore now id receipts s.db)

  module _ {σ : Type 0} (svc : SigningService σ) where
    abbrev pub compared :
        Text
        → Text
        → Option Receipt
        → StoreState σ
        → Option (List Receipt) × σ
        → Result StoreError ReconcileOutcome × StoreState σ
    compared now id head s (journal, service) =
        carry_out now id head
          (judge p svc id head (tip_of id s.db) (next_seq (tip_of id s.db)) journal s.db)
          (record s { service = service })

    abbrev pub with_head :
        Text
        → Text
        → StoreState σ
        → Result SigningError (Option Receipt) × σ
        → Result StoreError ReconcileOutcome × StoreState σ
    with_head now id s (err e, service) = (err (signing_error e), record s { service = service })
    with_head now id s (ok head, service) =
        compared now id head (record s { service = service })
          (fetch_journal svc id head (next_seq (tip_of id s.db)) service)

    unfoldable pub reconcile_now :
        Text → Text → StoreState σ → Result StoreError ReconcileOutcome × StoreState σ
    reconcile_now now id s = with_head now id s (svc.head id s.service)
