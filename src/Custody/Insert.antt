-- ===== src/Custody/Insert.antt =====
-- `insertReceipt` before a service that keeps a log: a row is written only for a receipt of the log.
use mathlib.Core.List.Memᴰ
use sigillo.Common.{
  ◌≡◌, refl, sym, ap, ◌∙◌, Option, some, List, [], ◌∷◌, ◌++◌, ok, err, Result, >>=-eq-ok,
  guard-eq-ok, ok-injective,
}
use sigillo.Crypto.{Bytes}
use sigillo.Text.{Text}
use sigillo.Platform.{Platform}
use sigillo.Signing.{verify_receipt_signature}
use sigillo.Receipt.{Receipt, UnsignedReceipt}
use sigillo.Receipt.Schema.{valid_receipt}
use sigillo.Store.{ChainEvent, Prepared, Database, StoreError, format_error, storage_error}
use sigillo.Store.Prepare.{Random}
use sigillo.Store.Service.{SigningService, SigningError, StoreState}
use sigillo.Store.Insert.{
  Mode, Proposal, already, fresh, duplicate_of, propose, registered, insert_row, accept, finish,
  with_signature, send, insert_receipt,
}
use sigillo.Store.Chain.{row_of, insert_row-receipts}
use sigillo.Store.Keeps.{registered-Keeps}
use sigillo.Store.Sound.{proposed-fresh}
use sigillo.Custody.{IsCustodian, Signed, Stored, Stored-append, Kept, Keeping}

module _ (p : Platform) (own_id : Text) (own : Bytes) where
  -- What is accepted adds the one row of the receipt.
  accept-receipts :
      (event : ChainEvent) (mode : Mode) (organization_id : Option Text)
      (unsigned : UnsignedReceipt) (prepared : Prepared) (db : Database) (sig : Text)
      {end : Receipt × Database}
      → accept p event mode organization_id own unsigned prepared db sig ≡ ok end
      → end.1.receipts ≡ row_of p (record { unsigned = unsigned; sig = sig }) ∷ db.receipts
  unfolding accept
  accept-receipts event mode organization_id unsigned prepared db sig h =
      let receipt : Receipt = record { unsigned = unsigned; sig = sig } in
      let shaped = guard-eq-ok (valid_receipt p receipt) format_error _ h in
      let signed = guard-eq-ok (verify_receipt_signature p receipt own) storage_error _ shaped.1 in
      let (db', opened, next) = >>=-eq-ok (registered mode event organization_id db) _ signed.1 in
      let (db'', inserted, last) = >>=-eq-ok (insert_row p receipt (some prepared) db') _ next in
      let kept = registered-Keeps mode event organization_id db opened in
      ap (λ (pair : Receipt × Database). pair.1.receipts) (sym (ok-injective last))
      ∙ (insert_row-receipts p own_id own [] receipt (some prepared) db' inserted).0
      ∙ ap (λ rows. row_of p receipt ∷ rows) kept.same_receipts

module _ (p : Platform) {σ : Type 0} {svc : SigningService σ} (c : IsCustodian p svc) where
  finish-Kept :
      (log : List Receipt) (s : StoreState σ) (accepted : Result StoreError (Receipt × Database))
      → c.Logged s.service log
      → Stored log s.db.receipts
      → ((end : Receipt × Database) → accepted ≡ ok end → Stored log end.1.receipts)
      → Kept p c (finish p svc s accepted).1
  finish-Kept log s (err e) logged stored written = record {
    log = log;
    kept = record { logged = logged; stored = stored };
  }
  finish-Kept log s (ok (receipt, db)) logged stored written = record {
    log = log;
    kept = record { logged = logged; stored = written (receipt, db) refl };
  }

  with_signature-Kept :
      (event : ChainEvent) (mode : Mode) (organization_id : Option Text)
      (unsigned : UnsignedReceipt) (prepared : Prepared) (db : Database) (s : StoreState σ)
      (log : List Receipt) (answer : Result SigningError Text × σ)
      → Stored log s.db.receipts
      → db.receipts ≡ s.db.receipts
      → Signed c.Logged log unsigned answer
      → Kept p c (with_signature p svc event mode organization_id unsigned prepared db s answer).1
  with_signature-Kept event mode organization_id unsigned prepared db s log (err e, service) stored
        same (more, logged) =
      record {
        log = more ++ log;
        kept = record { logged = logged; stored = Stored-append more log s.db.receipts stored };
      }
  with_signature-Kept event mode organization_id unsigned prepared db s log (ok sig, service) stored
        same logged =
      let receipt : Receipt = record { unsigned = unsigned; sig = sig } in
      let older = Stored-append (receipt ∷ []) log s.db.receipts stored in
      finish-Kept (receipt ∷ log) (record s { service = service })
        (accept p event mode organization_id svc.public_key unsigned prepared db sig) logged older
        (λ end done.
          rw
            (
              accept-receipts p svc.key_id svc.public_key event mode organization_id unsigned
                  prepared db sig done,
              same,
            )
            (Memᴰ.head refl, older))

  send-Keeping :
      (event : ChainEvent) (mode : Mode) (organization_id : Option Text) (random : Random)
      (s : StoreState σ) (proposal : Result StoreError Proposal)
      → propose p event mode svc.key_id random s.db ≡ proposal
      → Keeping p c s (send p svc event mode organization_id s proposal).1
  unfolding propose
  send-Keeping event mode organization_id random s (err e) h k = k
  send-Keeping event mode organization_id random s (ok (already receipt)) h k = k
  send-Keeping event mode organization_id random s (ok (fresh unsigned prepared db)) h k =
      let found = duplicate_of mode event event.source.trace_id event.source.span_id s.db in
      let kept = (proposed-fresh p event mode svc.key_id random s.db found h).0 in
      with_signature-Kept event mode organization_id unsigned prepared db s k.log
        (svc.sign_receipt unsigned s.service) k.kept.stored kept.same_receipts
        (c.signs unsigned s.service k.log k.kept.logged)

  pub insert_receipt-Keeping :
      (event : ChainEvent) (mode : Mode) (organization_id : Option Text) (random : Random)
      (s : StoreState σ)
      → Keeping p c s (insert_receipt p svc event mode organization_id random s).1
  unfolding insert_receipt
  insert_receipt-Keeping event mode organization_id random s =
      send-Keeping event mode organization_id random s (propose p event mode svc.key_id random s.db)
        refl
