-- ===== src/Store/Resend.antt =====
-- A batch that an exporter sends again: `appendBatch` finds each of its spans on the chain.
use sigillo.Common.{
  ◌≡◌, refl, sym, ap, ◌∙◌, true, Option, none, some, List, [], ◌∷◌, ◌++◌, ok, err, Result,
  Bool-cases, inl, inr, >>=-eq-ok, guard-eq-ok, ok-injective,
}
use sigillo.Crypto.{Bytes}
use sigillo.Text.{Text, text_eq_refl}
use sigillo.Platform.{Platform}
use sigillo.Signing.{verify_receipt_signature}
use sigillo.Receipt.{Receipt, UnsignedReceipt, Source}
use sigillo.Receipt.Schema.{valid_receipt}
use sigillo.Store.{
  ChainEvent, Prepared, StoredRow, Database, StoreError, storage_error, format_error, tip_of,
  find_span, names_span,
}
use sigillo.Store.Prepare.{Random, position_after, build_unsigned, prepare}
use sigillo.Store.Service.{SigningService, SigningError, StoreState}
use sigillo.Store.Insert.{
  Mode, continuation, Proposal, already, fresh, Written, duplicate_of, check_mode, proposed,
  propose, registered, insert_row, accept, finish, with_signature, send, insert_receipt,
}
use sigillo.Store.Chain.{row_of, insert_row-receipts}
use sigillo.Store.Keeps.{registered-Keeps}
use sigillo.Store.Sound.{proposed-fresh}

-- The event names a span.
pub record NamesSpan (event : ChainEvent) : Type 0 where
  pub trace : Text
  pub span : Text
  pub traced : event.source.trace_id ≡ some trace
  pub spanned : event.source.span_id ≡ some span

abbrev pub IsFound : (event : ChainEvent) → NamesSpan event → Database → Type 0
IsFound event n db =
    (row : StoredRow) × (find_span event.system_id n.trace n.span db.receipts ≡ some row)

pub find_span-append :
    (id trace span : Text) (added rows : List StoredRow) {row : StoredRow}
    → find_span id trace span rows ≡ some row
    → (found : StoredRow) × (find_span id trace span (added ++ rows) ≡ some found)
unfolding find_span
find_span-append id trace span [] rows {row} h = (row, h)
find_span-append id trace span (new ∷ added) rows h =
    elim (Bool-cases (names_span id trace span new)) [
      | inl named ↦ (new, rw (find_span, named) refl)
      | inr other ↦
          let (found, there) = find_span-append id trace span added rows h in
          (found, rw (find_span, other) there)
    ]

module _ (p : Platform) where
  proposed-already :
      (event : ChainEvent) (mode : Mode) (key_id : Text) (random : Random) (db : Database)
      (found : Option StoredRow) {receipt : Receipt}
      → proposed p event mode key_id random db found ≡ ok (already receipt)
      → (row : StoredRow) × (found ≡ some row)
  proposed-already event mode key_id random db (some row) h = (row, refl)
  proposed-already event mode key_id random db none h =
      let tip = tip_of event.system_id db in
      let (_, allowed, next) = >>=-eq-ok (check_mode mode tip) _ h in
      let (ready, drawn, next') = >>=-eq-ok (prepare p event true random db) _ next in
      let (unsigned, built, last) =
        >>=-eq-ok (build_unsigned p event (position_after p tip event.ts_received) key_id ready.0) _
          next' in
      let apart = ok-injective last in cc

  accept-receipts :
      (event : ChainEvent) (mode : Mode) (organization_id : Option Text) (own : Bytes)
      (unsigned : UnsignedReceipt) (prepared : Prepared) (db : Database) (sig : Text)
      {end : Receipt × Database}
      → accept p event mode organization_id own unsigned prepared db sig ≡ ok end
      → end.1.receipts ≡ row_of p (record { unsigned = unsigned; sig = sig }) ∷ db.receipts
  unfolding accept
  accept-receipts event mode organization_id own unsigned prepared db sig h =
      let receipt : Receipt = record { unsigned = unsigned; sig = sig } in
      let shaped = guard-eq-ok (valid_receipt p receipt) format_error _ h in
      let signed = guard-eq-ok (verify_receipt_signature p receipt own) storage_error _ shaped.1 in
      let (db', opened, next) = >>=-eq-ok (registered mode event organization_id db) _ signed.1 in
      let (db'', inserted, last) = >>=-eq-ok (insert_row p receipt (some prepared) db') _ next in
      let kept = registered-Keeps mode event organization_id db opened in
      let rows =
        insert_row-receipts p event.system_id own [] receipt (some prepared) db' inserted in
      ap (λ (pair : Receipt × Database). pair.1.receipts) (sym (ok-injective last))
      ∙ rows.0
      ∙ ap (λ found. row_of p receipt ∷ found) kept.same_receipts

  find_span-new :
      (event : ChainEvent) (n : NamesSpan event) (row : StoredRow) (rows : List StoredRow)
      → row.receipt.system_id ≡ event.system_id
      → row.receipt.source ≡ event.source
      → find_span event.system_id n.trace n.span (row ∷ rows) ≡ some row
  unfolding find_span
  find_span-new event n row rows own source =
      let traced : row.receipt.source.trace_id ≡ some n.trace =
        ap (λ (s : Source). s.trace_id) source ∙ n.traced in
      let spanned : row.receipt.source.span_id ≡ some n.span =
        ap (λ (s : Source). s.span_id) source ∙ n.spanned in
      rw
        (
          find_span,
          own,
          traced,
          spanned,
          text_eq_refl event.system_id,
          text_eq_refl n.trace,
          text_eq_refl n.span,
        )
        refl

module _ (p : Platform) {σ : Type 0} (svc : SigningService σ) where
  finish_finds :
      (event : ChainEvent) (n : NamesSpan event) (s : StoreState σ)
      (accepted : Result StoreError (Receipt × Database)) {written : Written}
      → ((end : Receipt × Database) → accepted ≡ ok end → IsFound event n end.1)
      → (finish p svc s accepted).0 ≡ ok written
      → IsFound event n (finish p svc s accepted).1.db
  finish_finds event n s (err e) there h = cc
  finish_finds event n s (ok (receipt, db)) there h = there (receipt, db) refl

  with_signature_finds :
      (event : ChainEvent) (n : NamesSpan event) (organization_id : Option Text)
      (unsigned : UnsignedReceipt) (prepared : Prepared) (db : Database) (s : StoreState σ)
      (answer : Result SigningError Text × σ) {written : Written}
      → unsigned.system_id ≡ event.system_id
      → unsigned.source ≡ event.source
      → (with_signature p svc event continuation organization_id unsigned prepared db s answer).0
        ≡ ok written
      → IsFound event n
          (with_signature p svc event continuation organization_id unsigned prepared db s
            answer).1.db
  with_signature_finds event n organization_id unsigned prepared db s (err e, service) own source
        h =
      cc
  with_signature_finds event n organization_id unsigned prepared db s (ok sig, service) own source
        h =
      finish_finds event n (record s { service = service })
        (accept p event continuation organization_id svc.public_key unsigned prepared db sig)
        (λ end accepted.
          let row = row_of p (record { unsigned = unsigned; sig = sig }) in
          let rows =
            accept-receipts p event continuation organization_id svc.public_key unsigned prepared db
              sig accepted in
          (
            row,
            ap (find_span event.system_id n.trace n.span) rows
                ∙ find_span-new p event n row db.receipts own source,
          ))
        h

  send_finds :
      (event : ChainEvent) (n : NamesSpan event) (organization_id : Option Text) (random : Random)
      (s : StoreState σ) (proposal : Result StoreError Proposal) {written : Written}
      → propose p event continuation svc.key_id random s.db ≡ proposal
      → (send p svc event continuation organization_id s proposal).0 ≡ ok written
      → IsFound event n (send p svc event continuation organization_id s proposal).1.db
  unfolding propose
  send_finds event n organization_id random s (err e) h done = cc
  send_finds event n organization_id random s (ok (already receipt)) h done =
      let found = duplicate_of continuation event event.source.trace_id event.source.span_id s.db in
      let (row, there) = proposed-already p event continuation svc.key_id random s.db found h in
      (row, rw (n.traced, n.spanned) at (there))
  send_finds event n organization_id random s (ok (fresh unsigned prepared db)) h done =
      let found = duplicate_of continuation event event.source.trace_id event.source.span_id s.db in
      let built = (proposed-fresh p event continuation svc.key_id random s.db found h).1 in
      with_signature_finds event n organization_id unsigned prepared db s
        (svc.sign_receipt unsigned s.service) (ap (λ (u : UnsignedReceipt). u.system_id) built)
        (ap (λ (u : UnsignedReceipt). u.source) built) done

  pub insert_receipt_finds :
      (event : ChainEvent) (n : NamesSpan event) (organization_id : Option Text) (random : Random)
      (s : StoreState σ) {written : Written}
      → (insert_receipt p svc event continuation organization_id random s).0 ≡ ok written
      → IsFound event n (insert_receipt p svc event continuation organization_id random s).1.db
  unfolding insert_receipt
  insert_receipt_finds event n organization_id random s h =
      send_finds event n organization_id random s
        (propose p event continuation svc.key_id random s.db) refl h

  -- A span that is on the chain is not written again, and the store stays as it is.
  pub insert_receipt-IsFound :
      (event : ChainEvent) (n : NamesSpan event) (organization_id : Option Text) (random : Random)
      (s : StoreState σ)
      → IsFound event n s.db
      → (written : Written) × (insert_receipt p svc event continuation organization_id random s
          ≡ (ok written, s))
        × (written.duplicate ≡ true)
  unfolding insert_receipt propose
  insert_receipt-IsFound event n organization_id random s (row, there) =
      let written : Written = record { receipt = row.receipt; duplicate = true } in
      (written, rw (insert_receipt, propose, n.traced, n.spanned, there) refl, refl)
