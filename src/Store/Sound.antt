-- ===== src/Store/Sound.antt =====
-- `insertReceipt` against the chains of the database, whatever the signing service answers.
use sigillo.Common.{
  ◌≡◌, refl, sym, ap, ◌∙◌, true, Option, none, some, List, [], ok, err, Result, >>=-eq-ok,
  guard-eq-ok, ok-injective,
}
use sigillo.Crypto.{Bytes}
use sigillo.Text.{Text}
use sigillo.Platform.{Platform}
use sigillo.Signing.{verify_receipt_signature}
use sigillo.Receipt.{Receipt, UnsignedReceipt}
use sigillo.Receipt.Schema.{valid_receipt}
use sigillo.Store.{
  ChainEvent, Prepared, StoredRow, KeyRow, public_key_for, Database, StoreError, format_error,
  storage_error, tip_of,
}
use sigillo.Store.Prepare.{Random, position_after, build_unsigned, unsigned_of, prepare}
use sigillo.Store.Service.{SigningService, SigningError, StoreState}
use sigillo.Store.Insert.{
  Mode, Proposal, already, fresh, duplicate_of, check_mode, proposed, propose, registered,
  insert_row, accept, finish, with_signature, send, insert_receipt,
}
use sigillo.Store.Judge.{next_seq, next_prev, signed_under}
use sigillo.Store.Chain.{
  Extends, Extends-refl, Extends-trans, IsWellFormed, IsNext, insert_row-IsWellFormed,
}
use sigillo.Store.Keeps.{
  Keeps, tip_of-Keeps, registered-Keeps, prepare-Keeps, build_unsigned-eq, position_after-seq,
  position_after-prev,
}

module _ (p : Platform) where
  pub fresh-injective :
      {u u' : UnsignedReceipt} {prepared prepared' : Prepared} {db db' : Database}
      → fresh u prepared db ≡ fresh u' prepared' db'
      → (u ≡ u') × (prepared ≡ prepared') × (db ≡ db')
  fresh-injective h = (cc, cc, cc)

  pub proposed-fresh :
      (event : ChainEvent) (mode : Mode) (key_id : Text) (random : Random) (db : Database)
      (found : Option StoredRow) {unsigned : UnsignedReceipt} {prepared : Prepared} {end : Database}
      → proposed p event mode key_id random db found ≡ ok (fresh unsigned prepared end)
      → Keeps db end
        × (unsigned
            ≡ unsigned_of event
                (position_after p (tip_of event.system_id db) event.ts_received)
                key_id
                prepared)
  proposed-fresh event mode key_id random db (some row) h = cc
  proposed-fresh event mode key_id random db none h =
      let tip = tip_of event.system_id db in
      let (_, allowed, next) = >>=-eq-ok (check_mode mode tip) _ h in
      let (ready, drawn, next') = >>=-eq-ok (prepare p event true random db) _ next in
      let (unsigned, built, last) =
        >>=-eq-ok (build_unsigned p event (position_after p tip event.ts_received) key_id ready.0) _
          next' in
      let same = fresh-injective (ok-injective last) in
      let position =
        build_unsigned-eq p event (position_after p tip event.ts_received) key_id ready.0 built in
      (
        rw (← same.2) (prepare-Keeps p event true random db drawn),
        sym same.0
            ∙ sym position
            ∙ ap (unsigned_of event (position_after p tip event.ts_received) key_id) same.1,
      )

module _ (p : Platform) (own_id : Text) (own : Bytes) (keys : List KeyRow) where
  -- A step that keeps every chain and only adds rows.
  abbrev pub Advances : Database → Database → Type 0
  Advances before after =
      IsWellFormed p own_id own keys before
      → IsWellFormed p own_id own keys after × Extends before after

  pub Advances-refl : (db : Database) → Advances db db
  Advances-refl db w = (w, Extends-refl db)

  pub Advances-trans : {a b c : Database} → Advances a b → Advances b c → Advances a c
  Advances-trans f g w =
      let first = f w in let second = g first.0 in (second.0, Extends-trans first.1 second.1)

  pub Keeps-Advances : {a b : Database} → Keeps a b → Advances a b
  Keeps-Advances k w = (
    record {
      known = w.known;
      keys_kept = k.same_keys ∙ w.keys_kept;
      chained = λ id. rw k.same_receipts (w.chained id);
    },
    record { added = []; kept = k.same_receipts },
  )

  -- The hypotheses on the unsigned receipt are what `propose` establishes.
  accept-Advances :
      (event : ChainEvent) (mode : Mode) (organization_id : Option Text)
      (unsigned : UnsignedReceipt) (prepared : Prepared) (db : Database) (sig : Text)
      {end : Receipt × Database}
      → unsigned.seq ≡ next_seq (tip_of unsigned.system_id db)
      → unsigned.prev_hash ≡ next_prev (tip_of unsigned.system_id db)
      → unsigned.key_id ≡ own_id
      → accept p event mode organization_id own unsigned prepared db sig ≡ ok end
      → Advances db end.1
  unfolding accept
  accept-Advances event mode organization_id unsigned prepared db sig numbered linked keyed h w =
      let receipt : Receipt = record { unsigned = unsigned; sig = sig } in
      let shaped = guard-eq-ok (valid_receipt p receipt) format_error _ h in
      let signed = guard-eq-ok (verify_receipt_signature p receipt own) storage_error _ shaped.1 in
      let (db', opened, next) = >>=-eq-ok (registered mode event organization_id db) _ signed.1 in
      let (db'', inserted, last) = >>=-eq-ok (insert_row p receipt (some prepared) db') _ next in
      let kept = registered-Keeps mode event organization_id db opened in
      let tip = tip_of-Keeps unsigned.system_id kept in
      let on_file : public_key_for unsigned.key_id keys ≡ some own =
        ap (λ id. public_key_for id keys) keyed ∙ w.known in
      let placed : IsNext p own_id own keys receipt db' = record {
        numbered = numbered ∙ ap next_seq (sym tip);
        linked = linked ∙ ap next_prev (sym tip);
        signed = ap (signed_under p receipt) on_file ∙ signed.0;
      } in
      let moved = Keeps-Advances kept w in
      let added =
        insert_row-IsWellFormed p own_id own keys receipt (some prepared) db' moved.0 placed
          inserted in
      let same : db'' ≡ _ = ap (λ (pair : Receipt × Database). pair.1) (ok-injective last) in
      rw (← same) (added.0, Extends-trans moved.1 added.1)

module _ (p : Platform) {σ : Type 0} (svc : SigningService σ) (keys : List KeyRow) where
  -- From one state of the store to another.
  abbrev pub StoreAdvances : StoreState σ → StoreState σ → Type 0
  StoreAdvances before after = Advances p svc.key_id svc.public_key keys before.db after.db

  finish-Advances :
      (before s : StoreState σ) (accepted : Result StoreError (Receipt × Database))
      → StoreAdvances before s
      → ((end : Receipt × Database)
          → accepted ≡ ok end
          → Advances p svc.key_id svc.public_key keys before.db end.1)
      → StoreAdvances before (finish p svc s accepted).1
  finish-Advances before s (err e) still written = still
  finish-Advances before s (ok (receipt, db)) still written = written (receipt, db) refl

  with_signature-Advances :
      (event : ChainEvent) (mode : Mode) (organization_id : Option Text)
      (unsigned : UnsignedReceipt) (prepared : Prepared) (db : Database) (s : StoreState σ)
      (answer : Result SigningError Text × σ)
      → Keeps s.db db
      → unsigned.seq ≡ next_seq (tip_of unsigned.system_id db)
      → unsigned.prev_hash ≡ next_prev (tip_of unsigned.system_id db)
      → unsigned.key_id ≡ svc.key_id
      → StoreAdvances s
          (with_signature p svc event mode organization_id unsigned prepared db s answer).1
  with_signature-Advances event mode organization_id unsigned prepared db s (err e, service) kept
        numbered linked keyed =
      Advances-refl p svc.key_id svc.public_key keys s.db
  with_signature-Advances event mode organization_id unsigned prepared db s (ok sig, service) kept
        numbered linked keyed =
      finish-Advances s (record s { service = service })
        (accept p event mode organization_id svc.public_key unsigned prepared db sig)
        (Advances-refl p svc.key_id svc.public_key keys s.db)
        (λ end accepted.
          Advances-trans p svc.key_id svc.public_key keys
            (Keeps-Advances p svc.key_id svc.public_key keys kept)
            (accept-Advances p svc.key_id svc.public_key keys event mode organization_id unsigned
              prepared db sig numbered linked keyed accepted))

  send-Advances :
      (event : ChainEvent) (mode : Mode) (organization_id : Option Text) (random : Random)
      (s : StoreState σ) (proposal : Result StoreError Proposal)
      → propose p event mode svc.key_id random s.db ≡ proposal
      → StoreAdvances s (send p svc event mode organization_id s proposal).1
  unfolding propose
  send-Advances event mode organization_id random s (err e) h =
      Advances-refl p svc.key_id svc.public_key keys s.db
  send-Advances event mode organization_id random s (ok (already receipt)) h =
      Advances-refl p svc.key_id svc.public_key keys s.db
  send-Advances event mode organization_id random s (ok (fresh unsigned prepared db)) h =
      let found = duplicate_of mode event event.source.trace_id event.source.span_id s.db in
      let (kept, built) = proposed-fresh p event mode svc.key_id random s.db found h in
      let tip = tip_of event.system_id s.db in
      let system : unsigned.system_id ≡ event.system_id =
        ap (λ (u : UnsignedReceipt). u.system_id) built in
      let moved : tip_of unsigned.system_id db ≡ tip =
        rw system (tip_of-Keeps event.system_id kept) in
      with_signature-Advances event mode organization_id unsigned prepared db s
        (svc.sign_receipt unsigned s.service) kept
        (ap (λ (u : UnsignedReceipt). u.seq) built
          ∙ position_after-seq p tip event.ts_received
          ∙ ap next_seq (sym moved))
        (ap (λ (u : UnsignedReceipt). u.prev_hash) built
          ∙ position_after-prev p tip event.ts_received
          ∙ ap next_prev (sym moved))
        (ap (λ (u : UnsignedReceipt). u.key_id) built)

  -- Whatever the service answers, `insertReceipt` keeps every chain and only adds rows.
  pub insert_receipt-Advances :
      (event : ChainEvent) (mode : Mode) (organization_id : Option Text) (random : Random)
      (s : StoreState σ)
      → StoreAdvances s (insert_receipt p svc event mode organization_id random s).1
  unfolding insert_receipt
  insert_receipt-Advances event mode organization_id random s =
      send-Advances event mode organization_id random s
        (propose p event mode svc.key_id random s.db) refl
