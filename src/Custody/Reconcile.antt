-- ===== src/Custody/Reconcile.antt =====
-- `reconcileNow` before a service that keeps a log: what is taken back was in the log.
use sigillo.Common.{
  ℕ, ◌≡◌, refl, sym, ap, ◌∙◌, ◌==◌, length, Option, none, some, List, [], ◌∷◌, ok, err, Result,
  >>=-eq-ok, ok-injective, Bool-cases, inl, inr, All, if◌then◌else◌,
}
use sigillo.Text.{Text}
use sigillo.Platform.{Platform}
use sigillo.Receipt.{Receipt}
use sigillo.Store.{Database, StoreError, tip_of, log_admin, signer_recovered}
use sigillo.Store.Service.{SigningService, SigningError, StoreState}
use sigillo.Store.Insert.{insert_row, register_system}
use sigillo.Store.Judge.{next_seq, next_prev, Verdict, nothing, apart, take_back, judge, missing_of}
use sigillo.Store.Reconcile.{
  restore, carry_out, restored, compared, with_head, reconcile_now, record_divergence,
  divergence_of, is_detail, fetch_journal,
}
use sigillo.Store.Chain.{row_of, insert_row-receipts}
use sigillo.Store.Recovery.{take_missing-All}
use sigillo.Store.Judged.{judge-eq}
use sigillo.Store.Restore.{registered_if-Keeps}
use sigillo.Custody.Pages.{Read, fetch_journal-Read, Read-Logged, Read-All}
use sigillo.Custody.{IsCustodian, IsIn, Headed, IsHead-IsIn, Stored, KeptAt, Keeping}

module _ (p : Platform) {σ : Type 0} (svc : SigningService σ) where
  -- The rows restored are those of the receipts.
  restore-Stored :
      (log : List Receipt) (now id : Text) (receipts : List Receipt) (db : Database)
      {end : Database}
      → All (IsIn log) receipts
      → Stored log db.receipts
      → restore p now id receipts db ≡ ok end
      → Stored log end.receipts
  unfolding restore
  restore-Stored log now id [] db all stored h =
      let same = ap (λ (d : Database). d.receipts) (sym (ok-injective h)) in rw same stored
  restore-Stored log now id (r ∷ receipts) db all stored h =
      let (db', opened, next) =
        >>=-eq-ok (if r.seq == 0 then register_system id r.ts_received none db else ok db) _ h in
      let (db'', inserted, more) = >>=-eq-ok (insert_row p r none db') _ next in
      let kept =
        registered_if-Keeps p svc.key_id svc.public_key [] id r.ts_received (r.seq == 0) db
          opened in
      let rows =
        (insert_row-receipts p svc.key_id svc.public_key [] r none db' inserted).0
        ∙ ap (λ found. row_of p r ∷ found) kept.same_receipts in
      restore-Stored log now id receipts (log_admin now signer_recovered id db'') all.1
        (rw rows (all.0, stored)) more

  missing_of-All :
      (log : List Receipt) (head : Receipt) (first : ℕ) (journal : Option (List Receipt))
      → IsIn log head
      → ((receipts : List Receipt) → journal ≡ some receipts → All (IsIn log) receipts)
      → All (IsIn log) (missing_of p head first journal)
  missing_of-All log head first none found all = elim (Bool-cases (head.seq == first)) [
    | inl next ↦ rw next (found, tt)
    | inr far ↦ rw far tt
  ]
  missing_of-All log head first (some receipts) found all = elim (Bool-cases (head.seq == first)) [
    | inl next ↦ rw next (found, tt)
    | inr far ↦ rw far (all receipts refl)
  ]

module _ (p : Platform) {σ : Type 0} {svc : SigningService σ} (c : IsCustodian p svc) where
  pub record_divergence-KeptAt :
      (now id detail : Text) (log : List Receipt) (s : StoreState σ)
      → KeptAt p c log s
      → KeptAt p c log (record_divergence now id detail s)
  unfolding record_divergence
  record_divergence-KeptAt now id detail log s k =
      elim (Bool-cases (is_detail (divergence_of id s.divergences) detail)) [
        | inl known ↦ rw known k
        | inr new ↦ rw new (record { logged = k.logged; stored = k.stored })
      ]

  restored-KeptAt :
      (id : Text) (head : Receipt) (count : ℕ) (s : StoreState σ) (log : List Receipt)
      (result : Result StoreError Database)
      → c.Logged s.service log
      → Stored log s.db.receipts
      → ((end : Database) → result ≡ ok end → Stored log end.receipts)
      → KeptAt p c log (restored p id head count s result).1
  restored-KeptAt id head count s log (err e) logged stored written = record {
    logged = logged;
    stored = stored;
  }
  restored-KeptAt id head count s log (ok db) logged stored written = record {
    logged = logged;
    stored = written db refl;
  }

  carry_out-KeptAt :
      (now id : Text) (head : Option Receipt) (verdict : Verdict) (s : StoreState σ)
      (log : List Receipt)
      → c.Logged s.service log
      → Stored log s.db.receipts
      → ((back : List Receipt) → verdict ≡ take_back back → All (IsIn log) back)
      → KeptAt p c log (carry_out p now id head verdict s).1
  unfolding carry_out
  carry_out-KeptAt now id head nothing s log logged stored all = record {
    logged = logged;
    stored = stored;
  }
  carry_out-KeptAt now id head (apart detail) s log logged stored all =
      record_divergence-KeptAt now id detail log s (record { logged = logged; stored = stored })
  carry_out-KeptAt now id none (take_back receipts) s log logged stored all = record {
    logged = logged;
    stored = stored;
  }
  carry_out-KeptAt now id (some head) (take_back receipts) s log logged stored all =
      restored-KeptAt id head (length receipts) s log (restore p now id receipts s.db) logged stored
        (λ end done. restore-Stored p svc log now id receipts s.db (all receipts refl) stored done)

  -- What the judgment takes back was the head, or was read from the journal.
  judge-All :
      (log : List Receipt) (id : Text) (head : Option Receipt) (first : ℕ)
      (found : Option (List Receipt) × σ) (db : Database) {back : List Receipt}
      → ((r : Receipt) → head ≡ some r → IsIn log r)
      → Read c.Logged log found
      → judge p svc id head (tip_of id db) first found.0 db ≡ take_back back
      → All (IsIn log) back
  judge-All log id head first found db {back} headed read h =
      let (newest, there, place, went, _) =
        judge-eq p svc id head (tip_of id db) first found.0 db h in
      take_missing-All p svc.key_id svc.public_key db.signing_keys (IsIn log) id first
        (next_prev (tip_of id db)) newest.seq (missing_of p newest first found.0) went
        (missing_of-All p svc log newest first found.0 (headed newest there)
          (λ receipts same. Read-All p c log found receipts read same))

  compared-KeptAt :
      (now id : Text) (head : Option Receipt) (s : StoreState σ) (log : List Receipt)
      (found : Option (List Receipt) × σ)
      → Stored log s.db.receipts
      → ((r : Receipt) → head ≡ some r → IsIn log r)
      → Read c.Logged log found
      → KeptAt p c log (compared p svc now id head s found).1
  compared-KeptAt now id head s log found stored headed read =
      carry_out-KeptAt now id head
        (judge p svc id head (tip_of id s.db) (next_seq (tip_of id s.db)) found.0 s.db)
        (record s { service = found.1 }) log (Read-Logged p c log found read) stored
        (λ back taken.
          judge-All log id head (next_seq (tip_of id s.db)) found s.db headed read taken)

  with_head-KeptAt :
      (now id : Text) (s : StoreState σ) (log : List Receipt)
      (answer : Result SigningError (Option Receipt) × σ)
      → Stored log s.db.receipts
      → Headed c.Logged id log answer
      → KeptAt p c log (with_head p svc now id s answer).1
  with_head-KeptAt now id s log (err e, service) stored headed = record {
    logged = headed;
    stored = stored;
  }
  with_head-KeptAt now id s log (ok head, service) stored headed =
      compared-KeptAt now id head (record s { service = service }) log
        (fetch_journal p svc id head (next_seq (tip_of id s.db)) service) stored
        (λ r found. IsHead-IsIn id log head headed.0 found)
        (fetch_journal-Read p c id head (next_seq (tip_of id s.db)) service log headed.1)

  pub reconcile_now-KeptAt :
      (now id : Text) (log : List Receipt) (s : StoreState σ)
      → KeptAt p c log s
      → KeptAt p c log (reconcile_now p svc now id s).1
  unfolding reconcile_now
  reconcile_now-KeptAt now id log s k =
      with_head-KeptAt now id s log (svc.head id s.service) k.stored
        (c.heads id s.service log k.logged)

  pub reconcile_now-Keeping :
      (now id : Text) (s : StoreState σ) → Keeping p c s (reconcile_now p svc now id s).1
  reconcile_now-Keeping now id s k = record {
    log = k.log;
    kept = reconcile_now-KeptAt now id k.log s k.kept;
  }
