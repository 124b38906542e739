-- ===== src/Store/Lost.antt =====
-- A receipt that the signer signed and the database lost, by a crash between the two: `reconcileNow`
-- takes it back.
use sigillo.Common.{
  ℕ, ◌+◌, ◌≡◌, refl, sym, ap, ◌∙◌, true, false, ◌==◌, ltb, le→ltb, ==_iff, Option, none, some, List,
  [], ◌∷◌, ok, arith,
}
use sigillo.Text.{Text, text_eq_iff, text_eq_refl}
use sigillo.Platform.{Platform}
use sigillo.Receipt.{Receipt}
use sigillo.Store.{StoredRow, Database, tip_of, is_deleted, log_admin, signer_recovered}
use sigillo.Store.Service.{SigningService, StoreState}
use sigillo.Store.Insert.{artifact_rows, has_artifacts, hash_hex, insert_row, violates}
use sigillo.Store.Judge.{
  take_back, taken, key_for, signed_under, take_missing, judge_taken, judge_head, judge, span_taken,
  missing_of,
}
use sigillo.Store.Reconcile.{recovered, restore, carry_out, restored, reconcile_now}
use sigillo.Store.Chain.{row_of}

module _ (p : Platform) {σ : Type 0} (svc : SigningService σ) where
  -- The signer's head is the next receipt of the chain here.
  pub record IsLost (id : Text) (tip : StoredRow) (r : Receipt) (db : Database) : Type 0 where
    pub own : r.system_id ≡ id
    pub numbered : r.seq ≡ tip.receipt.seq + 1
    pub linked : r.prev_hash ≡ tip.hash
    pub signed : signed_under p r (key_for svc.key_id svc.public_key db.signing_keys r) ≡ true
    pub present : is_deleted id db.admin_log ≡ false
    pub new_span : span_taken id (r ∷ []) db ≡ none
    pub fits : violates (row_of p r) db.receipts ≡ false

  take_missing-IsLost :
      (id : Text) (tip : StoredRow) (r : Receipt) (db : Database)
      → IsLost id tip r db
      → take_missing p svc.key_id svc.public_key db.signing_keys id
          (tip.receipt.seq + 1)
          tip.hash
          r.seq
          (r ∷ [])
        ≡ taken (r ∷ []) (hash_hex p r)
  unfolding take_missing
  take_missing-IsLost id tip r db lost =
      rw
        (
          take_missing,
          (text_eq_iff r.system_id id).1 lost.own,
          (==_iff r.seq (tip.receipt.seq + 1)).1 lost.numbered,
          (text_eq_iff r.prev_hash tip.hash).1 lost.linked,
          lost.signed,
          (==_iff (tip.receipt.seq + 1) r.seq).1 (sym lost.numbered),
        )
        refl

  missing_of-next :
      (r : Receipt) (first_missing : ℕ) (journal : Option (List Receipt))
      → (r.seq == first_missing) ≡ true
      → missing_of p r first_missing journal ≡ r ∷ []
  missing_of-next r first_missing none next = rw next refl
  missing_of-next r first_missing (some journal) next = rw next refl

  judge-IsLost :
      (id : Text) (tip : StoredRow) (r : Receipt) (journal : Option (List Receipt)) (db : Database)
      → IsLost id tip r db
      → judge p svc id (some r) (some tip) (tip.receipt.seq + 1) journal db ≡ take_back (r ∷ [])
  unfolding judge judge_head judge_taken
  judge-IsLost id tip r journal db lost =
      let ahead : (tip.receipt.seq == r.seq) ≡ false = ground (arith, lost.numbered) in
      let next : (r.seq == tip.receipt.seq + 1) ≡ true =
        (==_iff r.seq (tip.receipt.seq + 1)).1 lost.numbered in
      rw
        (
          judge_head,
          (text_eq_iff r.system_id id).1 lost.own,
          lost.signed,
          ahead,
          le→ltb r.seq (tip.receipt.seq + 1) (omega (arith, lost.numbered)),
          (==_iff (tip.receipt.seq + 1) (tip.receipt.seq + 1)).1 refl,
          missing_of-next r (tip.receipt.seq + 1) journal next,
          take_missing-IsLost id tip r db lost,
          judge_taken,
          (==_iff r.seq r.seq).1 refl,
          text_eq_refl (hash_hex p r),
          lost.present,
          lost.new_span,
        )
        refl

  restore-IsLost :
      (now id : Text) (tip : StoredRow) (r : Receipt) (db : Database)
      → IsLost id tip r db
      → (db' : Database) × (restore p now id (r ∷ []) db ≡ ok db')
        × (db'.receipts ≡ row_of p r ∷ db.receipts)
  unfolding restore insert_row
  restore-IsLost now id tip r db lost =
      let later : (r.seq == 0) ≡ false = ground (arith, lost.numbered) in
      let end : Database = log_admin now signer_recovered id (record db {
        receipts = row_of p r ∷ db.receipts;
        artifacts = artifact_rows r (has_artifacts r.v r.artifacts) db.artifacts;
      }) in
      (end, rw (restore, later, insert_row, lost.fits) refl, refl)

  -- Where the signer is one receipt ahead, because the answer to the last signing was lost, and its
  -- receipt is the next of the chain here, signed under a known key, of a system not deleted, with a
  -- span not yet on the chain, and its row violates no constraint of the table, `reconcileNow` ends and
  -- reports that one receipt was recovered; the receipt is in the database, before the rows that were
  -- there.
  pub lost_receipt_recovered :
      (now id : Text) (s : StoreState σ) (service : σ) (tip : StoredRow) (r : Receipt)
      → svc.head id s.service ≡ (ok (some r), service)
      → tip_of id s.db ≡ some tip
      → IsLost id tip r s.db
      → ((reconcile_now p svc now id s).0 ≡ ok (recovered r.seq (hash_hex p r) 1))
        × ((reconcile_now p svc now id s).1.db.receipts ≡ row_of p r ∷ s.db.receipts)
  unfolding reconcile_now carry_out
  lost_receipt_recovered now id s service tip r head there lost =
      let (db', done, rows) = restore-IsLost now id tip r s.db lost in
      let level : ltb (tip.receipt.seq + 1) r.seq ≡ false =
        le→ltb (tip.receipt.seq + 1) r.seq (omega (arith, lost.numbered)) in
      let judged = judge-IsLost id tip r none s.db lost in
      let run : reconcile_now p svc now id s
          ≡ restored p id r 1 (record s { service = service }) (ok db') =
        rw (reconcile_now, head, there, level, judged, carry_out, done) refl in
      (ap (λ outcome. outcome.0) run, ap (λ outcome. outcome.1.db.receipts) run ∙ rows)
