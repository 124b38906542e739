-- ===== src/Custody/Level.antt =====
-- A reconciliation that ends in agreement leaves the database level with the service's log.
use sigillo.Common.{
  ℕ, suc, ◌+◌, ◌≤◌, ◌≡◌, refl, sym, ap, ◌∙◌, true, ◌==◌, ==_iff, Option, none, some, List, [], ◌∷◌,
  ◌++◌, length, length-append, length-map, ok, err, Result, >>=-eq-ok, ok-injective, inl, inr,
  arith, if◌then◌else◌,
}
use sigillo.Crypto.{Bytes}
use sigillo.Text.{Text, text_eq_refl}
use sigillo.Platform.{Platform}
use sigillo.Receipt.{Receipt}
use sigillo.Signer.Log.{log_of}
use sigillo.Store.{
  StoredRow, KeyRow, Database, StoreError, chain_of, tip_of, log_admin, signer_recovered,
  row_receipt,
}
use sigillo.Store.Service.{SigningService, SigningError, StoreState}
use sigillo.Store.Insert.{hash_hex, insert_row, register_system}
use sigillo.Store.Judge.{
  next_seq, next_prev, Verdict, nothing, apart, take_back, judge, last_seq, is_number, same_tip,
  missing_of,
}
use sigillo.Store.Reconcile.{
  ReconcileOutcome, in_sync, recovered, diverged, restore, restored, carry_out, with_head,
  fetch_journal, reconcile_now,
}
use sigillo.Store.Chain.{
  IsWellFormed, row_of, insert_row-receipts, tip_of-IsWellFormed, next_seq-newest,
}
use sigillo.Store.Ordered.{receipts_of}
use sigillo.Store.Recovery.{Follow, take_missing-Follow}
use sigillo.Store.Judged.{judge-eq, judge-nothing}
use sigillo.Store.Restore.{registered_if-Keeps, reconcile_now-Advances}
use sigillo.Custody.{IsCustodian, IsHead, Headed, KeptAt}
use sigillo.Custody.Reconcile.{reconcile_now-KeptAt}
use sigillo.Custody.Older.{IsOlder, IsLinked-newest, IsChain-IsOlder, chain_of-Stored}

-- The outcomes in which store and service agree.
abbrev pub IsAgreed : Result StoreError ReconcileOutcome → Type 0
IsAgreed (ok in_sync) = Unit
IsAgreed (ok (recovered _ _ _)) = Unit
IsAgreed (ok (diverged _)) = ⊥
IsAgreed (err _) = ⊥

IsOlder-level : {mine log : List Receipt} → IsOlder mine log → length log ≤ length mine → mine ≡ log
IsOlder-level {mine} {log} older short = from older.missing older.whole
  where
    from : (missing : List Receipt) → log ≡ missing ++ mine → mine ≡ log
    from [] whole = sym whole
    from (r ∷ missing) whole =
        let sized = ap length whole in
        absurd (omega (arith, sized, length-append (r ∷ missing) mine, short))

module _ (p : Platform) (own_id : Text) (own : Bytes) (keys : List KeyRow) where
  Follow-last :
      (id : Text) (seq : ℕ) (previous : Text) (m n : ℕ) (receipts : List Receipt) (last : Text)
      → Follow p own_id own keys id seq previous receipts last
      → m + 1 ≡ seq
      → is_number (last_seq (some m) receipts) n ≡ true
      → n + 1 ≡ seq + length receipts
  Follow-last id seq previous m n [] last f before h = omega (arith, before, (==_iff m n).0 h)
  Follow-last id seq previous m n (r ∷ receipts) last f before h = omega (
    arith,
    Follow-last id (seq + 1) (hash_hex p r) r.seq n receipts last f.4 (ap (λ k. k + 1) f.1) h,
  )

  -- Receipts that reach a number from another are as many as the numbers between.
  Follow-length :
      (id : Text) (seq : ℕ) (previous : Text) (n : ℕ) (receipts : List Receipt) (last : Text)
      → Follow p own_id own keys id seq previous receipts last
      → is_number (last_seq none receipts) n ≡ true
      → n + 1 ≡ seq + length receipts
  Follow-length id seq previous n [] last f h = absurd (ground (arith, h))
  Follow-length id seq previous n (r ∷ receipts) last f h = omega (
    arith,
    Follow-last id (seq + 1) (hash_hex p r) r.seq n receipts last f.4 (ap (λ k. k + 1) f.1) h,
  )

  -- Each receipt restored adds a row to its chain.
  restore-length :
      (now id : Text) (seq : ℕ) (previous : Text) (receipts : List Receipt) (last : Text)
      (db : Database) {end : Database}
      → Follow p own_id own keys id seq previous receipts last
      → restore p now id receipts db ≡ ok end
      → length (chain_of id end.receipts) ≡ length receipts + length (chain_of id db.receipts)
  unfolding restore
  restore-length now id seq previous [] last db f h =
      let same = ap (λ (d : Database). length (chain_of id d.receipts)) (ok-injective h) in
      omega (arith, same)
  restore-length now id seq previous (r ∷ receipts) last db f h =
      let (db', opened, next) =
        >>=-eq-ok (if r.seq == 0 then register_system id r.ts_received none db else ok db) _ h in
      let (db'', inserted, more) = >>=-eq-ok (insert_row p r none db') _ next in
      let kept = registered_if-Keeps p own_id own keys id r.ts_received (r.seq == 0) db opened in
      let rows =
        (insert_row-receipts p own_id own keys r none db' inserted).0
        ∙ ap (λ found. row_of p r ∷ found) kept.same_receipts in
      let one : length (chain_of id (row_of p r ∷ db.receipts))
          ≡ suc (length (chain_of id db.receipts)) =
        rw (f.0, text_eq_refl id) refl in
      let added = ap (λ found. length (chain_of id found)) rows ∙ one in
      let rest =
        restore-length now id (seq + 1) (hash_hex p r) receipts last
          (log_admin now signer_recovered id db'') f.4 more in
      omega (arith, rest, added)

module _ (p : Platform) {σ : Type 0} {svc : SigningService σ} (c : IsCustodian p svc) where
  -- The chain of the database has at least so many receipts.
  Reaches : Text → ℕ → StoreState σ → Type 0
  Reaches id n s = n ≤ length (chain_of id s.db.receipts)

  -- What the verdict says of a log with `n` receipts: the chain has as many already, or has as many with
  -- those taken back.
  record IsJudged (id : Text) (n : ℕ) (keys : List KeyRow) (head : Option Receipt)
      (s : StoreState σ) (verdict : Verdict) : Type 0 where
    pub level : verdict ≡ nothing → Reaches id n s
    pub behind :
        (back : List Receipt)
        → verdict ≡ take_back back
        → (head ≡ none → ⊥)
          × (n ≤ length back + length (chain_of id s.db.receipts))
          × (last : Text) × Follow p svc.key_id svc.public_key keys id
              (next_seq (tip_of id s.db))
              (next_prev (tip_of id s.db))
              back
              last

  restored-Reaches :
      (id : Text) (n : ℕ) (head : Receipt) (count : ℕ) (s : StoreState σ)
      (result : Result StoreError Database)
      → ((end : Database) → result ≡ ok end → n ≤ length (chain_of id end.receipts))
      → IsAgreed (restored p id head count s result).0
      → Reaches id n (restored p id head count s result).1
  unfolding Reaches
  restored-Reaches id n head count s (err e) written agreed = absurd agreed
  restored-Reaches id n head count s (ok db) written agreed = written db refl

  carry_out-Reaches :
      (now id : Text) (n : ℕ) (keys : List KeyRow) (head : Option Receipt) (verdict : Verdict)
      (s : StoreState σ)
      → IsJudged id n keys head s verdict
      → IsAgreed (carry_out p now id head verdict s).0
      → Reaches id n (carry_out p now id head verdict s).1
  unfolding carry_out Reaches
  carry_out-Reaches now id n keys head nothing s judged agreed = judged.level refl
  carry_out-Reaches now id n keys head (apart detail) s judged agreed = absurd agreed
  carry_out-Reaches now id n keys none (take_back back) s judged agreed =
      absurd ((judged.behind back refl).0 refl)
  carry_out-Reaches now id n keys (some head) (take_back back) s judged agreed =
      let (_, enough, last, follow) = judged.behind back refl in
      restored-Reaches id n head (length back) s (restore p now id back s.db)
        (λ end done. omega (
          arith,
          enough,
          restore-length p svc.key_id svc.public_key keys now id (next_seq (tip_of id s.db))
              (next_prev (tip_of id s.db)) back last s.db follow done,
        ))
        agreed

  -- A head counts the log.
  IsHead-length :
      (id : Text) (s : σ) (log : List Receipt) (r : Receipt)
      → c.Logged s log
      → IsHead id log (some r)
      → length (log_of id log) ≡ r.seq + 1
  IsHead-length id s log r logged (older, whole) =
      let linked = rw whole at (c.links id logged) in
      omega (arith, ap length whole, (IsLinked-newest p r older linked).0)

  same_tip-next :
      (tip : Option StoredRow) (r : Receipt) → same_tip p tip r ≡ true → next_seq tip ≡ r.seq + 1
  same_tip-next none r h = absurd (ground (arith, h))
  same_tip-next (some tip) r h = ground (arith, h)

  -- The judgment is right about the log.
  judge-IsJudged :
      (id : Text) (keys : List KeyRow) (s : StoreState σ) (service : σ) (log : List Receipt)
      (head : Option Receipt) (journal : Option (List Receipt))
      → c.Logged service log
      → IsWellFormed p svc.key_id svc.public_key keys s.db
      → IsHead id log head
      → IsJudged id
          (length (log_of id log))
          keys
          head
          s
          (judge p svc id head (tip_of id s.db) (next_seq (tip_of id s.db)) journal s.db)
  unfolding Reaches tip_of
  judge-IsJudged id keys s service log head journal logged w headed =
      let tip = tip_of id s.db in
      let counted =
        ap next_seq (tip_of-IsWellFormed p svc.key_id svc.public_key keys id w)
        ∙ next_seq-newest p keys (chain_of id s.db.receipts) (w.chained id) in
      record {
        level = λ h. elim (judge-nothing p svc id head tip (next_seq tip) journal s.db h) [
          | inl absent ↦
              let bare : log_of id log ≡ [] = rw absent at (headed) in omega (arith, ap length bare)
          | inr (r, there, same) ↦ omega (
            arith,
            IsHead-length id service log r logged (rw there at (headed)),
            same_tip-next tip r same,
            counted,
          )
        ];
        behind = λ back h.
            let (newest, there, _, went, reached) =
              judge-eq p svc id head tip (next_seq tip) journal s.db h in
            let follow =
              take_missing-Follow p svc.key_id svc.public_key s.db.signing_keys
                (rw (w.keys_kept) (w.known)) id (next_seq tip) (next_prev tip) newest.seq
                (missing_of p newest (next_seq tip) journal) went in
            let follow' = rw (w.keys_kept) at (follow) in
            (
              λ absent. let clash : none ≡ some newest = sym absent ∙ there in cc,
              omega (
                arith,
                IsHead-length id service log newest logged (rw there at (headed)),
                Follow-length p svc.key_id svc.public_key keys id (next_seq tip) (next_prev tip)
                    newest.seq back (hash_hex p newest) follow' reached,
                counted,
              ),
              hash_hex p newest,
              follow',
            );
      }

  with_head-Reaches :
      (now id : Text) (keys : List KeyRow) (s : StoreState σ) (log : List Receipt)
      (answer : Result SigningError (Option Receipt) × σ)
      → IsWellFormed p svc.key_id svc.public_key keys s.db
      → Headed c.Logged id log answer
      → IsAgreed (with_head p svc now id s answer).0
      → Reaches id (length (log_of id log)) (with_head p svc now id s answer).1
  with_head-Reaches now id keys s log (err e, service) w headed agreed = absurd agreed
  with_head-Reaches now id keys s log (ok head, service) w headed agreed =
      let found = fetch_journal p svc id head (next_seq (tip_of id s.db)) service in
      carry_out-Reaches now id (length (log_of id log)) keys head
        (judge p svc id head (tip_of id s.db) (next_seq (tip_of id s.db)) found.0 s.db)
        (record s { service = found.1 })
        (judge-IsJudged id keys (record s { service = found.1 }) service log head found.0 headed.1 w
          headed.0)
        agreed

  -- After a reconciliation that ends in agreement, the chain is the whole of the log.
  pub reconcile_now-level :
      (now id : Text) (keys : List KeyRow) (s : StoreState σ) (log : List Receipt)
      → IsWellFormed p svc.key_id svc.public_key keys s.db
      → KeptAt p c log s
      → IsAgreed (reconcile_now p svc now id s).0
      → receipts_of (chain_of id (reconcile_now p svc now id s).1.db.receipts) ≡ log_of id log
  unfolding reconcile_now Reaches
  reconcile_now-level now id keys s log w k agreed =
      let end = (reconcile_now p svc now id s).1 in
      let kept = reconcile_now-KeptAt p c now id log s k in
      let chained = (reconcile_now-Advances p svc keys now id s w).0.chained id in
      let reached =
        with_head-Reaches now id keys s log (svc.head id s.service) w
          (c.heads id s.service log k.logged) agreed in
      IsOlder-level
        (IsChain-IsOlder p keys (chain_of id end.db.receipts) (log_of id log) (c.links id k.logged)
          chained (chain_of-Stored id log end.db.receipts kept.stored))
        (omega (arith, reached, length-map (chain_of id end.db.receipts) row_receipt))
