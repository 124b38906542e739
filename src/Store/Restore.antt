-- ===== src/Store/Restore.antt =====
-- `reconcileNow` and what calls it: every write keeps the chains of the database, whatever the signing
-- service answers.
use sigillo.Common.{
  ℕ, ◌+◌, ◌≡◌, refl, sym, ap, ◌∙◌, Bool, true, false, ◌==◌, Option, none, some, List, [], ◌∷◌,
  length, ok, err, Result, Bool-cases, inl, inr, >>=-eq-ok, ok-injective, if◌then◌else◌,
}
use sigillo.Crypto.{Bytes}
use sigillo.Text.{Text, text_eq_refl}
use sigillo.Platform.{Platform}
use sigillo.Receipt.{Receipt}
use sigillo.Store.{
  StoredRow, KeyRow, public_key_for, Database, StoreError, tip_of, log_admin, signer_recovered,
  chain_of,
}
use sigillo.Store.Service.{SigningService, SigningError, StoreState}
use sigillo.Store.Insert.{hash_hex, insert_row, register_system}
use sigillo.Store.Judge.{next_seq, next_prev, Verdict, nothing, apart, take_back, judge}
use sigillo.Store.Reconcile.{
  restore, carry_out, restored, with_head, reconcile_now, record_divergence, divergence_of,
  is_detail, fetch_journal,
}
use sigillo.Store.Chain.{
  Extends-trans, row_of, IsWellFormed, IsNext, newest, tip_of-IsWellFormed, insert_row-receipts,
  insert_row-IsWellFormed,
}
use sigillo.Store.Keeps.{Keeps, Keeps-eq, tip_of-Keeps, register_system-Keeps}
use sigillo.Store.Sound.{Advances, Advances-refl, Keeps-Advances, StoreAdvances}
use sigillo.Store.Recovery.{Follow}
use sigillo.Store.Judged.{judge-Follow}

module _ (p : Platform) (own_id : Text) (own : Bytes) (keys : List KeyRow) where
  pub registered_if-Keeps :
      (id ts : Text) (first : Bool) (db : Database) {end : Database}
      → (if first then register_system id ts none db else ok db) ≡ ok end
      → Keeps db end
  registered_if-Keeps id ts true db h = register_system-Keeps id ts none db h
  registered_if-Keeps id ts false db h = Keeps-eq (ok-injective h)

  log_admin-Keeps :
      (now id : Text) (db : Database) → Keeps db (log_admin now signer_recovered id db)
  log_admin-Keeps now id db = record { same_receipts = refl; same_keys = refl }

  -- The row inserted is the tip of its system.
  insert_row-tip :
      (r : Receipt) (db : Database) {end : Database}
      → IsWellFormed p own_id own keys end
      → insert_row p r none db ≡ ok end
      → tip_of r.system_id end ≡ some (row_of p r)
  insert_row-tip r db {end} w h =
      let rows = (insert_row-receipts p own_id own keys r none db h).0 in
      let first : newest (chain_of r.system_id (row_of p r ∷ db.receipts)) ≡ some (row_of p r) =
        rw (text_eq_refl r.system_id) refl in
      tip_of-IsWellFormed p own_id own keys r.system_id w
      ∙ ap (λ (found : List StoredRow). newest (chain_of r.system_id found)) rows
      ∙ first

  restore-Advances :
      (now id : Text) (seq : ℕ) (previous : Text) (receipts : List Receipt) (last : Text)
      (db : Database) {end : Database}
      → Follow p own_id own keys id seq previous receipts last
      → seq ≡ next_seq (tip_of id db)
      → previous ≡ next_prev (tip_of id db)
      → restore p now id receipts db ≡ ok end
      → Advances p own_id own keys db end
  unfolding restore
  restore-Advances now id seq previous [] last db f numbered linked h w =
      Keeps-Advances p own_id own keys (Keeps-eq (ok-injective h)) w
  restore-Advances now id seq previous (r ∷ receipts) last db f numbered linked h w =
      let (db', opened, next) =
        >>=-eq-ok (if r.seq == 0 then register_system id r.ts_received none db else ok db) _ h in
      let (db'', inserted, more) = >>=-eq-ok (insert_row p r none db') _ next in
      let kept = registered_if-Keeps id r.ts_received (r.seq == 0) db opened in
      let tip : tip_of r.system_id db' ≡ tip_of id db = rw f.0 (tip_of-Keeps id kept) in
      let placed : IsNext p own_id own keys r db' = record {
        numbered = f.1 ∙ numbered ∙ ap next_seq (sym tip);
        linked = f.2 ∙ linked ∙ ap next_prev (sym tip);
        signed = f.3;
      } in
      let moved = Keeps-Advances p own_id own keys kept w in
      let added = insert_row-IsWellFormed p own_id own keys r none db' moved.0 placed inserted in
      let logged = log_admin-Keeps now id db'' in
      let tip' : tip_of id (log_admin now signer_recovered id db'') ≡ some (row_of p r) =
        tip_of-Keeps id logged ∙ rw (← f.0) (insert_row-tip r db' added.0 inserted) in
      let entry = Keeps-Advances p own_id own keys logged added.0 in
      let rest =
        restore-Advances now id (seq + 1) (hash_hex p r) receipts last
          (log_admin now signer_recovered id db'') f.4
          (ap (λ n. n + 1) (sym f.1) ∙ ap next_seq (sym tip')) (ap next_prev (sym tip')) more
          entry.0 in
      (rest.0, Extends-trans (Extends-trans moved.1 added.1) (Extends-trans entry.1 rest.1))

module _ (p : Platform) {σ : Type 0} (svc : SigningService σ) (keys : List KeyRow) where
  pub record_divergence-Advances :
      (now id detail : Text) (s : StoreState σ)
      → StoreAdvances p svc keys s (record_divergence now id detail s)
  unfolding record_divergence
  record_divergence-Advances now id detail s =
      elim (Bool-cases (is_detail (divergence_of id s.divergences) detail)) [
        | inl known ↦ rw known (Advances-refl p svc.key_id svc.public_key keys s.db)
        | inr new ↦ rw new (
            Keeps-Advances p svc.key_id svc.public_key keys
              (record { same_receipts = refl; same_keys = refl }))
      ]

  restored-Advances :
      (id : Text) (head : Receipt) (count : ℕ) (s : StoreState σ)
      (result : Result StoreError Database)
      → ((end : Database) → result ≡ ok end → Advances p svc.key_id svc.public_key keys s.db end)
      → StoreAdvances p svc keys s (restored p id head count s result).1
  restored-Advances id head count s (err e) written =
      Advances-refl p svc.key_id svc.public_key keys s.db
  restored-Advances id head count s (ok db) written = written db refl

  carry_out-Advances :
      (now id : Text) (head : Option Receipt) (verdict : Verdict) (s : StoreState σ)
      → (public_key_for svc.key_id s.db.signing_keys ≡ some svc.public_key
          → (back : List Receipt) → verdict ≡ take_back back
          → (last : Text) × Follow p svc.key_id svc.public_key s.db.signing_keys id
              (next_seq (tip_of id s.db))
              (next_prev (tip_of id s.db))
              back
              last)
      → StoreAdvances p svc keys s (carry_out p now id head verdict s).1
  unfolding carry_out tip_of
  carry_out-Advances now id head nothing s follow w =
      Advances-refl p svc.key_id svc.public_key keys s.db w
  carry_out-Advances now id head (apart detail) s follow w =
      record_divergence-Advances now id detail s w
  carry_out-Advances now id none (take_back receipts) s follow w =
      Advances-refl p svc.key_id svc.public_key keys s.db w
  carry_out-Advances now id (some head) (take_back receipts) s follow w =
      let (last, all) = follow (rw (w.keys_kept) (w.known)) receipts refl in
      restored-Advances id head (length receipts) s (restore p now id receipts s.db)
        (λ end done.
          restore-Advances p svc.key_id svc.public_key keys now id (next_seq (tip_of id s.db))
            (next_prev (tip_of id s.db)) receipts last s.db (rw (w.keys_kept) at (all)) refl refl
            done)
        w

  with_head-Advances :
      (now id : Text) (s : StoreState σ) (answer : Result SigningError (Option Receipt) × σ)
      → StoreAdvances p svc keys s (with_head p svc now id s answer).1
  with_head-Advances now id s (err e, service) = Advances-refl p svc.key_id svc.public_key keys s.db
  with_head-Advances now id s (ok head, service) =
      let fetched = fetch_journal p svc id head (next_seq (tip_of id s.db)) service in
      carry_out-Advances now id head
        (judge p svc id head (tip_of id s.db) (next_seq (tip_of id s.db)) fetched.0 s.db)
        (record s { service = fetched.1 })
        (λ known back found.
          judge-Follow p svc id head (tip_of id s.db) (next_seq (tip_of id s.db)) fetched.0 s.db
            known found)

  -- Whatever the service answers, `reconcileNow` keeps every chain and only adds rows.
  pub reconcile_now-Advances :
      (now id : Text) (s : StoreState σ)
      → StoreAdvances p svc keys s (reconcile_now p svc now id s).1
  unfolding reconcile_now
  reconcile_now-Advances now id s = with_head-Advances now id s (svc.head id s.service)
