-- ===== src/Store/Covers.antt =====
-- What `writeCheckpoint` stores, over the hashes that it reads of the database.
use sigillo.Common.{
  ℕ, ◌≡◌, refl, sym, ap, true, not, ◌||◌, ◌==◌, ==_iff, none, some, ◌∷◌, length, ok, err, Result,
  Bool-cases, inl, inr, arith, List,
}
use sigillo.Text.{Text, text_eq, text_eq_iff}
use sigillo.Platform.{Platform}
use sigillo.Checkpoint.{Checkpoint, verify_checkpoint_signature}
use sigillo.Store.{Database, StoreError, read_receipt_hashes}
use sigillo.Store.Service.{SigningService, SigningError, StoreState}
use sigillo.Store.Reconcile.{ReconcileOutcome, in_sync, recovered, diverged, reconcile_now}
use sigillo.Store.CheckPoint.{
  covered, has_size, is_size, root_of, store_checkpoint, check_root, check_checkpoint, agreed,
  after_agreement, write_checkpoint,
}

module _ (p : Platform) {σ : Type 0} (svc : SigningService σ) where
  -- A checkpoint over the hashes that the database it is in gives in their order.
  pub record Stores (id : Text) (c : Checkpoint) (db : Database) : Type 0 where
    pub own : c.system_id ≡ id
    pub counted : c.tree_size ≡ length (read_receipt_hashes id db)
    pub rooted : root_of p (read_receipt_hashes id db) ≡ ok c.root_hash
    pub keyed : c.key_id ≡ svc.key_id
    pub signed : verify_checkpoint_signature p c svc.public_key ≡ true
    pub older : List Checkpoint
    pub kept : db.checkpoints ≡ c ∷ older

  check_root-Stores :
      (now id : Text) (count : ℕ) (c : Checkpoint) (s : StoreState σ)
      (root : Result StoreError Text) {d : Checkpoint}
      → (check_root p svc now id count c s root).0 ≡ ok (some d)
      → (c ≡ d)
        × (c.tree_size ≡ count)
        × (root ≡ ok c.root_hash)
        × ((check_root p svc now id count c s root).1 ≡ store_checkpoint c s)
  check_root-Stores now id count c s (err e) h = cc
  check_root-Stores now id count c s (ok root) {d} h =
      elim (Bool-cases (not (c.tree_size == count) || not (text_eq c.root_hash root))) [
        | inl other ↦ let refused : err _ ≡ ok (some d) = rw other at (h) in cc
        | inr same ↦ elim (Bool-cases (has_size c.system_id c.tree_size s.db.checkpoints)) [
          | inl there ↦ let refused : err _ ≡ ok (some d) = rw (same, there) at (h) in cc
          | inr new ↦
              let sent : ok (some c) ≡ ok (some d) = rw (same, new) at (h) in
              let root_same : c.root_hash ≡ root =
                (text_eq_iff c.root_hash root).0 (ground (arith, same)) in
              (
                cc,
                (==_iff c.tree_size count).0 (ground (arith, same)),
                ap ok (sym root_same),
                rw (same, new) refl,
              )
        ]
      ]

  store_checkpoint-Stores :
      (id : Text) (c : Checkpoint) (s : StoreState σ)
      → c.system_id ≡ id
      → c.tree_size ≡ length (read_receipt_hashes id s.db)
      → root_of p (read_receipt_hashes id s.db) ≡ ok c.root_hash
      → c.key_id ≡ svc.key_id
      → verify_checkpoint_signature p c svc.public_key ≡ true
      → Stores id c (store_checkpoint c s).db
  unfolding read_receipt_hashes
  store_checkpoint-Stores id c s own counted rooted keyed signed = record {
    own = own;
    counted = counted;
    rooted = rooted;
    keyed = keyed;
    signed = signed;
    older = s.db.checkpoints;
    kept = refl;
  }

  check_checkpoint-Stores :
      (now id : Text) (s : StoreState σ) (answer : Result SigningError Checkpoint × σ)
      {d : Checkpoint}
      → (check_checkpoint p svc now id (read_receipt_hashes id s.db) s answer).0 ≡ ok (some d)
      → Stores id d (check_checkpoint p svc now id (read_receipt_hashes id s.db) s answer).1.db
  check_checkpoint-Stores now id s (err e, service) h = cc
  check_checkpoint-Stores now id s (ok c, service) {d} h =
      let hashes = read_receipt_hashes id s.db in
      let s' : StoreState σ = record s { service = service } in
      elim (Bool-cases (
        not (text_eq c.system_id id)
        || not (text_eq c.key_id svc.key_id)
        || not (verify_checkpoint_signature p c svc.public_key))) [
          | inl foreign ↦ let refused : err _ ≡ ok (some d) = rw foreign at (h) in cc
          | inr checked ↦
              let run : (check_root p svc now id (length hashes) c s' (root_of p hashes)).0
                  ≡ ok (some d) =
                rw checked at (h) in
              let (same, counted, rooted, end) =
                check_root-Stores now id (length hashes) c s' (root_of p hashes) run in
              let stored =
                store_checkpoint-Stores id c s'
                  ((text_eq_iff c.system_id id).0 (ground (arith, checked))) counted rooted
                  ((text_eq_iff c.key_id svc.key_id).0 (ground (arith, checked)))
                  (ground (arith, checked)) in
              rw (checked, end, ← same) stored
        ]

  agreed-Stores :
      (now id : Text) (s : StoreState σ) {d : Checkpoint}
      → (agreed p svc now id s).0 ≡ ok (some d)
      → Stores id d (agreed p svc now id s).1.db
  agreed-Stores now id s {d} h = elim (Bool-cases (length (read_receipt_hashes id s.db) == 0)) [
    | inl empty ↦ let refused : err _ ≡ ok (some d) = rw empty at (h) in cc
    | inr there ↦
        elim (Bool-cases
          (is_size (covered id s.db.checkpoints) (length (read_receipt_hashes id s.db)))) [
            | inl done ↦ let idle : ok none ≡ ok (some d) = rw (there, done) at (h) in cc
            | inr behind ↦
                rw (there, behind)
                  (check_checkpoint-Stores now id s (svc.checkpoint id s.service)
                    (rw (there, behind) at (h)))
          ]
  ]

  after_agreement-Stores :
      (now id : Text) (outcome : Result StoreError ReconcileOutcome × StoreState σ) {d : Checkpoint}
      → (after_agreement p svc now id outcome).0 ≡ ok (some d)
      → Stores id d (after_agreement p svc now id outcome).1.db
  after_agreement-Stores now id (err e, s) h = cc
  after_agreement-Stores now id (ok (diverged detail), s) h = cc
  after_agreement-Stores now id (ok in_sync, s) h = agreed-Stores now id s h
  after_agreement-Stores now id (ok (recovered seq hash count), s) h = agreed-Stores now id s h

  pub write_checkpoint-Stores :
      (now id : Text) (s : StoreState σ) {c : Checkpoint}
      → (write_checkpoint p svc now id s).0 ≡ ok (some c)
      → Stores id c (write_checkpoint p svc now id s).1.db
  unfolding write_checkpoint
  write_checkpoint-Stores now id s h =
      after_agreement-Stores now id (reconcile_now p svc now id s) h
