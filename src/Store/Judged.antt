-- ===== src/Store/Judged.antt =====
-- `reconcileNow`: what its judgment says of the receipts it was given.
use sigillo.Common.{
  ℕ, ◌≡◌, ◌≢◌, refl, true, not, ◌||◌, ◌==◌, ltb, Option, none, some, List, Bool-cases, inl, inr,
  arith, ==_iff, ◌⊎◌,
}
use sigillo.Crypto.{Bytes}
use sigillo.Text.{Text, text_eq, text_eq_iff}
use sigillo.Platform.{Platform}
use sigillo.Receipt.{Receipt}
use sigillo.Store.{is_deleted, StoredRow, KeyRow, Database, public_key_for}
use sigillo.Store.Service.{SigningService}
use sigillo.Store.Insert.{hash_hex}
use sigillo.Store.Judge.{
  next_seq, next_prev, nothing, apart, take_back, Taken, broken, taken, key_for, signed_under,
  take_missing, judge_spans, judge_taken, judge_head, judge, span_taken, missing_of, same_tip,
  is_number, last_seq,
}
use sigillo.Store.Recovery.{Follow, take_missing-Follow}

module _ (p : Platform) (own_id : Text) (own : Bytes) (keys : List KeyRow) where
  apart-ne-take_back {ℓ} :
      {A : Type ℓ} {detail : Text} {receipts : List Receipt} → apart detail ≡ take_back receipts → A
  apart-ne-take_back h = cc

  judge_spans-eq :
      (id : Text) (head : Receipt) (tip : Option StoredRow) (receipts : List Receipt)
      (found : Option Receipt) {back : List Receipt}
      → judge_spans p id head tip receipts found ≡ take_back back
      → receipts ≡ back
  judge_spans-eq id head tip receipts none h = cc
  judge_spans-eq id head tip receipts (some r) h = cc

  judge_taken-eq :
      (id : Text) (head : Receipt) (tip : Option StoredRow) (db : Database) (found : Taken)
      {back : List Receipt}
      → judge_taken p id head tip db found ≡ take_back back
      → (found ≡ taken back (hash_hex p head)) × (is_number (last_seq none back) head.seq ≡ true)
  unfolding judge_taken
  judge_taken-eq id head tip db (broken at_seq) h = cc
  judge_taken-eq id head tip db (taken receipts last) {back} h =
      elim (Bool-cases (
        not (is_number (last_seq none receipts) head.seq)
        || not (text_eq last (hash_hex p head)))) [
          | inl short ↦ apart-ne-take_back (rw short at (h))
          | inr whole ↦ elim (Bool-cases (is_deleted id db.admin_log)) [
            | inl gone ↦ apart-ne-take_back (rw (whole, gone) at (h))
            | inr present ↦
                let same : last ≡ hash_hex p head =
                  (text_eq_iff last (hash_hex p head)).0 (ground (arith, whole)) in
                let all =
                  judge_spans-eq id head tip receipts (span_taken id receipts db)
                    (rw (whole, present) at (h)) in
                let reached : is_number (last_seq none receipts) head.seq ≡ true =
                  ground (arith, whole) in
                (rw (all, same) refl, rw (← all) reached)
          ]
        ]

module _ (p : Platform) {σ : Type 0} (svc : SigningService σ) where
  -- What is taken back is what the loop took, from the number after the tip up to the head.
  judge_head-eq :
      (id : Text) (head : Receipt) (tip : Option StoredRow) (first_missing : ℕ)
      (journal : Option (List Receipt)) (db : Database) {back : List Receipt}
      → judge_head p svc id head tip first_missing journal db ≡ take_back back
      → (next_seq tip ≡ first_missing)
        × (take_missing p svc.key_id svc.public_key db.signing_keys id first_missing
              (next_prev tip)
              head.seq
              (missing_of p head first_missing journal)
            ≡ taken back (hash_hex p head))
        × (is_number (last_seq none back) head.seq ≡ true)
  unfolding judge_head
  judge_head-eq id head tip first_missing journal db h =
      let keys = db.signing_keys in
      let foreign =
        not (text_eq head.system_id id)
        || not (signed_under p head (key_for svc.key_id svc.public_key keys head)) in
      let behind = ltb head.seq (next_seq tip) || not (next_seq tip == first_missing) in
      elim (Bool-cases foreign) [
        | inl unknown ↦ apart-ne-take_back p svc.key_id svc.public_key keys (rw unknown at (h))
        | inr whole ↦ elim (Bool-cases (same_tip p tip head)) [
          | inl same ↦ let level : nothing ≡ take_back _ = rw (whole, same) at (h) in cc
          | inr other ↦ elim (Bool-cases behind) [
            | inl late ↦
                apart-ne-take_back p svc.key_id svc.public_key keys (rw (whole, other, late) at (h))
            | inr ahead ↦
                let (found, reached) =
                  judge_taken-eq p svc.key_id svc.public_key keys id head tip db _
                    (rw (whole, other, ahead) at (h)) in
                ((==_iff (next_seq tip) first_missing).0 (ground (arith, ahead)), found, reached)
          ]
        ]
      ]

  pub judge-eq :
      (id : Text) (head : Option Receipt) (tip : Option StoredRow) (first_missing : ℕ)
      (journal : Option (List Receipt)) (db : Database) {back : List Receipt}
      → judge p svc id head tip first_missing journal db ≡ take_back back
      → (newest : Receipt) × (head ≡ some newest)
        × (next_seq tip ≡ first_missing)
        × (take_missing p svc.key_id svc.public_key db.signing_keys id first_missing
              (next_prev tip)
              newest.seq
              (missing_of p newest first_missing journal)
            ≡ taken back (hash_hex p newest))
        × (is_number (last_seq none back) newest.seq ≡ true)
  unfolding judge
  judge-eq id none none first_missing journal db h = cc
  judge-eq id none (some tip) first_missing journal db h = cc
  judge-eq id (some head) tip first_missing journal db h =
      let found = judge_head-eq id head tip first_missing journal db h in
      (head, refl, found.0, found.1, found.2)

  judge_spans-ne-nothing :
      (id : Text) (head : Receipt) (tip : Option StoredRow) (receipts : List Receipt)
      (found : Option Receipt)
      → judge_spans p id head tip receipts found ≢ nothing
  judge_spans-ne-nothing id head tip receipts none h = cc
  judge_spans-ne-nothing id head tip receipts (some r) h = cc

  judge_taken-ne-nothing :
      (id : Text) (head : Receipt) (tip : Option StoredRow) (db : Database) (found : Taken)
      → judge_taken p id head tip db found ≢ nothing
  unfolding judge_taken
  judge_taken-ne-nothing id head tip db (broken seq) h = cc
  judge_taken-ne-nothing id head tip db (taken receipts last) h =
      elim (Bool-cases (
        not (is_number (last_seq none receipts) head.seq)
        || not (text_eq last (hash_hex p head)))) [
          | inl short ↦ let e : apart _ ≡ nothing = rw short at (h) in cc
          | inr whole ↦ elim (Bool-cases (is_deleted id db.admin_log)) [
            | inl gone ↦ let e : apart _ ≡ nothing = rw (whole, gone) at (h) in cc
            | inr present ↦
                judge_spans-ne-nothing id head tip receipts (span_taken id receipts db)
                  (rw (whole, present) at (h))
          ]
        ]

  -- There is nothing to do where neither side has receipts, or where the tip is the head.
  pub judge-nothing :
      (id : Text) (head : Option Receipt) (tip : Option StoredRow) (first_missing : ℕ)
      (journal : Option (List Receipt)) (db : Database)
      → judge p svc id head tip first_missing journal db ≡ nothing
      → (head ≡ none) ⊎ ((r : Receipt) × (head ≡ some r) × (same_tip p tip r ≡ true))
  unfolding judge judge_head
  judge-nothing id none none first_missing journal db h = inl refl
  judge-nothing id none (some tip) first_missing journal db h = inl refl
  judge-nothing id (some head) tip first_missing journal db h =
      let keys = db.signing_keys in
      let foreign =
        not (text_eq head.system_id id)
        || not (signed_under p head (key_for svc.key_id svc.public_key keys head)) in
      let behind = ltb head.seq (next_seq tip) || not (next_seq tip == first_missing) in
      elim (Bool-cases foreign) [
        | inl unknown ↦ let e : apart _ ≡ nothing = rw unknown at (h) in cc
        | inr whole ↦ elim (Bool-cases (same_tip p tip head)) [
          | inl same ↦ inr (head, refl, same)
          | inr other ↦ elim (Bool-cases behind) [
            | inl late ↦ let e : apart _ ≡ nothing = rw (whole, other, late) at (h) in cc
            | inr ahead ↦
                absurd (judge_taken-ne-nothing id head tip db _ (rw (whole, other, ahead) at (h)))
          ]
        ]
      ]

  -- What is taken back follows the tip, under known keys.
  pub judge-Follow :
      (id : Text) (head : Option Receipt) (tip : Option StoredRow) (first_missing : ℕ)
      (journal : Option (List Receipt)) (db : Database) {back : List Receipt}
      → public_key_for svc.key_id db.signing_keys ≡ some svc.public_key
      → judge p svc id head tip first_missing journal db ≡ take_back back
      → (last : Text) × Follow p svc.key_id svc.public_key db.signing_keys id
          (next_seq tip)
          (next_prev tip)
          back
          last
  judge-Follow id head tip first_missing journal db known h =
      let (newest, _, place, found, _) = judge-eq id head tip first_missing journal db h in
      (
        hash_hex p newest,
        take_missing-Follow p svc.key_id svc.public_key db.signing_keys known id (next_seq tip)
            (next_prev tip) newest.seq (missing_of p newest first_missing journal) (rw place found),
      )
