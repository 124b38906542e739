-- ===== src/Store/Keeps.antt =====
-- What the steps before and after the signer's call leave of the database as it was: the rows of
-- receipts and the keys on file.
use sigillo.Common.{
  ◌≡◌, refl, sym, ap, Bool, leb, length, not, Option, none, some, if◌then◌else◌, ok, >>=-eq-ok,
  guard-eq-ok, Bool-cases, inl, inr, err-ne-ok, ok-injective, Result,
}
use sigillo.Crypto.{Bytes}
use sigillo.Text.{Text}
use sigillo.Platform.{canonical_receipt_bytes, Platform}
use sigillo.Privacy.{pseudonym_from_random, is_pseudonym}
use sigillo.Receipt.{receipt_json, Actor, UnsignedReceipt}
use sigillo.Receipt.Schema.{valid_unsigned}
use sigillo.Signer.{all_well_formed}
use sigillo.Store.{
  ChainEvent, Prepared, StoredRow, SubjectRow, Database, StoreError, constraint_error, format_error,
  storage_error, tip_of, find_subject,
}
use sigillo.Store.Prepare.{
  sized_random, digest_for, normalise_subject_identifier, max_receipt_bytes, Random, insert_subject,
  new_subject, known_subject, named_person, pseudonymous, prepare, has_token, Position,
  position_after, build_unsigned, unsigned_of,
}
use sigillo.Store.Insert.{has_system, Mode, genesis_mode, continuation, register_system, registered}
use sigillo.Store.Judge.{next_seq, next_prev}

pub record Keeps (before after : Database) : Type 0 where
  pub same_receipts : after.receipts ≡ before.receipts
  pub same_keys : after.signing_keys ≡ before.signing_keys

pub Keeps-refl : (db : Database) → Keeps db db
Keeps-refl db = record { same_receipts = refl; same_keys = refl }

abbrev stored {ℓ} : {A : Type ℓ} → A → Result StoreError A
stored value = ok value

-- What a result says of the rows and of the keys.
receipts_of : {a b : Database} → stored a ≡ ok b → b.receipts ≡ a.receipts
receipts_of h = ap (λ (d : Database). d.receipts) (sym (ok-injective h))

keys_of : {a b : Database} → stored a ≡ ok b → b.signing_keys ≡ a.signing_keys
keys_of h = ap (λ (d : Database). d.signing_keys) (sym (ok-injective h))

pub Keeps-eq : {a b : Database} → a ≡ b → Keeps a b
Keeps-eq {a} e = rw e (Keeps-refl _)

pub tip_of-Keeps : (id : Text) {a b : Database} → Keeps a b → tip_of id b ≡ tip_of id a
unfolding tip_of
tip_of-Keeps id k = rw k.same_receipts refl

ok-Keeps : {a b : Database} → stored a ≡ ok b → Keeps a b
ok-Keeps h = Keeps-eq (ok-injective h)

pair-Keeps {ℓ} :
    {A : Type ℓ} {value : A} {db : Database} {end : A × Database}
    → stored (value, db) ≡ ok end
    → Keeps db end.1
pair-Keeps {A} h = Keeps-eq (ap (λ (pair : A × Database). pair.1) (ok-injective h))

Keeps-before : {a b c : Database} → Keeps a b → b ≡ c → Keeps a c
Keeps-before k e = rw (← e) k

insert_subject-Keeps :
    (token identifier ts : Text) (db : Database) {end : Database}
    → insert_subject token identifier ts db ≡ ok end
    → Keeps db end
unfolding insert_subject
insert_subject-Keeps token identifier ts db h = elim (Bool-cases (has_token token db.subjects)) [
  | inl taken ↦ elim (err-ne-ok (rw taken at (h))) [ ]
  | inr free ↦ record {
    same_receipts = receipts_of (rw free at (h));
    same_keys = keys_of (rw free at (h));
  }
]

pub register_system-Keeps :
    (id ts : Text) (organization_id : Option Text) (db : Database) {end : Database}
    → register_system id ts organization_id db ≡ ok end
    → Keeps db end
unfolding register_system
register_system-Keeps id ts organization_id db h =
    let done = (guard-eq-ok (not (has_system id db.systems)) constraint_error _ h).1 in
    record { same_receipts = receipts_of done; same_keys = keys_of done }

pub registered-Keeps :
    (mode : Mode) (event : ChainEvent) (organization_id : Option Text) (db : Database)
    {end : Database}
    → registered mode event organization_id db ≡ ok end
    → Keeps db end
registered-Keeps genesis_mode event organization_id db h =
    register_system-Keeps _ _ organization_id db h
registered-Keeps continuation event organization_id db h = ok-Keeps h

new_subject-Keeps :
    (actor : Actor) (identifier ts : Text) (write : Bool) (random : Bytes) (db : Database)
    {end : Actor × Database}
    → new_subject actor identifier ts write random db ≡ ok end
    → Keeps db end.1
unfolding new_subject
new_subject-Keeps actor identifier ts write random db h =
    let (token, drawn, next) = >>=-eq-ok (sized_random (pseudonym_from_random random)) _ h in
    let (written, inserted, last) =
      >>=-eq-ok (if write then insert_subject token identifier ts db else ok db) _ next in
    Keeps-before
      (elim (Bool-cases write) [
        | inl wanted ↦ insert_subject-Keeps token identifier ts db (rw wanted at (inserted))
        | inr only ↦ ok-Keeps (rw only at (inserted))
      ])
      (ap (λ (pair : Actor × Database). pair.1) (ok-injective last))

module _ (p : Platform) where
  known_subject-Keeps :
      (actor : Actor) (identifier ts : Text) (write : Bool) (random : Bytes) (db : Database)
      (found : Option SubjectRow) {end : Actor × Database}
      → known_subject actor identifier ts write random db found ≡ ok end
      → Keeps db end.1
  known_subject-Keeps actor identifier ts write random db (some row) h = pair-Keeps h
  known_subject-Keeps actor identifier ts write random db none h =
      new_subject-Keeps actor identifier ts write random db h

  named_person-Keeps :
      (actor : Actor) (named : Option Text) (ts : Text) (write : Bool) (random : Bytes)
      (db : Database) {end : Actor × Database}
      → named_person p actor named ts write random db ≡ ok end
      → Keeps db end.1
  named_person-Keeps actor none ts write random db h = pair-Keeps h
  named_person-Keeps actor (some named) ts write random db h =
      elim (Bool-cases (is_pseudonym named)) [
        | inl token ↦ pair-Keeps (rw token at (h))
        | inr other ↦
            let (identifier, normal, next) =
              >>=-eq-ok (normalise_subject_identifier p named) _ (rw other at (h)) in
            known_subject-Keeps actor identifier ts write random db
              (find_subject identifier db.subjects) next
      ]

  pub prepare-Keeps :
      (event : ChainEvent) (write : Bool) (random : Random) (db : Database)
      {end : Prepared × Database}
      → prepare p event write random db ≡ ok end
      → Keeps db end.1
  unfolding prepare pseudonymous
  prepare-Keeps event write random db h =
      let (named, found, next) =
        >>=-eq-ok (pseudonymous p event.actor event.ts_received write random.token db) _ h in
      let (input, hashed, next') =
        >>=-eq-ok
          (digest_for p event.input_hash event.raw_input event.input_nonce random.input_nonce) _
          next in
      let (output, hashed', last) =
        >>=-eq-ok
          (digest_for p event.output_hash event.raw_output event.output_nonce random.output_nonce) _
          next' in
      Keeps-before
        (named_person-Keeps event.actor event.actor.on_behalf_of event.ts_received write
          random.token db found)
        (ap (λ (pair : Prepared × Database). pair.1) (ok-injective last))

  -- The receipt that is built stands at the position it was given.
  pub build_unsigned-eq :
      (event : ChainEvent) (position : Position) (key_id : Text) (prepared : Prepared)
      {end : UnsignedReceipt}
      → build_unsigned p event position key_id prepared ≡ ok end
      → unsigned_of event position key_id prepared ≡ end
  unfolding build_unsigned
  build_unsigned-eq event position key_id prepared h =
      let unsigned = unsigned_of event position key_id prepared in
      let shaped = guard-eq-ok (valid_unsigned p unsigned) format_error _ h in
      let formed = guard-eq-ok (all_well_formed (receipt_json unsigned)) storage_error _ shaped.1 in
      let sized =
        guard-eq-ok (leb (length (canonical_receipt_bytes p unsigned)) max_receipt_bytes)
          storage_error _ formed.1 in
      ok-injective sized.1

  pub position_after-seq :
      (tip : Option StoredRow) (ts : Text) → (position_after p tip ts).seq ≡ next_seq tip
  position_after-seq none ts = refl
  position_after-seq (some tip) ts = refl

  pub position_after-prev :
      (tip : Option StoredRow) (ts : Text) → (position_after p tip ts).prev_hash ≡ next_prev tip
  position_after-prev none ts = refl
  position_after-prev (some tip) ts = refl
