-- ===== src/Store/Prepare.antt =====
-- store.ts: what an event becomes before its position is known, and the receipt it becomes after a
-- tip. Randomness is drawn by the caller.
use sigillo.Common.{
  ℕ, ◌+◌, ◌*◌, Bool, true, false, not, ◌&&◌, Option, none, some, List, [], ◌∷◌, length, leb, ltb,
  ◌==◌, if◌then◌else◌, Result, ok, err, ◌>>=◌, ◌>>◌, guard,
}
use sigillo.Crypto.{Bytes}
use sigillo.Text.{Text, codes, text_eq, is_well_formed}
use sigillo.Json.{Json}
use sigillo.Hex.{to_hex, all_hex}
use sigillo.Platform.{Platform, canonical_receipt_bytes}
use sigillo.Privacy.{PrivacyError, is_pseudonym, pseudonym_from_random, salted_digest}
use sigillo.Receipt.{Actor, UnsignedReceipt, plain, salted, v4, receipt_json}
use sigillo.Receipt.Schema.{valid_unsigned}
use sigillo.Signer.{all_well_formed, genesis_prev_hash}
use sigillo.Store.{
  ChainEvent, Digest, Prepared, StoredRow, SubjectRow, Database, StoreError, storage_error,
  format_error, constraint_error, find_subject,
}

-- The random bytes that one attempt at a receipt may use.
pub record Random : Type 0 where
  pub input_nonce : Bytes
  pub output_nonce : Bytes
  pub token : Bytes

abbrev pub nonce_kept_by_customer : Text
nonce_kept_by_customer = codes "customer"

abbrev pub max_receipt_bytes : ℕ
max_receipt_bytes = 192 * 1024

-- What randomness of the right length never fails on.
abbrev pub sized_random {ℓ} : {A : Type ℓ} → Result PrivacyError A → Result StoreError A
sized_random (ok value) = ok value
sized_random (err _) = err storage_error

-- `normaliseSubjectIdentifier`
unfoldable pub normalise_subject_identifier : Platform → Text → Result StoreError Text
normalise_subject_identifier p value = do
  guard (is_well_formed value) storage_error
  let normalised = p.normalise value
  guard (leb 1 (length normalised)) storage_error
  guard (leb (length normalised) 256) storage_error
  ok normalised

abbrev is_given {ℓ} : {A : Type ℓ} → Option A → Bool
is_given none = false
is_given (some _) = true

abbrev plain_digest : Option Text → Digest
plain_digest none = record { hash = none; scheme = none; nonce = none }
plain_digest (some hash) = record { hash = some hash; scheme = some plain; nonce = none }

-- The nonce of a client is kept, or the customer kept it.
abbrev client_digest : Text → Text → Result StoreError Digest
client_digest hash nonce =
    if length nonce == 64 && all_hex nonce && not (text_eq nonce nonce_kept_by_customer)
    then ok (record { hash = some hash; scheme = some salted; nonce = some nonce })
    else if text_eq nonce nonce_kept_by_customer
    then ok (record { hash = some hash; scheme = some salted; nonce = none })
    else err storage_error

abbrev with_token : Actor → Text → Actor
with_token actor token = record actor { on_behalf_of = some token }

unfoldable pub has_token : Text → List SubjectRow → Bool
has_token token [] = false
has_token token (row ∷ rows) = if text_eq row.token token then true else has_token token rows

-- The token is the table's key; the identifier is not in the table.
unfoldable pub insert_subject : Text → Text → Text → Database → Result StoreError Database
unfolding has_token
insert_subject token identifier ts db =
    if has_token token db.subjects
    then err constraint_error
    else ok (record db {
      subjects = record { token = token; identifier = identifier; created_at = ts } ∷ db.subjects;
    })

unfoldable pub new_subject :
    Actor → Text → Text → Bool → Bytes → Database → Result StoreError (Actor × Database)
unfolding insert_subject
new_subject actor identifier ts write random db = do
  token ← sized_random (pseudonym_from_random random)
  db' ← if write then insert_subject token identifier ts db else ok db
  ok (with_token actor token, db')

abbrev pub known_subject :
    Actor
    → Text
    → Text
    → Bool
    → Bytes
    → Database
    → Option SubjectRow
    → Result StoreError (Actor × Database)
known_subject actor identifier ts write random db (some row) = ok (with_token actor row.token, db)
known_subject actor identifier ts write random db none =
    new_subject actor identifier ts write random db

-- The number, the link and the time that a tip gives the next receipt.
pub record Position : Type 0 where
  pub seq : ℕ
  pub prev_hash : Text
  pub ts_received : Text

abbrev pub unsigned_of : ChainEvent → Position → Text → Prepared → UnsignedReceipt
unsigned_of event position key_id prepared = record {
  v = v4;
  system_id = event.system_id;
  seq = position.seq;
  ts_event = event.ts_event;
  ts_received = position.ts_received;
  actor = prepared.actor;
  action = event.action;
  input_hash = prepared.input.hash;
  output_hash = prepared.output.hash;
  input_hash_scheme = prepared.input.scheme;
  output_hash_scheme = prepared.output.scheme;
  outcome = event.outcome;
  source = event.source;
  prev_hash = position.prev_hash;
  key_id = key_id;
  artifacts = event.artifacts;
  model = event.model;
}

-- The position is a stand-in: after a tip numbered 0.
abbrev stand_in : Text → Position
stand_in ts = record { seq = 1; prev_hash = genesis_prev_hash; ts_received = ts }

module _ (p : Platform) where
  unfoldable pub digest_for :
      Option Text → Option Json → Option Text → Bytes → Result StoreError Digest
  digest_for (some hash) (some value) client_nonce random = err storage_error
  digest_for none raw (some nonce) random = err storage_error
  digest_for (some hash) none (some nonce) random = client_digest hash nonce
  digest_for client_hash none none random = ok (plain_digest client_hash)
  digest_for none (some value) none random = do
    hash ← sized_random (salted_digest p random value)
    ok (record { hash = some hash; scheme = some salted; nonce = some (to_hex random) })

  abbrev pub named_person :
      Actor → Option Text → Text → Bool → Bytes → Database → Result StoreError (Actor × Database)
  named_person actor none ts write random db = ok (actor, db)
  named_person actor (some named) ts write random db =
      if is_pseudonym named
      then ok (actor, db)
      else (normalise_subject_identifier p named >>= λ identifier.
          known_subject actor identifier ts write random db (find_subject identifier db.subjects))

  unfoldable pub pseudonymous :
      Actor → Text → Bool → Bytes → Database → Result StoreError (Actor × Database)
  pseudonymous actor ts write random db = named_person actor actor.on_behalf_of ts write random db

  -- `prepare`
  unfoldable pub prepare :
      ChainEvent → Bool → Random → Database → Result StoreError (Prepared × Database)
  prepare event write random db = do
    (actor, db') ← pseudonymous event.actor event.ts_received write random.token db
    input ← digest_for event.input_hash event.raw_input event.input_nonce random.input_nonce
    output ← digest_for event.output_hash event.raw_output event.output_nonce random.output_nonce
    ok (record { actor = actor; input = input; output = output }, db')

  abbrev pub position_after : Option StoredRow → Text → Position
  position_after none ts = record { seq = 0; prev_hash = genesis_prev_hash; ts_received = ts }
  position_after (some tip) ts = record {
    seq = tip.receipt.seq + 1;
    prev_hash = tip.hash;
    ts_received =
        if ltb (p.date_parse ts) (p.date_parse tip.receipt.ts_received)
        then tip.receipt.ts_received
        else ts;
  }

  unfoldable pub build_unsigned :
      ChainEvent → Position → Text → Prepared → Result StoreError UnsignedReceipt
  build_unsigned event position key_id prepared = do
    let unsigned = unsigned_of event position key_id prepared
    guard (valid_unsigned p unsigned) format_error
    guard (all_well_formed (receipt_json unsigned)) storage_error
    guard (leb (length (canonical_receipt_bytes p unsigned)) max_receipt_bytes) storage_error
    ok unsigned

  unfoldable pub check_event : ChainEvent → Text → Random → Database → Result StoreError (Unit {0})
  check_event event key_id random db = do
    (prepared, _) ← prepare event false random db
    _ ← build_unsigned event (stand_in event.ts_received) key_id prepared
    ok tt
