-- ===== src/Store/Insert.antt =====
-- store.ts: `insertReceipt` and `insertRow`. What precedes the call of the signer and what follows it
-- are functions of the database; `insert_receipt` puts the call between them.
use sigillo.Common.{
  Bool, true, false, not, ◌&&◌, ◌||◌, Option, none, some, List, [], ◌∷◌, ◌==◌, if◌then◌else◌,
  Result, ok, err, ◌>>=◌, ◌>>◌, guard,
}
use sigillo.Crypto.{Bytes}
use sigillo.Text.{Text, text_eq}
use sigillo.Hex.{to_hex}
use sigillo.Platform.{Platform, receipt_hash}
use sigillo.Signing.{verify_receipt_signature}
use sigillo.Receipt.{Receipt, UnsignedReceipt, Artifact, ArtifactRole, input, output, Version, v1}
use sigillo.Receipt.Schema.{valid_receipt}
use sigillo.Store.{
  ChainEvent, Digest, Prepared, StoredRow, SystemRow, ArtifactRow, OpeningRow, Database, StoreError,
  storage_error, format_error, constraint_error, unavailable, refused_by_signer, tip_of, find_span,
  same_text,
}
use sigillo.Store.Prepare.{Random, prepare, position_after, build_unsigned}
use sigillo.Store.Service.{
  SigningService, SigningError, signer_refused, signer_unavailable, StoreState,
}

pub data Mode : Type 0 where
  genesis_mode continuation : Mode

abbrev pub hash_hex : Platform → Receipt → Text
hash_hex p r = to_hex (receipt_hash p r.unsigned)

-- A span that both rows name.
abbrev same_option : Option Text → Option Text → Bool
same_option none other = false
same_option (some text) other = same_text other text

abbrev clashes : StoredRow → StoredRow → Bool
clashes new row =
    text_eq row.hash new.hash
    || text_eq row.receipt.system_id new.receipt.system_id
      && (row.receipt.seq == new.receipt.seq
          || same_option new.receipt.source.trace_id row.receipt.source.trace_id
            && same_option new.receipt.source.span_id row.receipt.source.span_id)

-- `UNIQUE (system_id, seq)`, `UNIQUE (hash)` and the index `receipts_by_source`
unfoldable pub violates : StoredRow → List StoredRow → Bool
violates new [] = false
violates new (row ∷ rows) = if clashes new row then true else violates new rows

abbrev add_nonce : Receipt → ArtifactRole → Option Text → List OpeningRow → List OpeningRow
add_nonce r role none rows = rows
add_nonce r role (some nonce) rows =
    record { system_id = r.system_id; seq = r.seq; role = role; nonce = nonce } ∷ rows

abbrev opening_rows : Receipt → ArtifactRole → Option Digest → List OpeningRow → List OpeningRow
opening_rows r role none rows = rows
opening_rows r role (some digest) rows = add_nonce r role digest.nonce rows

unfoldable pub artifact_rows : Receipt → List Artifact → List ArtifactRow → List ArtifactRow
artifact_rows r [] rows = rows
artifact_rows r (a ∷ artifacts) rows =
    artifact_rows r artifacts (record { system_id = r.system_id; seq = r.seq; artifact = a } ∷ rows)

abbrev pub has_artifacts : Version → Option (List Artifact) → List Artifact
has_artifacts v1 artifacts = []
has_artifacts v none = []
has_artifacts v (some artifacts) = artifacts

abbrev input_of : Option Prepared → Option Digest
input_of none = none
input_of (some prepared) = some prepared.input

abbrev output_of : Option Prepared → Option Digest
output_of none = none
output_of (some prepared) = some prepared.output

pub data Proposal : Type 0 where
  already : Receipt → Proposal
  fresh : UnsignedReceipt → Prepared → Database → Proposal

abbrev pub signing_error : SigningError → StoreError
signing_error (signer_refused code) = refused_by_signer code
signing_error signer_unavailable = unavailable

pub record Written : Type 0 where
  pub receipt : Receipt
  pub duplicate : Bool

-- `registerStatement`: the identifier is the table's key.
unfoldable pub has_system : Text → List SystemRow → Bool
has_system id [] = false
has_system id (row ∷ rows) = if text_eq row.system_id id then true else has_system id rows

-- The span of an event whose two identifiers are given, if it is on the chain.
abbrev pub duplicate_of :
    Mode → ChainEvent → Option Text → Option Text → Database → Option StoredRow
duplicate_of continuation event (some trace) (some span) db =
    find_span event.system_id trace span db.receipts
duplicate_of _ event trace span db = none

abbrev pub check_mode : Mode → Option StoredRow → Result StoreError (Unit {0})
check_mode genesis_mode none = ok tt
check_mode genesis_mode (some _) = err storage_error
check_mode continuation none = err storage_error
check_mode continuation (some _) = ok tt

unfoldable pub register_system : Text → Text → Option Text → Database → Result StoreError Database
register_system id ts organization_id db = do
  guard (not (has_system id db.systems)) constraint_error
  ok (record db {
    systems =
        record { system_id = id; created_at = ts; organization_id = organization_id } ∷ db.systems;
  })

abbrev pub registered : Mode → ChainEvent → Option Text → Database → Result StoreError Database
registered genesis_mode event organization_id db =
    register_system event.system_id event.ts_received organization_id db
registered continuation event organization_id db = ok db

module _ (p : Platform) where
  unfoldable pub insert_row : Receipt → Option Prepared → Database → Result StoreError Database
  insert_row r digests db = do
    let row : StoredRow = record { receipt = r; hash = hash_hex p r }
    guard (not (violates row db.receipts)) constraint_error
    ok (record db {
      receipts = row ∷ db.receipts;
      openings =
          opening_rows r output (output_of digests)
            (opening_rows r input (input_of digests) db.openings);
      artifacts = artifact_rows r (has_artifacts r.v r.artifacts) db.artifacts;
    })

  -- Up to the call of the signer.
  abbrev pub proposed :
      ChainEvent → Mode → Text → Random → Database → Option StoredRow → Result StoreError Proposal
  proposed event mode key_id random db (some row) = ok (already row.receipt)
  proposed event mode key_id random db none = do
    let tip = tip_of event.system_id db
    _ ← check_mode mode tip
    (prepared, db') ← prepare p event true random db
    unsigned ← build_unsigned p event (position_after p tip event.ts_received) key_id prepared
    ok (fresh unsigned prepared db')

  unfoldable pub propose : ChainEvent → Mode → Text → Random → Database → Result StoreError Proposal
  propose event mode key_id random db =
      proposed event mode key_id random db
        (duplicate_of mode event event.source.trace_id event.source.span_id db)

  -- From the signature on.
  unfoldable pub accept :
      ChainEvent
      → Mode
      → Option Text
      → Bytes
      → UnsignedReceipt
      → Prepared
      → Database
      → Text
      → Result StoreError (Receipt × Database)
  accept event mode organization_id public_key unsigned prepared db sig = do
    let receipt : Receipt = record { unsigned = unsigned; sig = sig }
    guard (valid_receipt p receipt) format_error
    guard (verify_receipt_signature p receipt public_key) storage_error
    db' ← registered mode event organization_id db
    db'' ← insert_row receipt (some prepared) db'
    ok (receipt, db'')

  module _ {σ : Type 0} (svc : SigningService σ) where
    abbrev pub finish :
        StoreState σ
        → Result StoreError (Receipt × Database)
        → Result StoreError Written × StoreState σ
    finish s (err e) = (err e, s)
    finish s (ok (receipt, db)) =
        (ok (record { receipt = receipt; duplicate = false }), record s { db = db })

    abbrev pub with_signature :
        ChainEvent
        → Mode
        → Option Text
        → UnsignedReceipt
        → Prepared
        → Database
        → StoreState σ
        → Result SigningError Text × σ
        → Result StoreError Written × StoreState σ
    with_signature event mode organization_id unsigned prepared db s (err e, service) =
        (err (signing_error e), record s { service = service })
    with_signature event mode organization_id unsigned prepared db s (ok sig, service) =
        finish (record s { service = service })
          (accept event mode organization_id svc.public_key unsigned prepared db sig)

    abbrev pub send :
        ChainEvent
        → Mode
        → Option Text
        → StoreState σ
        → Result StoreError Proposal
        → Result StoreError Written × StoreState σ
    send event mode organization_id s (err e) = (err e, s)
    send event mode organization_id s (ok (already receipt)) =
        (ok (record { receipt = receipt; duplicate = true }), s)
    send event mode organization_id s (ok (fresh unsigned prepared db)) =
        with_signature event mode organization_id unsigned prepared db s
          (svc.sign_receipt unsigned s.service)

    -- In a transaction: on an error the database is the one before.
    unfoldable pub insert_receipt :
        ChainEvent
        → Mode
        → Option Text
        → Random
        → StoreState σ
        → Result StoreError Written × StoreState σ
    insert_receipt event mode organization_id random s =
        send event mode organization_id s (propose event mode svc.key_id random s.db)
