-- ===== src/Examples/Resends.antt =====
-- The store at concrete inputs: a batch sent twice, and a receipt lost between signer and database.
use sigillo.Common.{Result, ok, err, ◌≡◌, refl, none, some, List, [], ◌∷◌, replicate}
use sigillo.Text.{text_eq, is_well_formed, is_high_surrogate, is_low_surrogate}
use sigillo.Hex.{to_hex, byte_to_hex, hex_digit, all_hex, is_hex}
use sigillo.Base64.{is_signature_text, padded_twice, is_base64_char}
use sigillo.Receipt
use sigillo.Receipt.{Receipt}
use sigillo.Receipt.Schema.{
  valid_receipt, valid_unsigned, valid_signature, is_iso_timestamp, matches, valid_artifact_list,
  schemes_match_digests,
}
use sigillo.Platform.{receipt_hash, canonical_receipt_bytes}
use sigillo.Signing.{verify_receipt_signature, verify_digest_signature}
use sigillo.Signer.{all_well_formed}
use sigillo.Store.{
  StoreError, ChainEvent, tip_of, highest, find_span, is_deleted, public_key_for, find_subject,
  read_chain,
}
use sigillo.Store.Prepare.{
  prepare, pseudonymous, digest_for, build_unsigned, check_event, has_token, insert_subject,
  new_subject, normalise_subject_identifier,
}
use sigillo.Store.Service.{SigningService}
use sigillo.Store.Insert.{
  hash_hex, insert_receipt, propose, accept, insert_row, violates, artifact_rows, register_system,
  has_system,
}
use sigillo.Store.Append.{Attempts, create_system, append, write_receipt, has_organization}
use sigillo.Store.Chain.{row_of}
use sigillo.Store.Runs.{created, start, next}
use sigillo.Examples.{toy_platform, digits}
use sigillo.Store.Append.{Batch, write_batch}
use sigillo.Store.Runs.{Run-Advances}
use sigillo.Store.Judge.{span_taken}
use sigillo.Store.Reconcile.{recovered, reconcile_now}
use sigillo.Store.Lost.{IsLost, lost_receipt_recovered}
use sigillo.Store.Resend.{NamesSpan}
use sigillo.Store.Again.{resent_batch}
use sigillo.Examples.Stores.{
  service, opened, after_genesis, event, attempts, draw, genesis_row, event_receipt, system, noon,
  opened-IsWellFormed,
}

abbrev span_event : ChainEvent
span_event = record event {
  source = record {
    type = Receipt.otlp;
    trace_id = some (replicate 32 b'a');
    span_id = some (replicate 16 b'b');
  };
}

abbrev batch : List (ChainEvent × Attempts)
batch = (span_event, attempts) ∷ []

abbrev other_attempts : Attempts
other_attempts = record attempts { first = record draw { token = replicate 32 4 } }

abbrev same_batch : List (ChainEvent × Attempts)
same_batch = (span_event, other_attempts) ∷ []

abbrev batch_of : Result StoreError Batch → Batch
batch_of (ok sent) = sent
batch_of (err _) = record { receipts = []; duplicates = 0 }

after_genesis-write_batch :
    (write_batch toy_platform service batch after_genesis).0
    ≡ ok (batch_of (write_batch toy_platform service batch after_genesis).0)
unfolding write_batch read_chain create_system append write_receipt insert_receipt propose accept
    insert_row violates artifact_rows register_system has_system tip_of highest find_span is_deleted
    public_key_for find_subject prepare pseudonymous digest_for build_unsigned check_event has_token
    insert_subject new_subject normalise_subject_identifier valid_receipt valid_unsigned
    valid_signature is_iso_timestamp matches valid_artifact_list schemes_match_digests receipt_hash
    canonical_receipt_bytes verify_receipt_signature verify_digest_signature all_well_formed text_eq
    is_well_formed is_high_surrogate is_low_surrogate to_hex byte_to_hex hex_digit all_hex is_hex
    is_signature_text padded_twice is_base64_char digits has_organization Receipt.receipt_json
after_genesis-write_batch = refl

span_event-NamesSpan : NamesSpan span_event
span_event-NamesSpan = record {
  trace = replicate 32 b'a';
  span = replicate 16 b'b';
  traced = refl;
  spanned = refl;
}

resent_batch_example :
    (resent : Batch) × (write_batch toy_platform service same_batch
        (write_batch toy_platform service batch after_genesis).1
      ≡ (ok resent, (write_batch toy_platform service batch after_genesis).1))
    × (resent.duplicates ≡ 1)
resent_batch_example =
    resent_batch toy_platform service opened.db.signing_keys batch same_batch after_genesis
      (Run-Advances toy_platform service opened.db.signing_keys
        (next opened after_genesis start (created system noon none attempts)) opened-IsWellFormed).0
      (span_event-NamesSpan, tt) after_genesis-write_batch refl

-- The service signed the event's receipt, and its answer never arrived.
abbrev ahead : SigningService (Unit {0})
ahead = record service { head = λ id s. (ok (some event_receipt), s) }

after_genesis-tip_of : tip_of system after_genesis.db ≡ some genesis_row
unfolding read_chain create_system append write_receipt insert_receipt propose accept insert_row
    violates artifact_rows register_system has_system tip_of highest find_span is_deleted
    public_key_for find_subject prepare pseudonymous digest_for build_unsigned check_event has_token
    insert_subject new_subject normalise_subject_identifier valid_receipt valid_unsigned
    valid_signature is_iso_timestamp matches valid_artifact_list schemes_match_digests receipt_hash
    canonical_receipt_bytes verify_receipt_signature verify_digest_signature all_well_formed text_eq
    is_well_formed is_high_surrogate is_low_surrogate to_hex byte_to_hex hex_digit all_hex is_hex
    is_signature_text padded_twice is_base64_char digits has_organization Receipt.receipt_json
after_genesis-tip_of = refl

event_receipt-IsLost : IsLost toy_platform ahead system genesis_row event_receipt after_genesis.db
unfolding span_taken read_chain create_system append write_receipt insert_receipt propose accept
    insert_row violates artifact_rows register_system has_system tip_of highest find_span is_deleted
    public_key_for find_subject prepare pseudonymous digest_for build_unsigned check_event has_token
    insert_subject new_subject normalise_subject_identifier valid_receipt valid_unsigned
    valid_signature is_iso_timestamp matches valid_artifact_list schemes_match_digests receipt_hash
    canonical_receipt_bytes verify_receipt_signature verify_digest_signature all_well_formed text_eq
    is_well_formed is_high_surrogate is_low_surrogate to_hex byte_to_hex hex_digit all_hex is_hex
    is_signature_text padded_twice is_base64_char digits has_organization Receipt.receipt_json
event_receipt-IsLost = record {
  own = refl;
  numbered = refl;
  linked = refl;
  signed = refl;
  present = refl;
  new_span = refl;
  fits = refl;
}

lost_receipt_recovered_example :
    ((reconcile_now toy_platform ahead noon system after_genesis).0
      ≡ ok (recovered 1 (hash_hex toy_platform event_receipt) 1))
    × ((reconcile_now toy_platform ahead noon system after_genesis).1.db.receipts
        ≡ row_of toy_platform event_receipt ∷ after_genesis.db.receipts)
lost_receipt_recovered_example =
    lost_receipt_recovered toy_platform ahead noon system after_genesis tt genesis_row event_receipt
      refl after_genesis-tip_of event_receipt-IsLost
