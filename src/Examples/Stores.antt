-- ===== src/Examples/Stores.antt =====
-- The store at concrete inputs: a system opened before a service that signs whatever it is sent, and
-- one event appended to its chain.
use sigillo.Common.{◌≡◌, ◌↔◌, refl, true, none, some, List, [], ◌∷◌, ◌++◌, ok, err, replicate, take}
use sigillo.Crypto.{Bytes}
use sigillo.Text.{Text, codes, text_eq, is_well_formed, is_high_surrogate, is_low_surrogate}
use sigillo.Hex.{to_hex, byte_to_hex, hex_digit, all_hex, is_hex}
use sigillo.Base64.{is_signature_text, padded_twice, is_base64_char}
use sigillo.Receipt
use sigillo.Receipt.{Receipt}
use sigillo.Receipt.Schema.{
  valid_receipt, valid_unsigned, valid_signature, is_iso_timestamp, matches, valid_artifact_list,
  schemes_match_digests,
}
use sigillo.Platform.{receipt_hash, canonical_receipt_bytes}
use sigillo.Signing.{verify_receipt_signature, verify_digest_signature}
use sigillo.Signer.{all_well_formed, is_genesis}
use sigillo.Verifier.{Manifest}
use sigillo.Verifier.Chain.{key_id_of, key_get, check_chain}
use sigillo.Store.{
  Digest, ChainEvent, Database, StoredRow, tip_of, highest, find_span, is_deleted, public_key_for,
  find_subject, chain_of, read_chain,
}
use sigillo.Store.Prepare.{
  Random, prepare, pseudonymous, digest_for, build_unsigned, unsigned_of, position_after,
  check_event, has_token, insert_subject, new_subject, normalise_subject_identifier,
}
use sigillo.Store.Service.{SigningService, signer_unavailable, StoreState, open_store, add_key}
use sigillo.Store.Insert.{
  hash_hex, insert_receipt, propose, accept, insert_row, violates, artifact_rows, register_system,
  has_system,
}
use sigillo.Store.Append.{
  genesis_event, Attempts, create_system, append, write_receipt, has_organization,
}
use sigillo.Store.Chain.{IsChain, IsWellFormed}
use sigillo.Store.Runs.{
  created, appended, Run, start, next, chains_kept, rows_kept, open_store-IsWellFormed,
}
use sigillo.Store.Ordered.{Publishes}
use sigillo.Store.Verified.{stored_chain_verifies}
use sigillo.Examples.{toy_platform, toy_signature, digits}

abbrev pub raw_key : Bytes
raw_key = replicate 32 5

abbrev pub key_name : Text
key_name = take 16 (to_hex (toy_platform.hash.sha256 raw_key))

-- It signs what it is sent, and remembers nothing.
abbrev pub service : SigningService (Unit {0})
service = record {
  key_id = key_name;
  public_key = raw_key;
  sign_receipt = λ unsigned s. (ok toy_signature, s);
  checkpoint = λ id s. (err signer_unavailable, s);
  head = λ id s. (ok none, s);
  receipts = λ id first count s. (err signer_unavailable, s);
}

abbrev pub empty_database : Database
empty_database = record {
  receipts = [];
  systems = [];
  organizations = [];
  artifacts = [];
  openings = [];
  subjects = [];
  checkpoints = [];
  signing_keys = [];
  admin_log = [];
}

abbrev pub opened : StoreState (Unit {0})
opened = record {
  db = record empty_database { signing_keys = add_key key_name raw_key [] none };
  divergences = [];
  service = tt;
}

open_store-ok : open_store toy_platform service empty_database ≡ ok opened.db
unfolding open_store key_id_of text_eq to_hex byte_to_hex hex_digit digits public_key_for
open_store-ok = refl

abbrev pub system : Text
system = codes "b"

abbrev pub noon : Text
noon = codes "2026-01-01T12:00:00.000Z"

abbrev pub draw : Random
draw = record {
  input_nonce = replicate 32 1;
  output_nonce = replicate 32 2;
  token = replicate 32 3;
}

abbrev pub attempts : Attempts
attempts = record { first = draw; second = draw; now = noon }

abbrev pub after_genesis : StoreState (Unit {0})
after_genesis = (create_system toy_platform service system noon none attempts opened).1

abbrev pub event : ChainEvent
event = record {
  system_id = system;
  ts_event = noon;
  ts_received = noon;
  actor = record { agent = codes "g"; on_behalf_of = none };
  action = record { kind = Receipt.tool_call; name = codes "n" };
  input_hash = none;
  output_hash = none;
  raw_input = none;
  raw_output = none;
  input_nonce = none;
  output_nonce = none;
  outcome = Receipt.ok;
  source = record { type = Receipt.api; trace_id = none; span_id = none };
  artifacts = none;
  model = none;
}

abbrev after_event : StoreState (Unit {0})
after_event = (append toy_platform service event draw empty_database attempts after_genesis).1

abbrev pub short_run : Run toy_platform service opened after_event
short_run =
    next after_genesis after_event
      (next opened after_genesis start (created system noon none attempts))
      (appended event draw empty_database attempts)

abbrev nothing_sent : Digest
nothing_sent = record { hash = none; scheme = none; nonce = none }

-- The two receipts.
abbrev pub genesis_receipt : Receipt
genesis_receipt = record {
  unsigned =
      unsigned_of (genesis_event system noon) (position_after toy_platform none noon) key_name
        (record {
          actor = record { agent = system; on_behalf_of = none };
          input = nothing_sent;
          output = nothing_sent;
        });
  sig = toy_signature;
}

abbrev pub genesis_row : StoredRow
genesis_row = record { receipt = genesis_receipt; hash = hash_hex toy_platform genesis_receipt }

abbrev pub event_receipt : Receipt
event_receipt = record {
  unsigned =
      unsigned_of event (position_after toy_platform (some genesis_row) noon) key_name
        (record { actor = event.actor; input = nothing_sent; output = nothing_sent });
  sig = toy_signature;
}

after_event-read_chain : read_chain system after_event.db ≡ genesis_receipt ∷ event_receipt ∷ []
unfolding read_chain create_system append write_receipt insert_receipt propose accept insert_row
    violates artifact_rows register_system has_system tip_of highest find_span is_deleted
    public_key_for find_subject prepare pseudonymous digest_for build_unsigned check_event has_token
    insert_subject new_subject normalise_subject_identifier valid_receipt valid_unsigned
    valid_signature is_iso_timestamp matches valid_artifact_list schemes_match_digests receipt_hash
    canonical_receipt_bytes verify_receipt_signature verify_digest_signature all_well_formed text_eq
    is_well_formed is_high_surrogate is_low_surrogate to_hex byte_to_hex hex_digit all_hex is_hex
    is_signature_text padded_twice is_base64_char digits has_organization Receipt.receipt_json
after_event-read_chain = refl

no_key : public_key_for key_name [] ≡ none
unfolding public_key_for
no_key = refl

chains_kept_example :
    IsChain toy_platform opened.db.signing_keys (chain_of system after_event.db.receipts)
chains_kept_example =
    chains_kept toy_platform service empty_database refl no_key open_store-ok short_run system

pub opened-IsWellFormed :
    IsWellFormed toy_platform key_name raw_key opened.db.signing_keys opened.db
opened-IsWellFormed =
    open_store-IsWellFormed toy_platform service empty_database refl no_key open_store-ok

rows_kept_example : (added : List StoredRow) × (after_event.db.receipts ≡ added ++ [])
rows_kept_example = rows_kept toy_platform service opened-IsWellFormed short_run

abbrev manifest : Manifest
manifest = record {
  receipt_version = 4;
  system_id = system;
  from_seq = 0;
  to_seq = 1;
  from_ts = noon;
  to_ts = noon;
  receipts = 2;
  checkpoints = 0;
  timestamps = 0;
  keys = [];
}

key_published : Publishes toy_platform opened.db.signing_keys ((key_name, raw_key) ∷ [])
unfolding public_key_for key_get
key_published key_id raw h = h

stored_chain_verifies_example :
    (check_chain toy_platform none manifest
        ((key_name, raw_key) ∷ [])
        genesis_receipt
        (event_receipt ∷ [])
      ≡ ok tt)
    ↔ ((is_genesis Receipt.genesis ≡ true) × (system ≡ system))
stored_chain_verifies_example =
    stored_chain_verifies toy_platform service system empty_database manifest
      ((key_name, raw_key) ∷ []) genesis_receipt (event_receipt ∷ []) refl no_key open_store-ok
      short_run key_published refl refl after_event-read_chain
