-- ===== src/Examples/Checkpoints.antt =====
-- A checkpoint of a system with one receipt, at concrete inputs.
use sigillo.Common.{Result, ok, err, ◌≡◌, refl, some, none, []}
use sigillo.Text.{Text, text_eq, is_well_formed, is_high_surrogate, is_low_surrogate}
use sigillo.Hex.{to_hex, byte_to_hex, hex_digit, all_hex, is_hex}
use sigillo.Base64.{is_signature_text, padded_twice, is_base64_char}
use sigillo.Receipt
use sigillo.Receipt.{Receipt}
use sigillo.Receipt.Schema.{
  valid_receipt, valid_unsigned, valid_signature, is_iso_timestamp, matches, valid_artifact_list,
  schemes_match_digests,
}
use sigillo.Platform.{receipt_hash, canonical_receipt_bytes}
use sigillo.Signing.{verify_receipt_signature, verify_digest_signature}
use sigillo.Signer.{all_well_formed}
use sigillo.Store.{tip_of, highest, find_span, is_deleted, public_key_for, find_subject, read_chain}
use sigillo.Store.Prepare.{
  prepare, pseudonymous, digest_for, build_unsigned, check_event, has_token, insert_subject,
  new_subject, normalise_subject_identifier,
}
use sigillo.Store.Service.{SigningService}
use sigillo.Store.Insert.{
  insert_receipt, propose, accept, insert_row, violates, artifact_rows, register_system, has_system,
}
use sigillo.Store.Append.{create_system, append, write_receipt, has_organization}
use sigillo.Examples.{toy_platform, toy_signature, digits}
use sigillo.Hex.{from_hex, parse_pairs, digit_value}
use sigillo.Merkle.{merkle_root, root_rounds, merkle_leaf_hash, assert_hash}
use sigillo.Checkpoint.{Checkpoint, checkpoint_hash, verify_checkpoint_signature}
use sigillo.Store.{StoreError, read_receipt_hashes}
use sigillo.Store.Judge.{judge, judge_head}
use sigillo.Store.Reconcile.{reconcile_now, carry_out}
use sigillo.Store.CheckPoint.{root_of, from_hex_all, covered, has_size, write_checkpoint}
use sigillo.Store.Stored.{IsStored, write_checkpoint-IsStored}
use sigillo.Store.Runs.{Run-Advances, start, next, created}
use sigillo.Examples.Stores.{
  opened, opened-IsWellFormed, attempts, service, after_genesis, genesis_receipt, system, noon,
  key_name,
}

abbrev text_of : Result StoreError Text → Text
text_of (ok text) = text
text_of (err _) = []

abbrev one_receipt : Checkpoint
one_receipt = record {
  unsigned = record {
    system_id = system;
    tree_size = 1;
    root_hash = text_of (root_of toy_platform (read_receipt_hashes system after_genesis.db));
    ts = noon;
    key_id = key_name;
  };
  sig = toy_signature;
}

-- Its head is the tip of the store.
abbrev level : SigningService (Unit {0})
level = record service {
  head = λ id s. (ok (some genesis_receipt), s);
  checkpoint = λ id s. (ok one_receipt, s);
}

after_genesis-write_checkpoint :
    (write_checkpoint toy_platform level noon system after_genesis).0 ≡ ok (some one_receipt)
unfolding write_checkpoint reconcile_now carry_out judge judge_head root_of from_hex_all covered
    has_size read_receipt_hashes merkle_root root_rounds merkle_leaf_hash assert_hash from_hex
    parse_pairs digit_value verify_checkpoint_signature checkpoint_hash read_chain create_system
    append write_receipt insert_receipt propose accept insert_row violates artifact_rows
    register_system has_system tip_of highest find_span is_deleted public_key_for find_subject
    prepare pseudonymous digest_for build_unsigned check_event has_token insert_subject new_subject
    normalise_subject_identifier valid_receipt valid_unsigned valid_signature is_iso_timestamp
    matches valid_artifact_list schemes_match_digests receipt_hash canonical_receipt_bytes
    verify_receipt_signature verify_digest_signature all_well_formed text_eq is_well_formed
    is_high_surrogate is_low_surrogate to_hex byte_to_hex hex_digit all_hex is_hex is_signature_text
    padded_twice is_base64_char digits has_organization Receipt.receipt_json
after_genesis-write_checkpoint = refl

write_checkpoint-IsStored_example :
    IsStored toy_platform level opened.db.signing_keys system one_receipt
      (write_checkpoint toy_platform level noon system after_genesis).1.db
write_checkpoint-IsStored_example =
    write_checkpoint-IsStored toy_platform level opened.db.signing_keys noon system after_genesis
      (Run-Advances toy_platform service opened.db.signing_keys
        (next opened after_genesis start (created system noon none attempts)) opened-IsWellFormed).0
      after_genesis-write_checkpoint
