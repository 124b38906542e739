-- ===== src/Examples/Clients.antt =====
-- The store before the client of a signer at concrete inputs, and the client's requests.
use sigillo.Common.{◌+◌, ◌≡◌, refl, none, some, List, [], ◌∷◌, ok}
use sigillo.Text.{Text, codes, text_eq}
use sigillo.Hex.{to_hex, byte_to_hex, hex_digit}
use sigillo.Receipt
use sigillo.Receipt.{Receipt}
use sigillo.Verifier.Chain.{key_id_of}
use sigillo.Signer.{retired, SignerKey, sequence}
use sigillo.Signer.Log.{log_of}
use sigillo.Signer.Invariant.{Reach}
use sigillo.Signer.Daemon.{signature_answer, ok_reply, refusal_reply}
use sigillo.Store.{public_key_for, chain_of}
use sigillo.Store.Service.{StoreState, open_store, add_key}
use sigillo.Store.Append.{create_system, append}
use sigillo.Store.Reconcile.{reconcile_now}
use sigillo.Store.Ordered.{receipts_of}
use sigillo.Store.Runs.{Run, start, next, created, appended, reconciled, moved}
use sigillo.Custody.Older.{IsOlder}
use sigillo.SignerClient.{Link, reply_lost, signer_client}
use sigillo.SignerClient.Answers.{routed}
use sigillo.SignerClient.Custodian.{stored_is_signed, reconciled_is_signed}
use sigillo.Custody.Level.{IsAgreed}
use sigillo.SignerClient.Pending.{
  Event, asked, arrived, deadline, connection_lost, announced, Identity, readable, handle_all,
  new_client, Client,
}
use sigillo.SignerClient.Pending.Conserved.{count, count_done, issued, completed_once}
use sigillo.SignerClient.Pending.Answered.{identity_pinned}
use sigillo.SignerClient.{exchange, settle}
use sigillo.Verifier.Indices.{decimal}
use sigillo.Signer.Daemon.{handle_line}
use sigillo.Store.Judge.{judge, judge_head, judge_taken, take_missing, span_taken}
use sigillo.Store.Reconcile.{carry_out, restore}
use sigillo.Signer.Journal.{head}
use sigillo.Signer.{
  sign_receipt, admit, commit, known_chain, next_state, get_system, set_system, put, record_receipt,
  all_well_formed,
}
use sigillo.Signing.{sign_digest, verify_receipt_signature, verify_digest_signature}
use sigillo.Hex.{from_hex, parse_pairs, digit_value, all_hex, is_hex}
use sigillo.Frontier.{frontier_append, carry_loop}
use sigillo.Merkle.{merkle_leaf_hash, merkle_node_hash, assert_hash}
use sigillo.Store.Append.{write_receipt, has_organization}
use sigillo.Store.Insert.{
  insert_receipt, propose, accept, insert_row, violates, artifact_rows, register_system, has_system,
}
use sigillo.Store.{tip_of, highest, find_span, is_deleted, find_subject}
use sigillo.Store.Prepare.{
  prepare, pseudonymous, digest_for, build_unsigned, check_event, has_token, insert_subject,
  new_subject, normalise_subject_identifier,
}
use sigillo.Receipt.Schema.{
  valid_receipt, valid_unsigned, valid_signature, is_iso_timestamp, matches, valid_artifact_list,
  schemes_match_digests,
}
use sigillo.Platform.{receipt_hash, canonical_receipt_bytes}
use sigillo.Text.{is_well_formed, is_high_surrogate, is_low_surrogate}
use sigillo.Base64.{is_signature_text, padded_twice, is_base64_char}
use sigillo.Examples.{toy_platform, toy_signature, digits}
use sigillo.Examples.Stores.{raw_key, key_name, empty_database, attempts, event, draw, system, noon}

abbrev key : SignerKey
key = record { key_id = key_name; private_key = raw_key }

abbrev old_system : Text
old_system = codes "old"

abbrev link : Link
link = record {
  directory = record { systems = retired old_system [] ∷ []; journal = [] };
  now = 24;
  last_id = 0;
  deliveries = [];
}

abbrev client_opened : StoreState Link
client_opened = record {
  db = record empty_database { signing_keys = add_key key_name raw_key [] none };
  divergences = [];
  service = link;
}

client_opened-ok :
    open_store toy_platform (signer_client toy_platform key 5) empty_database ≡ ok client_opened.db
unfolding open_store key_id_of text_eq to_hex byte_to_hex hex_digit digits public_key_for
client_opened-ok = refl

abbrev client_created : StoreState Link
client_created =
    (create_system toy_platform (signer_client toy_platform key 5) system noon none attempts
      client_opened).1

-- The reply to the next request will be lost.
abbrev lossy : StoreState Link
lossy = record client_created {
  service = record client_created.service { deliveries = reply_lost ∷ [] };
}

abbrev client_lost : StoreState Link
client_lost =
    (append toy_platform (signer_client toy_platform key 5) event draw empty_database attempts
      lossy).1

abbrev client_restored : StoreState Link
client_restored =
    (reconcile_now toy_platform (signer_client toy_platform key 5) noon system client_lost).1

abbrev lossy_run : Run toy_platform (signer_client toy_platform key 5) client_opened client_restored
lossy_run =
    next client_lost client_restored
      (next lossy client_lost
        (next client_created lossy
          (next client_opened client_created start (created system noon none attempts))
          (moved lossy.service))
        (appended event draw empty_database attempts))
      (reconciled noon system)

stored_is_signed_example :
    (log : List Receipt) × Reach toy_platform key 5 client_restored.service.directory log
    × ((id : Text)
        → IsOlder (receipts_of (chain_of id client_restored.db.receipts)) (log_of id log))
unfolding public_key_for
stored_is_signed_example =
    stored_is_signed toy_platform key 5 (retired old_system [] ∷ []) empty_database (tt, tt) refl
      refl refl client_opened-ok lossy_run ((((tt, tt), routed (reply_lost ∷ [])), tt), tt)

-- The signer signs a genesis receipt, and its reply is lost.
abbrev lossy_opened : StoreState Link
lossy_opened = record client_opened { service = record link { deliveries = reply_lost ∷ [] } }

abbrev genesis_lost : StoreState Link
genesis_lost =
    (create_system toy_platform (signer_client toy_platform key 5) system noon none attempts
      lossy_opened).1

genesis_lost-IsAgreed :
    IsAgreed
      (reconcile_now toy_platform (signer_client toy_platform key 5) noon system genesis_lost).0
unfolding reconcile_now exchange settle decimal handle_line judge judge_head judge_taken
    take_missing span_taken carry_out restore head sign_receipt admit commit known_chain next_state
    get_system set_system put record_receipt sign_digest from_hex parse_pairs digit_value
    frontier_append carry_loop merkle_leaf_hash merkle_node_hash assert_hash Receipt.receipt_members
    create_system append write_receipt insert_receipt propose accept insert_row violates
    artifact_rows register_system has_system tip_of highest find_span is_deleted public_key_for
    find_subject prepare pseudonymous digest_for build_unsigned check_event has_token insert_subject
    new_subject normalise_subject_identifier valid_receipt valid_unsigned valid_signature
    is_iso_timestamp matches valid_artifact_list schemes_match_digests receipt_hash
    canonical_receipt_bytes verify_receipt_signature verify_digest_signature all_well_formed text_eq
    is_well_formed is_high_surrogate is_low_surrogate to_hex byte_to_hex hex_digit all_hex is_hex
    is_signature_text padded_twice is_base64_char digits has_organization Receipt.receipt_json
genesis_lost-IsAgreed = tt

abbrev lossy_genesis_run :
    Run toy_platform (signer_client toy_platform key 5) lossy_opened genesis_lost
lossy_genesis_run = next lossy_opened genesis_lost start (created system noon none attempts)

abbrev genesis_restored : StoreState Link
genesis_restored =
    (reconcile_now toy_platform (signer_client toy_platform key 5) noon system genesis_lost).1

reconciled_is_signed_example :
    (log : List Receipt) × Reach toy_platform key 5 genesis_restored.service.directory log
    × (receipts_of (chain_of system genesis_restored.db.receipts) ≡ log_of system log)
unfolding public_key_for
reconciled_is_signed_example =
    reconciled_is_signed toy_platform key 5 (retired old_system [] ∷ []) empty_database noon system
      (tt, tt) refl refl refl client_opened-ok lossy_genesis_run (tt, tt) genesis_lost-IsAgreed

abbrev own_identity : Identity
own_identity = record { key_id = key_name; public_key = codes "key" }

-- A signer answers the second request after its deadline, when the third is waiting.
abbrev late_events : List Event
late_events =
    asked (announced own_identity)
    ∷ deadline 2
    ∷ asked (announced own_identity)
    ∷ arrived (readable (ok_reply (codes "2") (signature_answer toy_signature [])))
    ∷ arrived (readable (refusal_reply sequence (some (codes "3"))))
    ∷ connection_lost
    ∷ []

completed_once_example :
    count 3 (handle_all late_events new_client).0.pending
      + count_done 3 (handle_all late_events new_client).1
    ≡ issued 3 (handle_all late_events new_client).0.last_id
completed_once_example = completed_once 3 late_events

abbrev known_client : Client
known_client = record new_client { identity = some own_identity }

identity_pinned_example :
    (later : Identity) × ((handle_all
        (asked (announced (record { key_id = codes "0"; public_key = [] })) ∷ late_events)
        known_client).0.identity
      ≡ some later)
    × (later.key_id ≡ key_name)
identity_pinned_example =
    identity_pinned
      (asked (announced (record { key_id = codes "0"; public_key = [] })) ∷ late_events)
      known_client own_identity refl
