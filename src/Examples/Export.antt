-- ===== src/Examples/Export.antt =====
-- The verifier at concrete inputs: an export of two receipts with one checkpoint over them.
use mathlib.Core.List.Memᴰ
use sigillo.Anchoring.Earliest.{existed_by}
use sigillo.Anchoring.Attested.{IsEarliest}
use sigillo.Verifier.Times.{IsAttested, anchor_times_of, anchor_times_of-existed_by}
use sigillo.Common.{
  Option, some, List, length, ℕ, ◌≡◌, ◌↔◌, ◌⊎◌, ◌≤◌, refl, none, [], ◌∷◌, ok, err, replicate, All,
}
use sigillo.Crypto.{Bytes}
use sigillo.Text.{Text, codes, text_eq}
use sigillo.Hex.{
  to_hex, from_hex, byte_to_hex, hex_digit, all_hex, is_hex, parse_pairs, digit_value,
}
use sigillo.Base64.{is_signature_text, padded_twice, is_base64_char}
use sigillo.Merkle.{
  merkle_root, root_rounds, split_point, split_loop, merkle_leaf_hash, merkle_node_hash,
  assert_hash,
}
use sigillo.Receipt
use sigillo.Platform.{receipt_hash, canonical_receipt_bytes}
use sigillo.Signing.{verify_receipt_signature, verify_digest_signature}
use sigillo.Checkpoint.{checkpoint_hash, checkpoint_json, verify_checkpoint_signature}
use sigillo.Signer.{genesis_prev_hash}
use sigillo.Verifier
use sigillo.Verifier.Chain.{
  KeyMap, key_get, key_set, key_id_of, read_keys, read_receipts, check_system, check_sequence,
  check_genesis, check_links, check_signatures, check_chain,
}
use sigillo.Verifier.Chain.Sound.{IsChain, check_chain-IsChain}
use sigillo.Verifier.Indices.{
  join, sort, declared_artifacts, indexed_artifacts, check_artifacts, check_openings, tokens_used,
  check_subjects,
}
use sigillo.Verifier.Checkpoints.{
  leaves_of, check_root, check_proofs, check_entry, check_checkpoints,
}
use sigillo.Verifier.Checkpoints.Roots.{IsAnchored, check_entry-IsAnchored}
use sigillo.Verifier.Verify.{
  Verified, verify_bundle, count_timestamps, highest_version, count_from, check_range, IsVerified,
  verify_bundle-IsVerified,
}
use sigillo.Verifier.Previous.{
  hash_get, hash_map, check_same, compare_with_previous, Continues, compare_with_previous-Continues,
}
use sigillo.Verifier.Anchors.{
  AnchorSet, find_checkpoint, check_stamps, check_anchor, check_anchors, token_get, is_kept,
  compare_anchors_with_previous, IsKept, compare_anchors_with_previous-IsKept,
}
use sigillo.Examples.{toy_hash, toy_platform, toy_signature, digits}

abbrev system : Text
system = codes "b"

abbrev raw_key : Bytes
raw_key = replicate 32 5

abbrev key_id : Text
key_id = key_id_of toy_platform raw_key

-- The `n`-th receipt of the chain.
abbrev receipt : ℕ → Receipt.ActionKind → Text → Receipt.Receipt
receipt n kind prev_hash = record {
  unsigned = record {
    v = Receipt.v4;
    system_id = system;
    seq = n;
    ts_event = codes "t";
    ts_received = codes "tt";
    actor = record { agent = codes "g"; on_behalf_of = none };
    action = record { kind = kind; name = system };
    input_hash = none;
    output_hash = none;
    input_hash_scheme = none;
    output_hash_scheme = none;
    outcome = Receipt.ok;
    source = record { type = Receipt.api; trace_id = none; span_id = none };
    prev_hash = prev_hash;
    key_id = key_id;
    artifacts = none;
    model = none;
  };
  sig = toy_signature;
}

abbrev first : Receipt.Receipt
first = receipt 0 Receipt.genesis genesis_prev_hash

abbrev second : Receipt.Receipt
second = receipt 1 Receipt.tool_call (to_hex (receipt_hash toy_platform first.unsigned))

abbrev root_text : Text
root_text =
    elim (merkle_root toy_hash
      (receipt_hash toy_platform first.unsigned ∷ receipt_hash toy_platform second.unsigned ∷ [])) [
        | ok root ↦ to_hex root
        | err _ ↦ []
      ]

abbrev entry : Verifier.CheckpointEntry
entry = record {
  checkpoint = record {
    unsigned = record {
      system_id = system;
      tree_size = 2;
      root_hash = root_text;
      ts = codes "t";
      key_id = key_id;
    };
    sig = toy_signature;
  };
  proofs = [];
  timestamps = [];
}

abbrev the_manifest : Verifier.Manifest
the_manifest = record {
  receipt_version = 4;
  system_id = system;
  from_seq = 0;
  to_seq = 1;
  from_ts = codes "tt";
  to_ts = codes "tt";
  receipts = 2;
  checkpoints = 1;
  timestamps = 0;
  keys = record { key_id = key_id; public_key = raw_key } ∷ [];
}

abbrev the_keys : KeyMap
the_keys = (key_id, raw_key) ∷ []

abbrev the_bundle : Verifier.Bundle
the_bundle = record {
  manifest = Verifier.parsed the_manifest;
  receipts = Verifier.parsed first ∷ Verifier.parsed second ∷ [];
  artifacts_index = [];
  openings = [];
  subjects = [];
  checkpoints = Verifier.parsed entry ∷ [];
}

abbrev the_verified : Verified
the_verified = record {
  summary = record {
    system_id = system;
    receipts = 2;
    first_seq = 0;
    last_seq = 1;
    key_ids = key_id ∷ [];
    checkpoints = 1;
    inclusion_proofs = 0;
    roots_recomputed = 1;
    artifacts_indexed = 0;
    unlinked_checkpoints = 0;
    unanchored_receipts = 0;
    openings_disclosed = 0;
    subjects_disclosed = 0;
  };
  receipts = first ∷ second ∷ [];
  linked_checkpoints = (1, entry) ∷ [];
}

the-verify_bundle : verify_bundle toy_platform none the_bundle ≡ ok the_verified
unfolding verify_bundle key_get key_set key_id_of read_keys read_receipts check_system
    check_sequence check_genesis check_links check_signatures check_chain text_eq to_hex from_hex
    byte_to_hex hex_digit all_hex is_hex parse_pairs digit_value receipt_hash
    canonical_receipt_bytes Receipt.receipt_json Receipt.receipt_members digits
    verify_receipt_signature verify_digest_signature is_signature_text padded_twice is_base64_char
    join sort declared_artifacts indexed_artifacts check_artifacts check_openings tokens_used
    check_subjects leaves_of check_root check_proofs check_entry check_checkpoints merkle_root
    root_rounds split_point split_loop merkle_leaf_hash merkle_node_hash assert_hash checkpoint_hash
    checkpoint_json verify_checkpoint_signature count_timestamps highest_version count_from
    check_range
the-verify_bundle = refl

verify_bundle-IsVerified_example : IsVerified toy_platform none the_bundle the_verified
verify_bundle-IsVerified_example =
    verify_bundle-IsVerified toy_platform none the_bundle the-verify_bundle

abbrev token_times : List (Text × Text)
token_times = (codes "token.tsr", replicate 30 0) ∷ []

abbrev parse_length : Text → Option ℕ
parse_length text = some (length text)

anchor_times_of-existed_by_example :
    IsEarliest (IsAttested parse_length token_times the_verified.linked_checkpoints 1) (
      existed_by 1 (anchor_times_of toy_platform parse_length the_verified token_times 5 60).ranges)
anchor_times_of-existed_by_example =
    anchor_times_of-existed_by toy_platform none parse_length the_bundle token_times 5 60 second
      the-verify_bundle (Memᴰ.tail (Memᴰ.head refl))

check_chain-IsChain_example :
    (check_chain toy_platform none the_manifest the_keys first (second ∷ []) ≡ ok tt)
    ↔ IsChain toy_platform none the_keys the_manifest first (second ∷ [])
check_chain-IsChain_example =
    check_chain-IsChain toy_platform none the_keys the_manifest first (second ∷ [])

the-check_entry :
    check_entry toy_platform none the_manifest the_keys first (first ∷ second ∷ []) 1 entry ≡ ok tt
unfolding key_get key_id_of text_eq to_hex from_hex byte_to_hex hex_digit all_hex is_hex parse_pairs
    digit_value receipt_hash canonical_receipt_bytes Receipt.receipt_json Receipt.receipt_members
    digits verify_digest_signature is_signature_text padded_twice is_base64_char leaves_of
    check_root check_proofs check_entry merkle_root root_rounds split_point split_loop
    merkle_leaf_hash merkle_node_hash assert_hash checkpoint_hash checkpoint_json
    verify_checkpoint_signature
the-check_entry = refl

check_entry-IsAnchored_example :
    IsAnchored toy_platform none the_manifest the_keys first (first ∷ second ∷ []) entry
check_entry-IsAnchored_example =
    check_entry-IsAnchored toy_platform none the_manifest the_keys first (first ∷ second ∷ []) 1
      entry the-check_entry

the-compare_with_previous :
    compare_with_previous toy_platform (first ∷ second ∷ []) (first ∷ []) ≡ ok tt
unfolding compare_with_previous check_same hash_get hash_map text_eq to_hex byte_to_hex hex_digit
    receipt_hash canonical_receipt_bytes Receipt.receipt_json Receipt.receipt_members digits
    key_id_of
the-compare_with_previous = refl

compare_with_previous-Continues_example : Continues toy_platform first (second ∷ []) first []
compare_with_previous-Continues_example =
    compare_with_previous-Continues toy_platform 0 first (second ∷ []) first [] (refl, tt)
      the-compare_with_previous

abbrev anchors : AnchorSet
anchors = record { checkpoints = entry ∷ []; tokens = (codes "token.tsr", 48 ∷ 3 ∷ []) ∷ [] }

the-compare_anchors_with_previous : compare_anchors_with_previous anchors anchors 0 ≡ ok tt
unfolding compare_anchors_with_previous check_anchors check_anchor check_stamps find_checkpoint
    token_get is_kept text_eq to_hex byte_to_hex hex_digit merkle_root root_rounds split_point
    split_loop merkle_leaf_hash merkle_node_hash assert_hash digits receipt_hash
    canonical_receipt_bytes Receipt.receipt_json Receipt.receipt_members key_id_of
the-compare_anchors_with_previous = refl

compare_anchors_with_previous-IsKept_example :
    All
      (λ (before : Verifier.CheckpointEntry).
        (before.checkpoint.tree_size ≤ 0) ⊎ IsKept anchors anchors.tokens before)
      (entry ∷ [])
compare_anchors_with_previous-IsKept_example =
    compare_anchors_with_previous-IsKept anchors anchors 0 the-compare_anchors_with_previous
