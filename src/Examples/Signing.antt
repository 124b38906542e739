-- ===== src/Examples/Signing.antt =====
-- The signer at concrete inputs: a directory with one retired system, and a chain of two receipts.
use sigillo.Common.{ℕ, ◌≡◌, refl, true, some, none, List, [], ◌∷◌, ok, zero, get_elem?, arith}
use sigillo.Text.{Text, codes, text_eq, is_well_formed, is_high_surrogate, is_low_surrogate}
use sigillo.Hex.{
  to_hex, from_hex, byte_to_hex, hex_digit, all_hex, is_hex, parse_pairs, digit_value,
}
use sigillo.Merkle.{merkle_leaf_hash, merkle_node_hash, assert_hash}
use sigillo.Frontier.{frontier_append, carry_loop}
use sigillo.Receipt
use sigillo.Platform.{receipt_hash, canonical_receipt_bytes}
use sigillo.Signing.{sign_digest}
use sigillo.Signer.{
  retired, StateDirectory, SignerKey, get_system, set_system, put, record_receipt, all_well_formed,
  known_chain, admit, next_state, commit, sign_receipt, checkpoint, genesis_prev_hash,
}
use sigillo.Signer.Log.{log_of}
use sigillo.Signer.Invariant.{
  Reach, opened, signed, Reach-IsSound, sign_receipt-Answer, IsSound, Answer,
}
use sigillo.Signer.Chain.{signed_once, checkpoint-Reach, CheckpointAnswer}
use sigillo.Signer.Journal.{receipts}
use sigillo.Signer.Recovery.{ReceiptsAnswer, receipts-Reach}
use sigillo.Signer.Daemon.{ArrivedLine, IsServed, serve_lines-Reach, request, sign, no_id}
use sigillo.Privacy.{pseudonym_from_random, is_pseudonym, pseudonym_from_random-ok}
use sigillo.Crypto.{IsBytes}
use sigillo.Common.{suc, ◌<◌, replicate, drop}
use sigillo.Examples.{toy_platform, toy_signature, digits}

IsBytes-replicate : (n byte : ℕ) → byte < 256 → IsBytes (replicate n byte)
IsBytes-replicate zero byte h = tt
IsBytes-replicate (suc n) byte h = (h, IsBytes-replicate n byte h)

abbrev old_system : Text
old_system = codes "a"

abbrev system : Text
system = codes "b"

abbrev key : SignerKey
key = record { key_id = codes "k"; private_key = 5 ∷ [] }

abbrev opened_state : StateDirectory
opened_state = record { systems = retired old_system [] ∷ []; journal = [] }

-- The `n`-th receipt of the chain.
abbrev receipt : ℕ → Receipt.ActionKind → Text → Receipt.UnsignedReceipt
receipt n kind prev_hash = record {
  v = Receipt.v4;
  system_id = system;
  seq = n;
  ts_event = codes "t";
  ts_received = codes "tt";
  actor = record { agent = codes "g"; on_behalf_of = none };
  action = record { kind = kind; name = codes "n" };
  input_hash = none;
  output_hash = none;
  input_hash_scheme = none;
  output_hash_scheme = none;
  outcome = Receipt.ok;
  source = record { type = Receipt.api; trace_id = none; span_id = none };
  prev_hash = prev_hash;
  key_id = codes "k";
  artifacts = none;
  model = none;
}

abbrev first : Receipt.UnsignedReceipt
first = receipt 0 Receipt.genesis genesis_prev_hash

abbrev first_hash : Text
first_hash = to_hex (receipt_hash toy_platform first)

abbrev second : Receipt.UnsignedReceipt
second = receipt 1 Receipt.tool_call first_hash

abbrev after_first : StateDirectory
after_first = (sign_receipt toy_platform key 3 4 first opened_state).1

abbrev after_second : StateDirectory
after_second = (sign_receipt toy_platform key 3 4 second after_first).1

first-sign_receipt :
    sign_receipt toy_platform key 3 4 first opened_state
    ≡ (ok (toy_signature, first_hash), after_first)
unfolding sign_receipt admit commit known_chain next_state all_well_formed is_well_formed
    is_high_surrogate is_low_surrogate get_system text_eq sign_digest receipt_hash
    canonical_receipt_bytes Receipt.receipt_json Receipt.receipt_members digits from_hex to_hex
    byte_to_hex hex_digit all_hex is_hex parse_pairs digit_value frontier_append carry_loop
    merkle_leaf_hash merkle_node_hash assert_hash
first-sign_receipt = refl

first-admit : admit toy_platform key 3 4 first opened_state ≡ ok none
unfolding admit known_chain all_well_formed is_well_formed is_high_surrogate is_low_surrogate
    get_system text_eq Receipt.receipt_json Receipt.receipt_members
first-admit = refl

second-sign_receipt :
    sign_receipt toy_platform key 3 4 second after_first
    ≡ (ok (toy_signature, to_hex (receipt_hash toy_platform second)), after_second)
unfolding sign_receipt admit commit known_chain next_state all_well_formed is_well_formed
    is_high_surrogate is_low_surrogate get_system set_system put record_receipt text_eq sign_digest
    receipt_hash canonical_receipt_bytes Receipt.receipt_json Receipt.receipt_members digits
    from_hex to_hex byte_to_hex hex_digit all_hex is_hex parse_pairs digit_value frontier_append
    carry_loop merkle_leaf_hash merkle_node_hash assert_hash
second-sign_receipt = refl

abbrev second_receipt : Receipt.Receipt
second_receipt = record { unsigned = second; sig = toy_signature }

abbrev two_signed : List Receipt.Receipt
two_signed = second_receipt ∷ record { unsigned = first; sig = toy_signature } ∷ []

two_signed-Reach : Reach toy_platform key 3 after_second two_signed
two_signed-Reach =
    signed 4 second toy_signature (to_hex (receipt_hash toy_platform second))
      (signed 4 first toy_signature first_hash (opened (retired old_system [] ∷ []) (tt, tt))
        first-sign_receipt)
      second-sign_receipt

Reach-IsSound_example : IsSound toy_platform key 3 after_second two_signed
Reach-IsSound_example = Reach-IsSound toy_platform key 3 two_signed-Reach

sign_receipt-Answer_example :
    Answer toy_platform key 3 opened_state [] first
      (sign_receipt toy_platform key 3 4 first opened_state)
sign_receipt-Answer_example =
    sign_receipt-Answer toy_platform key 3 4 first opened_state []
      (Reach-IsSound toy_platform key 3 (opened (retired old_system [] ∷ []) (tt, tt)))

second-log_of : get_elem? (log_of system two_signed) 0 ≡ some second_receipt
unfolding text_eq
second-log_of = refl

signed_once_example : (zero ≡ zero) × (second_receipt ≡ second_receipt)
signed_once_example =
    signed_once toy_platform key 3 system 0 0 two_signed-Reach second-log_of second-log_of refl

checkpoint-Reach_example :
    CheckpointAnswer toy_platform key 3
      (log_of system two_signed)
      (checkpoint toy_platform key 3 9 system after_second)
checkpoint-Reach_example = checkpoint-Reach toy_platform key 3 9 system two_signed-Reach

receipts-Reach_example :
    ReceiptsAnswer toy_platform key 3
      (log_of system two_signed)
      1
      10
      (receipts system 1 10 after_second)
receipts-Reach_example = receipts-Reach toy_platform key 3 system 1 10 two_signed-Reach

abbrev three_lines : List ArrivedLine
three_lines =
    record { size = 90; now = 4; content = some (request (codes "r") (sign second)) }
    ∷ record { size = 0; now = 4; content = none }
    ∷ record { size = 2; now = 5; content = some no_id }
    ∷ []

serve_lines-Reach_example : IsServed toy_platform key 3 three_lines after_second
serve_lines-Reach_example =
    serve_lines-Reach toy_platform key 3 three_lines after_second two_signed-Reach
      (omega arith, (omega arith, (omega arith, tt)))

sixteen-IsBytes : IsBytes (replicate 16 171)
sixteen-IsBytes = IsBytes-replicate 16 171 (omega arith)

pseudonym_from_random-ok_example :
    (token : Text) × (pseudonym_from_random (replicate 16 171) ≡ ok token)
    × (is_pseudonym token ≡ true)
    × (from_hex (drop 4 token) ≡ ok (replicate 16 171))
pseudonym_from_random-ok_example = pseudonym_from_random-ok (replicate 16 171) refl sixteen-IsBytes
