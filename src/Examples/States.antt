-- ===== src/Examples/States.antt =====
-- The frontier and its text, and the signer, at concrete inputs.
use sigillo.Common.{◌≡◌, refl, [], ◌∷◌, length, ok, arith}
use sigillo.Crypto.{Bytes}
use sigillo.Text.{text_eq}
use sigillo.Text.{codes}
use sigillo.Json.{Json, number, str, arr, obj, whole, nil, cons, end, member}
use sigillo.Frontier.{
  MerkleFrontier, empty_frontier, frontier_append, frontier_root, append_all, set_bits,
  set_bits_from,
}
use sigillo.Frontier.Root.{
  IsFrontierOf, empty_frontier-IsFrontierOf, frontier_append-IsFrontierOf, frontier_root-append_all,
}
use sigillo.Frontier.Serial.{
  serialize_frontier, parse_frontier, parse_members, parse_nodes, parse_node, is_node_hex,
}
use sigillo.Merkle.{merkle_root}
use sigillo.Hex.{
  to_hex, from_hex, byte_to_hex, hex_digit, all_hex, is_hex, parse_pairs, digit_value,
}
use sigillo.Frontier.Serial.RoundTrip.{
  IsSerializable, parse_frontier-IsSerializable, parse_frontier-IsFrontierOf,
}
use sigillo.Throttle.{ThrottleOptions, new_entry, record_failure, length-record_failure}
use sigillo.Common.{◌≤◌}
use sigillo.Examples.{toy_hash, digits, polynomial, length-digits, digits-IsBytes}

abbrev leaf : Bytes
leaf = digits 32 (polynomial (0 ∷ 1 ∷ []))

abbrev one_frontier : MerkleFrontier
one_frontier = record { size = 1; nodes = leaf ∷ [] }

one-IsFrontierOf :
    (f : MerkleFrontier) × (frontier_append toy_hash empty_frontier (1 ∷ []) ≡ ok f)
    × IsFrontierOf toy_hash ((1 ∷ []) ∷ []) f
one-IsFrontierOf =
    frontier_append-IsFrontierOf toy_hash (1 ∷ []) (empty_frontier-IsFrontierOf toy_hash)

parse_frontier-IsFrontierOf_example :
    parse_frontier (serialize_frontier one-IsFrontierOf.0) ≡ ok one-IsFrontierOf.0
parse_frontier-IsFrontierOf_example =
    parse_frontier-IsFrontierOf toy_hash one-IsFrontierOf.2 (omega arith)

frontier_root-append_all_example :
    (f : MerkleFrontier) × (append_all toy_hash empty_frontier ((1 ∷ []) ∷ (2 ∷ []) ∷ (3 ∷ []) ∷ [])
      ≡ ok f)
    × (f.size ≡ 3)
    × (frontier_root toy_hash f ≡ merkle_root toy_hash ((1 ∷ []) ∷ (2 ∷ []) ∷ (3 ∷ []) ∷ []))
frontier_root-append_all_example =
    frontier_root-append_all toy_hash ((1 ∷ []) ∷ (2 ∷ []) ∷ (3 ∷ []) ∷ [])

one-IsSerializable : IsSerializable one_frontier
unfolding set_bits set_bits_from
one-IsSerializable = record {
  safe = omega arith;
  counted = refl;
  hashes = ((length-digits 32 _, digits-IsBytes 32 _), tt);
}

-- The members in the other order.
abbrev swapped : Json
swapped = obj (
    member (codes "nodes") (arr (cons (str (to_hex leaf)) nil))
      (member (codes "size") (number (whole 1)) end))

swapped-parse_frontier : parse_frontier swapped ≡ ok one_frontier
unfolding parse_frontier parse_members parse_nodes parse_node is_node_hex from_hex to_hex
    byte_to_hex hex_digit all_hex is_hex parse_pairs digit_value text_eq set_bits set_bits_from
    digits
swapped-parse_frontier = refl

parse_frontier-IsSerializable_example : IsSerializable one_frontier
parse_frontier-IsSerializable_example = parse_frontier-IsSerializable swapped swapped-parse_frontier

abbrev small_options : ThrottleOptions
small_options = record {
  max_failures = 2;
  window_ms = 100;
  lockout_ms = 10;
  max_lockout_ms = 40;
  forget_after_ms = 1000;
  max_entries = 1;
}

-- A second client takes the room of the first.
length-record_failure_example :
    length
      (record_failure small_options (codes "b") 9 ((codes "a", new_entry small_options 3) ∷ []))
    ≤ 1
length-record_failure_example =
    length-record_failure small_options (codes "b") 9 ((codes "a", new_entry small_options 3) ∷ [])
      (omega arith) (omega arith)
