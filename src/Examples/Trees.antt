-- ===== src/Examples/Trees.antt =====
-- The tree, the frontier and the hex text at concrete inputs.
use sigillo.Common.{◌≡◌, refl, List, [], ◌∷◌, ◌++◌, length, ok, arith, inl}
use sigillo.Crypto.{Bytes}
use sigillo.Text.{codes}
use sigillo.Hex.{from_hex, all_hex, is_hex, parse_pairs, digit_value}
use sigillo.Merkle.{
  merkle_root, inclusion_proof, audit_path_length, root_from_inclusion_proof, split_point,
  root_rounds, merkle_leaf_hash, merkle_node_hash, assert_hash, split_loop, proof_rounds,
  audit_path_rounds, walk_steps, walk_step, skip_levels,
}
use sigillo.Merkle.Tree.{tree_hash}
use sigillo.Merkle.Root.{merkle_root-eq-tree_hash}
use sigillo.Merkle.Inclusion.{root_from_inclusion_proof-inclusion_proof}
use sigillo.Merkle.Soundness.{root_from_inclusion_proof_sound, NoCollision, hashed, start}
use sigillo.Examples.{toy_hash, digits, polynomial}

abbrev five_entries : List Bytes
five_entries = (1 ∷ []) ∷ (2 ∷ []) ∷ (3 ∷ []) ∷ (4 ∷ 4 ∷ []) ∷ (5 ∷ []) ∷ []

merkle_root-eq-tree_hash_example :
    merkle_root toy_hash five_entries ≡ ok (tree_hash toy_hash 3 five_entries)
merkle_root-eq-tree_hash_example = merkle_root-eq-tree_hash toy_hash 3 five_entries (omega arith)

root_from_inclusion_proof-inclusion_proof_example :
    (proof : List Bytes) × (inclusion_proof toy_hash five_entries 4 ≡ ok proof)
    × (length proof ≡ audit_path_length 4 5)
    × (root_from_inclusion_proof toy_hash (5 ∷ []) 4 5 proof ≡ merkle_root toy_hash five_entries)
root_from_inclusion_proof-inclusion_proof_example =
    root_from_inclusion_proof-inclusion_proof toy_hash five_entries 4 refl

ab09-bytes : from_hex (codes "ab09") ≡ ok (171 ∷ 9 ∷ [])
unfolding from_hex all_hex is_hex parse_pairs digit_value
ab09-bytes = refl

abbrev two_entries : List Bytes
two_entries = (1 ∷ []) ∷ (2 ∷ []) ∷ []

abbrev the_entry : Bytes
the_entry = 1 ∷ []

abbrev second_leaf : Bytes
second_leaf = digits 32 (polynomial (0 ∷ 2 ∷ []))

abbrev two_root : Bytes
two_root = digits 32 (polynomial (1 ∷ digits 32 (polynomial (0 ∷ 1 ∷ [])) ++ second_leaf))

two-inclusion_proof : inclusion_proof toy_hash two_entries 0 ≡ ok (second_leaf ∷ [])
unfolding inclusion_proof proof_rounds split_point split_loop merkle_root root_rounds
    merkle_leaf_hash
two-inclusion_proof = refl

two-merkle_root : merkle_root toy_hash two_entries ≡ ok two_root
unfolding merkle_root root_rounds split_point split_loop merkle_leaf_hash merkle_node_hash
    assert_hash digits
two-merkle_root = refl

two-root_from_inclusion_proof :
    root_from_inclusion_proof toy_hash (1 ∷ []) 0 2 (second_leaf ∷ []) ≡ ok two_root
unfolding root_from_inclusion_proof audit_path_length audit_path_rounds split_point split_loop
    walk_steps walk_step skip_levels merkle_leaf_hash merkle_node_hash assert_hash digits
two-root_from_inclusion_proof = refl

two-NoCollision :
    NoCollision toy_hash
      ((0 ∷ 1 ∷ []) ∷ hashed toy_hash (start toy_hash (1 ∷ []) 0 2) (second_leaf ∷ []))
      ((0 ∷ 1 ∷ []) ∷ hashed toy_hash (start toy_hash (1 ∷ []) 0 2) (second_leaf ∷ []))
unfolding hashed walk_step skip_levels merkle_leaf_hash merkle_node_hash assert_hash digits
two-NoCollision = (inl refl, (inl refl, tt))

root_from_inclusion_proof_sound_example :
    (the_entry ≡ the_entry) × (second_leaf ∷ [] ≡ second_leaf ∷ [])
root_from_inclusion_proof_sound_example =
    root_from_inclusion_proof_sound toy_hash two_entries 0 (1 ∷ []) (1 ∷ []) (second_leaf ∷ [])
      (second_leaf ∷ []) refl two-inclusion_proof two-merkle_root two-root_from_inclusion_proof
      two-NoCollision
