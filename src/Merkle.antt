-- ===== src/Merkle.antt =====
-- packages/core/src/merkle.ts: the Merkle tree of RFC 6962 over the receipt hashes of one chain.
-- Loops and recursions take fuel, the number of entries (or the index); running out of it is the
-- error `out_of_fuel`, which Merkle/Root.antt and Merkle/Inclusion.antt rule out.
pub mod Split
pub mod Tree
pub mod Root
pub mod Walk
pub mod Edge
pub mod AuditPath
pub mod Inclusion
pub mod Soundness
-- An index is a natural number, so the tests that it is an integer and not negative have no counterpart.
use sigillo.Common.{
  ℕ, zero, suc, ◌+◌, ◌-◌, ◌*◌, ◌/◌, ◌%◌, true, false, not, ◌&&◌, ◌||◌, List, [], ◌∷◌, ◌++◌, length,
  take, drop, ltb, leb, ◌==◌, if◌then◌else◌, Result, ok, err, ◌>>=◌, ◌>>◌, guard,
}
use sigillo.Crypto.{
  Bytes, hash_bytes, HashFunction, CoreError, not_hash, not_in_tree, wrong_length, out_of_fuel,
}

unfoldable pub assert_hash : Bytes → Result CoreError (Unit {0})
assert_hash value = guard (length value == hash_bytes) not_hash

-- `while (k * 2 < n) k *= 2`
unfoldable pub split_loop : ℕ → ℕ → ℕ → ℕ
split_loop zero k n = k
split_loop (suc fuel) k n = elim (ltb (k * 2) n) [ true ↦ split_loop fuel (k * 2) n | false ↦ k ]

unfoldable pub split_point : ℕ → ℕ
split_point n = split_loop n 1 n

unfoldable pub audit_path_rounds : ℕ → ℕ → ℕ → ℕ
audit_path_rounds zero index tree_size = 0
audit_path_rounds (suc fuel) index tree_size = elim (leb tree_size 1) [
  | true ↦ 0
  | false ↦
      let k = split_point tree_size in
      1 + (elim (ltb index k) [
        | true ↦ audit_path_rounds fuel index k
        | false ↦ audit_path_rounds fuel (index - k) (tree_size - k)
      ])
]

unfoldable pub audit_path_length : ℕ → ℕ → ℕ
audit_path_length index tree_size = audit_path_rounds tree_size index tree_size

-- `while (leafIndex !== 0 && leafIndex % 2 === 0)`: both indices are halved.
unfoldable pub skip_levels : ℕ → ℕ → ℕ → ℕ × ℕ
skip_levels zero leaf_index last_index = (leaf_index, last_index)
skip_levels (suc fuel) leaf_index last_index = elim (not (leaf_index == 0) && leaf_index % 2 == 0) [
  | true ↦ skip_levels fuel (leaf_index / 2) (last_index / 2)
  | false ↦ (leaf_index, last_index)
]

-- The variables of the loop in `rootFromInclusionProof`.
pub record WalkState : Type 0 where
  pub node : Bytes
  pub leaf_index : ℕ
  pub last_index : ℕ

module _ (crypto : HashFunction) where
  unfoldable pub merkle_leaf_hash : Bytes → Bytes
  merkle_leaf_hash entry = crypto.sha256 (0 ∷ entry)

  unfoldable pub merkle_node_hash : Bytes → Bytes → Result CoreError Bytes
  unfolding assert_hash
  merkle_node_hash left right = do
    assert_hash left
    assert_hash right
    ok (crypto.sha256 (1 ∷ left ++ right))

  unfoldable pub root_rounds : ℕ → List Bytes → Result CoreError Bytes
  root_rounds fuel [] = ok (crypto.sha256 [])
  root_rounds fuel (first ∷ []) = ok (merkle_leaf_hash first)
  root_rounds zero (_ ∷ _ ∷ _) = err out_of_fuel
  root_rounds (suc fuel) (first ∷ second ∷ more) = do
    let entries = first ∷ second ∷ more
    let k = split_point (length entries)
    left ← root_rounds fuel (take k entries)
    right ← root_rounds fuel (drop k entries)
    merkle_node_hash left right

  unfoldable pub merkle_root : List Bytes → Result CoreError Bytes
  merkle_root entries = root_rounds (length entries) entries

  unfoldable pub proof_rounds : ℕ → List Bytes → ℕ → Result CoreError (List Bytes)
  proof_rounds zero entries index = do
    guard (ltb index (length entries)) not_in_tree
    if length entries == 1 then ok [] else err out_of_fuel
  proof_rounds (suc fuel) entries index = do
    guard (ltb index (length entries)) not_in_tree
    let k = split_point (length entries)
    elim (length entries == 1) [
      | true ↦ ok []
      | false ↦ elim (ltb index k) [
        | true ↦ do
          path ← proof_rounds fuel (take k entries) index
          sibling ← merkle_root (drop k entries)
          ok (path ++ sibling ∷ [])
        | false ↦ do
          path ← proof_rounds fuel (drop k entries) (index - k)
          sibling ← merkle_root (take k entries)
          ok (path ++ sibling ∷ [])
      ]
    ]

  unfoldable pub inclusion_proof : List Bytes → ℕ → Result CoreError (List Bytes)
  inclusion_proof entries index = proof_rounds (length entries) entries index

  -- The body of the loop over the proof's steps.
  unfoldable pub walk_step : WalkState → Bytes → Result CoreError WalkState
  walk_step w sibling = do
    assert_hash sibling
    elim (w.leaf_index == w.last_index || w.leaf_index % 2 == 1) [
      | true ↦ do
        node ← merkle_node_hash sibling w.node
        let (leaf_index, last_index) = skip_levels w.leaf_index w.leaf_index w.last_index
        ok (record { node = node; leaf_index = leaf_index / 2; last_index = last_index / 2 })
      | false ↦ do
        node ← merkle_node_hash w.node sibling
        ok (record { node = node; leaf_index = w.leaf_index / 2; last_index = w.last_index / 2 })
    ]

  unfoldable pub walk_steps : WalkState → List Bytes → Result CoreError Bytes
  walk_steps w [] = ok w.node
  walk_steps w (sibling ∷ proof) = do w' ← walk_step w sibling; walk_steps w' proof

  unfoldable pub root_from_inclusion_proof : Bytes → ℕ → ℕ → List Bytes → Result CoreError Bytes
  root_from_inclusion_proof entry index tree_size proof = do
    guard (ltb index tree_size) not_in_tree
    guard (length proof == audit_path_length index tree_size) wrong_length
    walk_steps
        (record { node = merkle_leaf_hash entry; leaf_index = index; last_index = tree_size - 1 })
        proof
