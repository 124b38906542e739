-- ===== src/Merkle/Root.antt =====
-- The recursion of `merkleRoot` computes the tree hash: its fuel suffices and no length check fails.
use sigillo.Common.{
  ℕ, zero, suc, ◌^◌, ◌≤◌, ◌<◌, ◌≡◌, refl, sym, ap, ◌∙◌, List, [], ◌∷◌, length, take, drop, arith,
  leb, Bool-cases, inl, inr, leb→le, leb→lt, length-take, length-drop, two_pow_suc, two_pow_pos, ok,
}
use sigillo.Crypto.{Bytes, HashFunction}
use sigillo.Merkle.{merkle_node_hash, merkle_leaf_hash, root_rounds, merkle_root, assert_hash}
use sigillo.Merkle.Split.{split_point-eq-pow}
use sigillo.Merkle.Tree.{
  leaf_hash, node_hash, tree_hash, tree_hash-fits, tree_hash-splits, length-tree_hash,
}

pub assert_hash-ok : (value : Bytes) → length value ≡ 32 → assert_hash value ≡ ok tt
unfolding assert_hash
assert_hash-ok value h = rw h

module _ (crypto : HashFunction) where
  pub merkle_leaf_hash-eq-leaf_hash :
      (entry : Bytes) → merkle_leaf_hash crypto entry ≡ leaf_hash crypto entry
  unfolding merkle_leaf_hash leaf_hash
  merkle_leaf_hash-eq-leaf_hash entry = refl

  pub merkle_node_hash-eq-node_hash :
      (left right : Bytes)
      → length left ≡ 32
      → length right ≡ 32
      → merkle_node_hash crypto left right ≡ ok (node_hash crypto left right)
  unfolding merkle_node_hash node_hash
  merkle_node_hash-eq-node_hash left right l r = rw l (rw r refl)

  -- One level of the recursion, where the list is longer than `2 ^ height`.
  root_rounds-splits :
      (height fuel : ℕ) (entries : List Bytes) {left right : Bytes}
      → 2 ^ height < length entries
      → length entries ≤ 2 ^ suc height
      → root_rounds crypto fuel (take (2 ^ height) entries) ≡ ok left
      → root_rounds crypto fuel (drop (2 ^ height) entries) ≡ ok right
      → root_rounds crypto (suc fuel) entries ≡ merkle_node_hash crypto left right
  unfolding root_rounds
  root_rounds-splits height fuel [] lo hi l r = elim lo [ ]
  root_rounds-splits height fuel (entry ∷ []) lo hi l r = absurd (omega (arith, two_pow_pos height))
  root_rounds-splits height fuel (entry ∷ other ∷ more) lo hi l r =
      rw (split_point-eq-pow height (length (entry ∷ other ∷ more)) lo hi, l, r)

  root_rounds-eq-tree_hash :
      (height fuel : ℕ) (entries : List Bytes)
      → length entries ≤ 2 ^ height
      → length entries ≤ suc fuel
      → root_rounds crypto fuel entries ≡ ok (tree_hash crypto height entries)
  unfolding root_rounds tree_hash
  root_rounds-eq-tree_hash zero fuel [] h f = refl
  root_rounds-eq-tree_hash zero fuel (entry ∷ []) h f = ap ok (merkle_leaf_hash-eq-leaf_hash entry)
  root_rounds-eq-tree_hash zero fuel (entry ∷ other ∷ more) h f = absurd (omega arith)
  root_rounds-eq-tree_hash (suc height) zero entries h f =
      let small : length entries ≤ 2 ^ height = omega (arith, two_pow_pos height) in
      root_rounds-eq-tree_hash height zero entries small f
      ∙ ap ok (sym (tree_hash-fits crypto height entries small))
  root_rounds-eq-tree_hash (suc height) (suc fuel) entries h f =
      elim (Bool-cases (leb (length entries) (2 ^ height))) [
        | inl fits ↦
            rw (tree_hash, fits)
              (root_rounds-eq-tree_hash height (suc fuel) entries (leb→le _ _ fits) f)
        | inr splits ↦
            let lo = leb→lt (length entries) (2 ^ height) splits in
            let left = take (2 ^ height) entries in
            let right = drop (2 ^ height) entries in
            let bound = two_pow_suc height in
            let left_length = length-take (2 ^ height) entries in
            let right_length = length-drop (2 ^ height) entries in
            root_rounds-splits height fuel entries lo h
              (root_rounds-eq-tree_hash height fuel left (omega arith) (omega arith))
              (root_rounds-eq-tree_hash height fuel right (omega arith)
                (omega (arith, two_pow_pos height)))
            ∙ merkle_node_hash-eq-node_hash _ _ (length-tree_hash crypto height left)
                (length-tree_hash crypto height right)
            ∙ ap ok (sym (tree_hash-splits crypto height entries lo))
      ]

  -- `merkleRoot` never throws, and is the RFC 6962 tree hash at any height that the entries fit.
  pub merkle_root-eq-tree_hash :
      (height : ℕ) (entries : List Bytes)
      → length entries ≤ 2 ^ height
      → merkle_root crypto entries ≡ ok (tree_hash crypto height entries)
  unfolding merkle_root
  merkle_root-eq-tree_hash height entries h =
      root_rounds-eq-tree_hash height (length entries) entries h (omega arith)
