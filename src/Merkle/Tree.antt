-- ===== src/Merkle/Tree.antt =====
-- The reference: RFC 6962's tree hash and audit path by recursion on the height of the tree, with
-- no split point, no errors and no fuel.
use sigillo.Common.{
  ℕ, zero, suc, ◌-◌, ◌^◌, ◌≤◌, ◌<◌, ◌≡◌, refl, true, false, List, [], ◌∷◌, ◌++◌, length, take, drop,
  ltb, leb, arith, Bool-cases, inl, inr,
}
use sigillo.Crypto.{Bytes, IsBytes, HashFunction}

module _ (crypto : HashFunction) where
  unfoldable pub leaf_hash : Bytes → Bytes
  leaf_hash entry = crypto.sha256 (0 ∷ entry)

  unfoldable pub node_hash : Bytes → Bytes → Bytes
  node_hash left right = crypto.sha256 (1 ∷ left ++ right)

  -- The hash of a tree of at most `2 ^ height` entries: the left part of one that does not fit the
  -- height below is perfect.
  unfoldable pub tree_hash : ℕ → List Bytes → Bytes
  tree_hash zero [] = crypto.sha256 []
  tree_hash zero (entry ∷ _) = leaf_hash entry
  tree_hash (suc height) entries = elim (leb (length entries) (2 ^ height)) [
    | true ↦ tree_hash height entries
    | false ↦
        node_hash (tree_hash height (take (2 ^ height) entries))
          (tree_hash height (drop (2 ^ height) entries))
  ]

  -- The sibling hashes from the leaf at `index` upwards.
  unfoldable pub audit_path : ℕ → List Bytes → ℕ → List Bytes
  audit_path zero entries index = []
  audit_path (suc height) entries index = elim (leb (length entries) (2 ^ height)) [
    | true ↦ audit_path height entries index
    | false ↦ elim (ltb index (2 ^ height)) [
      | true ↦
          audit_path height (take (2 ^ height) entries) index
          ++ tree_hash height (drop (2 ^ height) entries) ∷ []
      | false ↦
          audit_path height (drop (2 ^ height) entries) (index - 2 ^ height)
          ++ tree_hash height (take (2 ^ height) entries) ∷ []
    ]
  ]

  pub length-leaf_hash : (entry : Bytes) → length (leaf_hash entry) ≡ 32
  unfolding leaf_hash
  length-leaf_hash entry = crypto.length-sha256 (0 ∷ entry)

  pub length-node_hash : (left right : Bytes) → length (node_hash left right) ≡ 32
  unfolding node_hash
  length-node_hash left right = crypto.length-sha256 (1 ∷ left ++ right)

  pub audit_path-zero : (entries : List Bytes) (index : ℕ) → audit_path 0 entries index ≡ []
  unfolding audit_path
  audit_path-zero entries index = refl

  module _ (height : ℕ) (entries : List Bytes) where
    abbrev pub left_part : List Bytes
    left_part = take (2 ^ height) entries

    abbrev pub right_part : List Bytes
    right_part = drop (2 ^ height) entries

    pub tree_hash-fits :
        length entries ≤ 2 ^ height → tree_hash (suc height) entries ≡ tree_hash height entries
    unfolding tree_hash
    tree_hash-fits h = ground arith

    pub tree_hash-splits :
        2 ^ height < length entries
        → tree_hash (suc height) entries
          ≡ node_hash (tree_hash height left_part) (tree_hash height right_part)
    unfolding tree_hash
    tree_hash-splits h = ground arith

    pub audit_path-fits :
        (index : ℕ)
        → length entries ≤ 2 ^ height
        → audit_path (suc height) entries index ≡ audit_path height entries index
    unfolding audit_path
    audit_path-fits index h = ground arith

    pub audit_path-left :
        (index : ℕ)
        → 2 ^ height < length entries
        → index < 2 ^ height
        → audit_path (suc height) entries index
          ≡ audit_path height left_part index ++ tree_hash height right_part ∷ []
    unfolding audit_path
    audit_path-left index h lt = ground arith

    pub audit_path-right :
        (index : ℕ)
        → 2 ^ height < length entries
        → 2 ^ height ≤ index
        → audit_path (suc height) entries index
          ≡ audit_path height right_part (index - 2 ^ height) ++ tree_hash height left_part ∷ []
    unfolding audit_path
    audit_path-right index h le = ground arith

  pub length-tree_hash :
      (height : ℕ) (entries : List Bytes) → length (tree_hash height entries) ≡ 32
  unfolding tree_hash
  length-tree_hash zero [] = crypto.length-sha256 []
  length-tree_hash zero (entry ∷ more) = length-leaf_hash entry
  length-tree_hash (suc height) entries = elim (Bool-cases (leb (length entries) (2 ^ height))) [
    | inl fits ↦ rw (tree_hash, fits) (length-tree_hash height entries)
    | inr splits ↦ rw (tree_hash, splits) (length-node_hash _ _)
  ]

  pub tree_hash-IsBytes : (height : ℕ) (entries : List Bytes) → IsBytes (tree_hash height entries)
  unfolding tree_hash leaf_hash node_hash
  tree_hash-IsBytes zero [] = crypto.sha256-IsBytes []
  tree_hash-IsBytes zero (entry ∷ more) = crypto.sha256-IsBytes (0 ∷ entry)
  tree_hash-IsBytes (suc height) entries = elim (Bool-cases (leb (length entries) (2 ^ height))) [
    | inl fits ↦ rw (tree_hash, fits) (tree_hash-IsBytes height entries)
    | inr splits ↦ rw (tree_hash, splits) (crypto.sha256-IsBytes _)
  ]
