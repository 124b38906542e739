-- ===== src/Frontier/Covers.antt =====
-- What a frontier stands for: its nodes are the tree hashes of the perfect blocks that the entries
-- split into by the binary digits of their number, lowest digit first.
use sigillo.Common.{
  ℕ, suc, ◌+◌, ◌*◌, ◌/◌, ◌%◌, ◌^◌, ◌≤◌, ◌≡◌, refl, sym, ap, ◌∙◌, List, [], ◌∷◌, ◌++◌, length, arith,
  append_assoc, length-append, take-append, drop-append, two_pow_suc, two_pow_pos, ok, drop, ◌==◌,
  true,
}
use sigillo.Crypto.{Bytes, HashFunction}
use sigillo.Merkle.{merkle_node_hash}
use sigillo.Merkle.Root.{merkle_node_hash-eq-node_hash}
use sigillo.Merkle.Tree.{tree_hash, node_hash, tree_hash-splits, tree_hash-fits, length-tree_hash}
use sigillo.Frontier.{carry_loop, fold_nodes}

module _ (crypto : HashFunction) where
  -- `Covers height n nodes entries`: `n` blocks of `2 ^ height` entries.
  pub data Covers : ℕ → ℕ → List Bytes → List Bytes → Type 0 where
    done : {height n : ℕ} → n ≡ 0 → Covers height n [] []
    even :
        {height n m : ℕ} {nodes entries : List Bytes}
        → n ≡ 2 * m
        → Covers (suc height) m nodes entries
        → Covers height n nodes entries
    odd :
        {height n m : ℕ} {node : Bytes} {nodes front entries : List Bytes} (block : List Bytes)
        → n ≡ 2 * m + 1
        → length block ≡ 2 ^ height
        → node ≡ tree_hash crypto height block
        → entries ≡ front ++ block
        → Covers (suc height) m nodes front
        → Covers height n (node ∷ nodes) entries

  -- Two adjacent blocks make one tree, if the left one is perfect and the right one is not larger.
  pub tree_hash-append :
      (height : ℕ) (left right : List Bytes)
      → length left ≡ 2 ^ height
      → 1 ≤ length right
      → tree_hash crypto (suc height) (left ++ right)
        ≡ node_hash crypto (tree_hash crypto height left) (tree_hash crypto height right)
  tree_hash-append height left right l r =
      tree_hash-splits crypto height (left ++ right) (omega (arith, length-append left right))
      ∙ ap
          (λ (part : List Bytes).
            node_hash crypto (tree_hash crypto height part)
              (tree_hash crypto height (drop (2 ^ height) (left ++ right))))
          (take-append left right (2 ^ height) l)
      ∙ ap
          (λ (part : List Bytes).
            node_hash crypto (tree_hash crypto height left) (tree_hash crypto height part))
          (drop-append left right (2 ^ height) l)

  carry_loop-even :
      (n m : ℕ) (nodes : List Bytes) (node : Bytes)
      → n ≡ 2 * m
      → carry_loop crypto n nodes node ≡ ok (node ∷ nodes)
  unfolding carry_loop
  carry_loop-even n m [] node e = ground arith
  carry_loop-even n m (left ∷ nodes) node e = ground arith

  carry_loop-odd :
      (n m : ℕ) (left : Bytes) (nodes : List Bytes) (node : Bytes) {merged : Bytes}
      → n ≡ 2 * m + 1
      → merkle_node_hash crypto left node ≡ ok merged
      → carry_loop crypto n (left ∷ nodes) node ≡ carry_loop crypto m nodes merged
  unfolding carry_loop
  carry_loop-odd n m left nodes node e h =
      let bit : (n % 2 == 1) ≡ true = ground arith in
      let half : n / 2 ≡ m = omega arith in rw (carry_loop, bit, h, half)

  merkle_node_hash-tree_hash :
      (height : ℕ) (left right : List Bytes)
      → length left ≡ 2 ^ height
      → 1 ≤ length right
      → merkle_node_hash crypto (tree_hash crypto height left) (tree_hash crypto height right)
        ≡ ok (tree_hash crypto (suc height) (left ++ right))
  merkle_node_hash-tree_hash height left right l r =
      merkle_node_hash-eq-node_hash crypto _ _ (length-tree_hash crypto height left)
        (length-tree_hash crypto height right)
      ∙ ap ok (sym (tree_hash-append height left right l r))

  -- The carry loop adds a block.
  pub carry_loop-Covers :
      {height n : ℕ} {nodes entries : List Bytes} (block : List Bytes)
      → Covers height n nodes entries
      → length block ≡ 2 ^ height
      → (nodes' : List Bytes) × (carry_loop crypto n nodes (tree_hash crypto height block)
          ≡ ok nodes')
        × Covers height (n + 1) nodes' (entries ++ block)
  carry_loop-Covers {height} {n} block (done e) b = (
    tree_hash crypto height block ∷ [],
    carry_loop-even n 0 [] _ e,
    odd {m = 0} block (omega arith) b refl refl (done refl),
  )
  carry_loop-Covers {height} {n} {nodes} block (even {m} e c) b = (
    tree_hash crypto height block ∷ nodes,
    carry_loop-even n m nodes _ e,
    odd {m = m} block (omega arith) b refl refl c,
  )
  carry_loop-Covers {height} {n} block (odd {m} {nodes} {front} last e l r s c) b =
      let merged =
        merkle_node_hash-tree_hash height last block l (omega (arith, two_pow_pos height)) in
      let (nodes', run, covered) =
        carry_loop-Covers (last ++ block) c
          (omega (arith, length-append last block, two_pow_suc height)) in
      (
        nodes',
        carry_loop-odd n m _ nodes _ e (rw r merged) ∙ run,
        even {m = m + 1} (omega arith) (rw (s, append_assoc) covered),
      )

  -- Folding the nodes from the smallest block up rebuilds the root, with `more` entries after them.
  pub fold_nodes-Covers :
      {height n : ℕ} {nodes entries : List Bytes} (more : List Bytes)
      → Covers height n nodes entries
      → 1 ≤ length more
      → length more ≤ 2 ^ height
      → (top : ℕ) × (length (entries ++ more) ≤ 2 ^ top)
        × (fold_nodes crypto (tree_hash crypto height more) nodes
            ≡ ok (tree_hash crypto top (entries ++ more)))
  unfolding fold_nodes
  fold_nodes-Covers {height} more (done e) lo hi = (height, hi, refl)
  fold_nodes-Covers {height} {nodes} more (even e c) lo hi =
      rw (← tree_hash-fits crypto height more hi)
        (fold_nodes-Covers more c lo (omega (arith, two_pow_suc height)))
  fold_nodes-Covers {height} more (odd {nodes} {front} block e l r s c) lo hi =
      let merged = merkle_node_hash-tree_hash height block more l lo in
      let (top, fits, run) =
        fold_nodes-Covers (block ++ more) c (omega (arith, length-append block more))
          (omega (arith, length-append block more, two_pow_suc height)) in
      rw (s, append_assoc, r, merged) (top, fits, run)
