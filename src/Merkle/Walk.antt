-- ===== src/Merkle/Walk.antt =====
-- The upward walk of `rootFromInclusionProof`: which side each step takes, and
-- which indices it goes on with.
use sigillo.Common.{
  ℕ, zero, suc, ◌+◌, ◌*◌, ◌/◌, ◌%◌, ◌^◌, ◌≤◌, ◌<◌, ◌≡◌, ◌≢◌, refl, sym, ap, ◌∙◌, true, false, List,
  [], ◌∷◌, length, arith, ok, some, ◌==◌, get_elem?, not, ◌&&◌, ◌||◌,
}
use sigillo.Crypto.{Bytes, HashFunction}
use sigillo.Merkle.{WalkState, skip_levels, walk_step, walk_steps}
use sigillo.Merkle.Root.{merkle_node_hash-eq-node_hash, assert_hash-ok}
use sigillo.Merkle.Tree.{
  tree_hash, node_hash, leaf_hash, tree_hash-splits, length-tree_hash, left_part, right_part,
}

skip_levels-fuel : (f g i l : ℕ) → i ≤ f → i ≤ g → skip_levels f i l ≡ skip_levels g i l
unfolding skip_levels
skip_levels-fuel zero zero i l hf hg = refl
skip_levels-fuel zero (suc g) i l hf hg = ground arith
skip_levels-fuel (suc f) zero i l hf hg = ground arith
skip_levels-fuel (suc f) (suc g) i l hf hg = ground (arith, skip_levels-fuel f g (i / 2) (l / 2))

skip_levels-double : (x l : ℕ) → 1 ≤ x → skip_levels (2 * x) (2 * x) (2 * l) ≡ skip_levels x x l
unfolding skip_levels
skip_levels-double x l h =
    let even : (not (2 * x == 0) && 2 * x % 2 == 0) ≡ true = ground arith in
    let half : 2 * x / 2 ≡ x = omega arith in
    let half_last : 2 * l / 2 ≡ l = omega arith in
    skip_levels-fuel (2 * x) (suc (2 * x)) (2 * x) (2 * l) (omega arith) (omega arith)
    ∙ rw (skip_levels, even, half, half_last)
        (skip_levels-fuel (2 * x) x x l (omega arith) (omega arith))

skip_levels-odd : (f i l : ℕ) → i % 2 ≡ 1 → skip_levels f i l ≡ (i, l)
unfolding skip_levels
skip_levels-odd zero i l h = refl
skip_levels-odd (suc f) i l h = ground arith

module _ (crypto : HashFunction) where
  module _ (node sibling : Bytes) (o l : ℕ) (n : length node ≡ 32) (s : length sibling ≡ 32) where
    walk_step-even :
        2 * o ≢ l
        → walk_step crypto (record { node = node; leaf_index = 2 * o; last_index = l }) sibling
          ≡ ok (record { node = node_hash crypto node sibling; leaf_index = o; last_index = l / 2 })
    unfolding walk_step
    walk_step-even h =
        let side : (2 * o == l || 2 * o % 2 == 1) ≡ false = ground arith in
        let half : 2 * o / 2 ≡ o = omega arith in
        rw (
          walk_step,
          assert_hash-ok sibling s,
          side,
          merkle_node_hash-eq-node_hash crypto node sibling n s,
          half,
        )

    walk_step-odd :
        walk_step crypto (record { node = node; leaf_index = 2 * o + 1; last_index = l }) sibling
        ≡ ok (record { node = node_hash crypto sibling node; leaf_index = o; last_index = l / 2 })
    unfolding walk_step
    walk_step-odd =
        let side : (2 * o + 1 == l || (2 * o + 1) % 2 == 1) ≡ true = ground arith in
        let half : (2 * o + 1) / 2 ≡ o = omega arith in
        let stay = skip_levels-odd (2 * o + 1) (2 * o + 1) l (omega arith) in
        rw (
          walk_step,
          assert_hash-ok sibling s,
          side,
          merkle_node_hash-eq-node_hash crypto sibling node s n,
          stay,
          half,
        )

  walk_step-double :
      (x : ℕ) (node sibling : Bytes)
      → walk_step crypto (record { node = node; leaf_index = 2 * x; last_index = 2 * x }) sibling
        ≡ walk_step crypto (record { node = node; leaf_index = x; last_index = x }) sibling
  unfolding walk_step
  walk_step-double zero node sibling = refl
  walk_step-double (suc x) node sibling =
      let edge : (2 * suc x == 2 * suc x || 2 * suc x % 2 == 1) ≡ true = ground arith in
      let edge' : (suc x == suc x || suc x % 2 == 1) ≡ true = ground arith in
      let skipped = skip_levels-double (suc x) (suc x) (omega arith) in
      rw (walk_step, edge, skipped, edge')

  -- On the right edge of the tree, where both indices are equal, a level may be skipped.
  pub walk_steps-double :
      (x : ℕ) (node : Bytes) (proof : List Bytes)
      → walk_steps crypto (record { node = node; leaf_index = 2 * x; last_index = 2 * x }) proof
        ≡ walk_steps crypto (record { node = node; leaf_index = x; last_index = x }) proof
  unfolding walk_steps
  walk_steps-double x node [] = refl
  walk_steps-double x node (sibling ∷ proof) = rw (walk_step-double x node sibling)

  abbrev pub at : Bytes → ℕ → ℕ → WalkState
  at node leaf_index last_index = record {
    node = node;
    leaf_index = leaf_index;
    last_index = last_index;
  }

  walk_steps-cons :
      (w : WalkState) (sibling : Bytes) (proof : List Bytes) {w' : WalkState}
      → walk_step crypto w sibling ≡ ok w'
      → walk_steps crypto w (sibling ∷ proof) ≡ walk_steps crypto w' proof
  unfolding walk_steps
  walk_steps-cons w sibling proof e = rw e

  pub tree_hash-leaf :
      (entries : List Bytes) (i : ℕ) {entry : Bytes}
      → length entries ≡ 1
      → get_elem? entries i ≡ some entry
      → tree_hash crypto 0 entries ≡ leaf_hash crypto entry
  unfolding tree_hash
  tree_hash-leaf [] i n g = cc
  tree_hash-leaf (first ∷ []) zero n g = cc
  tree_hash-leaf (first ∷ []) (suc i) n g = cc
  tree_hash-leaf (first ∷ second ∷ more) i n g = absurd (omega arith)

  -- The last step into a tree that splits, from its left and from its right part.
  module _ (j : ℕ) (entries : List Bytes) (split : 2 ^ j < length entries) (o l : ℕ) where
    pub step_from_left :
        (rest : List Bytes)
        → 2 * o ≢ l
        → walk_steps crypto
            (at (tree_hash crypto j (left_part crypto j entries)) (2 * o) l)
            (tree_hash crypto j (right_part crypto j entries) ∷ rest)
          ≡ walk_steps crypto (at (tree_hash crypto (suc j) entries) o (l / 2)) rest
    step_from_left rest inner =
        walk_steps-cons _ _ rest (
          walk_step-even _ _ o l (length-tree_hash crypto j (left_part crypto j entries))
            (length-tree_hash crypto j (right_part crypto j entries)) inner)
        ∙ ap (λ (node : Bytes). walk_steps crypto (at node o (l / 2)) rest)
            (sym (tree_hash-splits crypto j entries split))

    pub step_from_right :
        (rest : List Bytes)
        → walk_steps crypto
            (at (tree_hash crypto j (right_part crypto j entries)) (2 * o + 1) l)
            (tree_hash crypto j (left_part crypto j entries) ∷ rest)
          ≡ walk_steps crypto (at (tree_hash crypto (suc j) entries) o (l / 2)) rest
    step_from_right rest =
        walk_steps-cons _ _ rest (
          walk_step-odd _ _ o l (length-tree_hash crypto j (right_part crypto j entries))
            (length-tree_hash crypto j (left_part crypto j entries)))
        ∙ ap (λ (node : Bytes). walk_steps crypto (at node o (l / 2)) rest)
            (sym (tree_hash-splits crypto j entries split))
