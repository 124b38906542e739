-- ===== src/Merkle/Soundness.antt =====
-- What an accepted inclusion proof shows: the walk is injective as long as sha256 is on what it
-- hashes.
use sigillo.Common.{
  ◌⊎◌, ◌≢◌, ℕ, ◌-◌, ◌/◌, ◌%◌, ◌≡◌, refl, sym, ◌∙◌, Bool, true, false, ◌||◌, List, [], ◌∷◌, ◌++◌,
  length, arith, ok, err, some, ◌==◌, Bool-cases, inl, inr, get_elem?, append-injective, >>=-eq-ok,
  if◌then◌else◌,
}
use sigillo.Crypto.{Bytes, HashFunction}
use sigillo.Merkle.{
  WalkState, skip_levels, merkle_node_hash, merkle_leaf_hash, walk_step, walk_steps, merkle_root,
  inclusion_proof, root_from_inclusion_proof, assert_hash, audit_path_length,
}
use sigillo.Merkle.Inclusion.{root_from_inclusion_proof-inclusion_proof}

-- Whether the sibling is on the left, and the indices on the next level: both follow from the
-- indices alone.
abbrev sibling_is_left : ℕ → ℕ → Bool
sibling_is_left i l = i == l || i % 2 == 1

abbrev next_indices : ℕ → ℕ → ℕ × ℕ
next_indices i l =
    if sibling_is_left i l
    then ((skip_levels i i l).0 / 2, (skip_levels i i l).1 / 2)
    else (i / 2, l / 2)

abbrev step_input : WalkState → Bytes → Bytes
step_input w sibling =
    if sibling_is_left w.leaf_index w.last_index
    then 1 ∷ sibling ++ w.node
    else 1 ∷ w.node ++ sibling

step_input-injective :
    (w w' : WalkState) (s s' : Bytes)
    → w.leaf_index ≡ w'.leaf_index
    → w.last_index ≡ w'.last_index
    → length w.node ≡ length w'.node
    → length s ≡ length s'
    → step_input w s ≡ step_input w' s'
    → (w.node ≡ w'.node) × (s ≡ s')
step_input-injective w w' s s' i l n m e =
    elim (Bool-cases (sibling_is_left w.leaf_index w.last_index)) [
      | inl left ↦
          let left' : sibling_is_left w'.leaf_index w'.last_index ≡ true = rw (← i, ← l) left in
          let same : (1 ∷ s ++ w.node) ≡ (1 ∷ s' ++ w'.node) = rw (left, left') at e in
          let (siblings, nodes) = append-injective s s' w.node w'.node m (cc) in (nodes, siblings)
      | inr right ↦
          let right' : sibling_is_left w'.leaf_index w'.last_index ≡ false = rw (← i, ← l) right in
          let same : (1 ∷ w.node ++ s) ≡ (1 ∷ w'.node ++ s') = rw (right, right') at e in
          append-injective w.node w'.node s s' n (cc)
    ]

module _ (crypto : HashFunction) where
  -- The strings that a walk hashes, in order.
  unfoldable pub hashed : WalkState → List Bytes → List Bytes
  hashed w [] = []
  hashed w (sibling ∷ proof) = elim (walk_step crypto w sibling) [
    | ok w' ↦ step_input w sibling ∷ hashed w' proof
    | err _ ↦ []
  ]

  -- Where the walk of `rootFromInclusionProof` starts.
  abbrev pub start : Bytes → ℕ → ℕ → WalkState
  start entry index tree_size = record {
    node = merkle_leaf_hash crypto entry;
    leaf_index = index;
    last_index = tree_size - 1;
  }

  -- At no place do the two lists hold different strings with the same digest.
  abbrev pub NoCollision : List Bytes → List Bytes → Type 0
  NoCollision [] bs = Unit
  NoCollision (a ∷ as') [] = Unit
  NoCollision (a ∷ as') (b ∷ bs) =
      ((a ≡ b) ⊎ (crypto.sha256 a ≢ crypto.sha256 b)) × NoCollision as' bs

  same_message :
      {a b : Bytes}
      → (a ≡ b) ⊎ (crypto.sha256 a ≢ crypto.sha256 b)
      → crypto.sha256 a ≡ crypto.sha256 b
      → a ≡ b
  same_message (inl same) e = same
  same_message (inr differ) e = absurd (differ e)

  assert_hash-inv : (value : Bytes) → assert_hash value ≡ ok tt → length value ≡ 32
  unfolding assert_hash
  assert_hash-inv value h = ground arith

  walk_step-inv :
      (w : WalkState) (sibling : Bytes) {w' : WalkState}
      → walk_step crypto w sibling ≡ ok w'
      → (length sibling ≡ 32)
        × (length w.node ≡ 32)
        × (w'.node ≡ crypto.sha256 (step_input w sibling))
        × (w'.leaf_index ≡ (next_indices w.leaf_index w.last_index).0)
        × (w'.last_index ≡ (next_indices w.leaf_index w.last_index).1)
  unfolding walk_step merkle_node_hash assert_hash
  walk_step-inv w sibling {w'} h =
      (ground arith, ground arith, ground arith, ground arith, ground arith)

  hashed-cons :
      (w : WalkState) (s : Bytes) (p : List Bytes) {v : WalkState}
      → walk_step crypto w s ≡ ok v
      → hashed w (s ∷ p) ≡ step_input w s ∷ hashed v p
  unfolding hashed
  hashed-cons w s p e = rw (hashed, e)

  -- Two walks of one length from one position that end in the same hash are the same walk.
  walk_steps-injective :
      (p p' : List Bytes) (w w' : WalkState) {root : Bytes}
      → walk_steps crypto w p ≡ ok root
      → walk_steps crypto w' p' ≡ ok root
      → w.leaf_index ≡ w'.leaf_index
      → w.last_index ≡ w'.last_index
      → length p ≡ length p'
      → NoCollision (hashed w p) (hashed w' p')
      → (w.node ≡ w'.node) × (p ≡ p')
  unfolding walk_steps hashed
  walk_steps-injective [] [] w w' e e' i l n free = (cc, refl)
  walk_steps-injective [] (s' ∷ p') w w' e e' i l n free = absurd (omega arith)
  walk_steps-injective (s ∷ p) [] w w' e e' i l n free = absurd (omega arith)
  walk_steps-injective (s ∷ p) (s' ∷ p') w w' e e' i l n free =
      let (v, first, more) = >>=-eq-ok (walk_step crypto w s) (λ u. walk_steps crypto u p) e in
      let (v', first', more') =
        >>=-eq-ok (walk_step crypto w' s') (λ u. walk_steps crypto u p') e' in
      let (sized, node_sized, node, leaf, last) = walk_step-inv w s first in
      let (sized', node_sized', node', leaf', last') = walk_step-inv w' s' first' in
      let (no_collision, later) : ((step_input w s ≡ step_input w' s')
            ⊎ (crypto.sha256 (step_input w s) ≢ crypto.sha256 (step_input w' s')))
          × NoCollision (hashed v p) (hashed v' p') =
        rw (hashed-cons w s p first, hashed-cons w' s' p' first') at free in
      let same_leaf : v.leaf_index ≡ v'.leaf_index = leaf ∙ rw (i, l) (sym leaf') in
      let same_last : v.last_index ≡ v'.last_index = last ∙ rw (i, l) (sym last') in
      let (same_node, same_path) =
        walk_steps-injective p p' v v' more more' same_leaf same_last (omega arith) later in
      let same_input = same_message no_collision (sym node ∙ same_node ∙ node') in
      let (same_below, same_sibling) =
        step_input-injective w w' s s' i l (node_sized ∙ sym node_sized') (sized ∙ sym sized')
          same_input in
      (same_below, cc)

  root_from_inclusion_proof-inv :
      (entry : Bytes) (index n : ℕ) (proof : List Bytes) {root : Bytes}
      → root_from_inclusion_proof crypto entry index n proof ≡ ok root
      → (length proof ≡ audit_path_length index n)
        × (walk_steps crypto (start entry index n) proof ≡ ok root)
  unfolding root_from_inclusion_proof
  root_from_inclusion_proof-inv entry index n proof e = (ground arith, ground arith)

  -- Of the proofs and entries that `rootFromInclusionProof` takes to the tree's root at an index,
  -- only the tree's entry there and the proof that `inclusionProof` makes can be accepted, unless
  -- the two runs hash different strings to one digest at the same place.
  pub root_from_inclusion_proof_sound :
      (entries : List Bytes) (index : ℕ) (entry actual : Bytes) (proof honest : List Bytes)
      {root : Bytes}
      → get_elem? entries index ≡ some actual
      → inclusion_proof crypto entries index ≡ ok honest
      → merkle_root crypto entries ≡ ok root
      → root_from_inclusion_proof crypto entry index (length entries) proof ≡ ok root
      → NoCollision
          ((0 ∷ entry) ∷ hashed (start entry index (length entries)) proof)
          ((0 ∷ actual) ∷ hashed (start actual index (length entries)) honest)
      → (entry ≡ actual) × (proof ≡ honest)
  unfolding merkle_leaf_hash
  root_from_inclusion_proof_sound entries index entry actual proof honest {root} found made rooted
        accepted free =
      let n = length entries in
      let (path, made', _, verified) =
        root_from_inclusion_proof-inclusion_proof crypto entries index found in
      let same_path : honest ≡ path = cc in
      let honest_run : root_from_inclusion_proof crypto actual index n honest ≡ ok root =
        rw same_path (verified ∙ rooted) in
      let (sized, walked) = root_from_inclusion_proof-inv entry index n proof accepted in
      let (sized', walked') = root_from_inclusion_proof-inv actual index n honest honest_run in
      let (same_leaf, same_proof) =
        walk_steps-injective proof honest (start entry index n) (start actual index n) walked
          walked' refl refl (sized ∙ sym sized') free.1 in
      let same_input = same_message free.0 same_leaf in (cc, same_proof)
