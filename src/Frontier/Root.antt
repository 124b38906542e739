-- ===== src/Frontier/Root.antt =====
-- The frontier against the tree: appending never fails, and the root is the one that `merkleRoot`
-- computes from all the entries.
use sigillo.Common.{
  ℕ, zero, suc, ◌+◌, ◌/◌, ◌%◌, ◌^◌, ◌≤◌, ◌≡◌, refl, sym, ◌∙◌, List, [], ◌∷◌, ◌++◌, length, arith,
  append_assoc, append-nil, length-append, two_pow_suc, two_pow_pos, ok, Bool-cases, ◌==◌, inl, inr,
  false, ==_iff,
}
use sigillo.Crypto.{Bytes, HashFunction}
use sigillo.Merkle.{merkle_root, root_rounds}
use sigillo.Merkle.Root.{merkle_root-eq-tree_hash, merkle_leaf_hash-eq-leaf_hash}
use sigillo.Merkle.Tree.{tree_hash, tree_hash-fits}
use sigillo.Frontier.{
  MerkleFrontier, empty_frontier, set_bits_from, set_bits, frontier_append, frontier_root,
  append_all,
}
use sigillo.Frontier.Covers.{Covers, done, even, odd, carry_loop-Covers, fold_nodes-Covers}

module _ (crypto : HashFunction) where
  -- `f` is the frontier of the tree over `entries`.
  pub record IsFrontierOf (entries : List Bytes) (f : MerkleFrontier) : Type 0 where
    pub sized : f.size ≡ length entries
    pub covers : Covers crypto 0 f.size f.nodes entries

  pub empty_frontier-IsFrontierOf : IsFrontierOf [] empty_frontier
  empty_frontier-IsFrontierOf = record { sized = refl; covers = done refl }

  pub frontier_append-IsFrontierOf :
      {entries : List Bytes} {f : MerkleFrontier} (entry : Bytes)
      → IsFrontierOf entries f
      → (f' : MerkleFrontier) × (frontier_append crypto f entry ≡ ok f')
        × IsFrontierOf (entries ++ entry ∷ []) f'
  unfolding frontier_append tree_hash
  frontier_append-IsFrontierOf {entries} {f} entry v =
      let (nodes, run, covers) = carry_loop-Covers crypto (entry ∷ []) v.covers refl in
      (
        record { size = f.size + 1; nodes = nodes },
        rw (merkle_leaf_hash-eq-leaf_hash crypto entry, run) refl,
        record {
          sized = omega (arith, v.sized, length-append entries (entry ∷ []));
          covers = covers;
        },
      )

  root-Covers :
      {height n : ℕ} {nodes entries : List Bytes} (size : ℕ)
      → Covers crypto height n nodes entries
      → frontier_root crypto (record { size = size; nodes = nodes }) ≡ merkle_root crypto entries
  unfolding frontier_root merkle_root root_rounds
  root-Covers size (done e) = refl
  root-Covers {height} size (even e c) = root-Covers size c
  root-Covers {height} size (odd {nodes} {front} block e l r s c) =
      let bound = two_pow_suc height in
      let fits : length block ≤ 2 ^ height = omega arith in
      let (top, whole, run) =
        fold_nodes-Covers crypto block c (omega (arith, two_pow_pos height)) (omega arith) in
      rw (r, ← tree_hash-fits crypto height block fits, run, s)
        (sym (merkle_root-eq-tree_hash crypto top (front ++ block) whole))

  -- The root of a frontier is the root of the tree that it stands for.
  pub frontier_root-IsFrontierOf :
      {entries : List Bytes} {f : MerkleFrontier}
      → IsFrontierOf entries f
      → frontier_root crypto f ≡ merkle_root crypto entries
  frontier_root-IsFrontierOf {f} v = root-Covers f.size v.covers

  pub append_all-IsFrontierOf :
      (entries : List Bytes) {before : List Bytes} {f : MerkleFrontier}
      → IsFrontierOf before f
      → (f' : MerkleFrontier) × (append_all crypto f entries ≡ ok f')
        × IsFrontierOf (before ++ entries) f'
  unfolding append_all
  append_all-IsFrontierOf [] {before} {f} v = (f, refl, rw append-nil v)
  append_all-IsFrontierOf (entry ∷ entries) {before} {f} v =
      let (f₁, first, v₁) = frontier_append-IsFrontierOf entry v in
      let (f', run, v') = append_all-IsFrontierOf entries v₁ in
      (f', rw first run, rw append_assoc at v')

  -- Appending any entries to the empty frontier, one by one, never throws. The result counts them,
  -- and its root is the root that `merkleRoot` computes from all of them at once.
  pub frontier_root-append_all :
      (entries : List Bytes)
      → (f : MerkleFrontier) × (append_all crypto empty_frontier entries ≡ ok f)
        × (f.size ≡ length entries)
        × (frontier_root crypto f ≡ merkle_root crypto entries)
  frontier_root-append_all entries =
      let (f, run, v) = append_all-IsFrontierOf entries empty_frontier-IsFrontierOf in
      (f, run, v.sized, frontier_root-IsFrontierOf v)

  Covers-zero :
      {height n : ℕ} {nodes entries : List Bytes}
      → Covers crypto height n nodes entries
      → n ≡ 0
      → nodes ≡ []
  Covers-zero (done e) z = refl
  Covers-zero (even e c) z = Covers-zero c (omega arith)
  Covers-zero (odd block e l r s c) z = absurd (omega arith)

  set_bits_from-Covers :
      (fuel : ℕ) {height n : ℕ} {nodes entries : List Bytes} (count : ℕ)
      → Covers crypto height n nodes entries
      → n ≤ fuel
      → set_bits_from fuel n count ≡ count + length nodes
  unfolding set_bits_from
  set_bits_from-Covers zero {nodes} count c h =
      let empty : nodes ≡ [] = Covers-zero c (omega arith) in rw empty (omega arith)
  set_bits_from-Covers (suc fuel) count (done e) h = rw e (omega arith)
  set_bits_from-Covers (suc fuel) {n} {nodes} count (even {m} e c) h = elim (Bool-cases (n == 0)) [
    | inl zero_size ↦
        let empty : nodes ≡ [] = Covers-zero c (ground (arith, ==_iff n 0)) in
        rw (set_bits_from, zero_size, empty) (omega arith)
    | inr some_left ↦
        let half : n / 2 ≡ m = omega arith in
        let bit : n % 2 ≡ 0 = omega arith in
        rw (set_bits_from, some_left, half, bit)
          (set_bits_from-Covers fuel (count + 0) c (ground arith) ∙ omega arith)
  ]
  set_bits_from-Covers (suc fuel) {n} count (odd {m} {nodes} block e l r s c) h =
      let some_left : (n == 0) ≡ false = ground arith in
      let half : n / 2 ≡ m = omega arith in
      let bit : n % 2 ≡ 1 = omega arith in
      rw (set_bits_from, some_left, half, bit)
        (set_bits_from-Covers fuel (count + 1) c (omega arith) ∙ omega arith)

  -- A frontier holds as many nodes as its size has set bits.
  pub set_bits-IsFrontierOf :
      {entries : List Bytes} {f : MerkleFrontier}
      → IsFrontierOf entries f
      → set_bits f.size ≡ length f.nodes
  unfolding set_bits
  set_bits-IsFrontierOf {f} v = set_bits_from-Covers f.size 0 v.covers (omega arith) ∙ omega arith
