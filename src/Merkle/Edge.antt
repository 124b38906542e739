-- ===== src/Merkle/Edge.antt =====
-- The walk along a reference audit path, from a leaf to the tree hash: in a perfect subtree, and on
-- the right edge of the tree.
use sigillo.Common.{
  ℕ, zero, suc, ◌+◌, ◌-◌, ◌*◌, ◌/◌, ◌^◌, ◌≤◌, ◌<◌, ◌≡◌, ap, ◌∙◌, List, [], ◌++◌, length, arith,
  append_assoc, append-nil, two_pow_suc, two_pow_pos, ok, some, Bool-cases, leb, ltb, inl, inr,
  get_elem?, length-take, length-drop, get_elem?-take, get_elem?-drop, leb→le, leb→lt, ltb→lt,
}
use sigillo.Crypto.{Bytes, HashFunction}
use sigillo.Merkle.{walk_steps}
use sigillo.Merkle.Tree.{
  tree_hash, leaf_hash, audit_path, tree_hash-fits, audit_path-fits, audit_path-left,
  audit_path-right, audit_path-zero, left_part, right_part,
}
use sigillo.Merkle.Walk.{at, walk_steps-double, tree_hash-leaf, step_from_left, step_from_right}

module _ (crypto : HashFunction) where
  -- The parent of the last node of a level.
  half_last :
      (j q L : ℕ)
      → q * 2 ^ suc j ≤ L
      → L < q * 2 ^ suc j + 2 ^ suc j
      → (q' : ℕ) × (q' / 2 ≡ q) × (2 * q ≤ q') × (q' * 2 ^ j ≤ L) × (L < q' * 2 ^ j + 2 ^ j)
  half_last j q L lo hi =
      let double = two_pow_suc j in
      let product = ap (λ (p : ℕ). q * p) (two_pow_suc j) in
      elim (Bool-cases (ltb L (2 * q * 2 ^ j + 2 ^ j))) [
        | inl first ↦
            let small = ltb→lt L (2 * q * 2 ^ j + 2 ^ j) first in
            (2 * q, omega arith, omega arith, omega arith, omega arith)
        | inr second ↦
            let large : 2 * q * 2 ^ j + 2 ^ j ≤ L = ground arith in
            (2 * q + 1, omega arith, omega arith, omega arith, omega arith)
      ]

  module _ (entry : Bytes) where
    -- Inside a perfect subtree that is not on the right edge.
    walk-perfect :
        (j : ℕ) (entries : List Bytes) (i o q i₀ L : ℕ) (rest : List Bytes)
        → length entries ≡ 2 ^ j
        → get_elem? entries i ≡ some entry
        → i < 2 ^ j
        → i₀ ≡ o * 2 ^ j + i
        → o < q
        → q * 2 ^ j ≤ L
        → L < q * 2 ^ j + 2 ^ j
        → walk_steps crypto
            (at crypto (leaf_hash crypto entry) i₀ L)
            (audit_path crypto j entries i ++ rest)
          ≡ walk_steps crypto (at crypto (tree_hash crypto j entries) o q) rest
    walk-perfect zero entries i o q i₀ L rest n g b start inner lo hi =
        let same_leaf : i₀ ≡ o = omega arith in
        let same_last : L ≡ q = omega arith in
        rw (audit_path-zero, same_leaf, same_last, ← tree_hash-leaf crypto entries i n g)
    walk-perfect (suc j) entries i o q i₀ L rest n g b start inner lo hi =
        let bound = two_pow_suc j in
        let big : 2 ^ j < length entries = omega (arith, two_pow_pos j) in
        let (q', half, above, lo', hi') = half_last j q L lo hi in
        let product = ap (λ (p : ℕ). o * p) (two_pow_suc j) in
        elim (Bool-cases (ltb i (2 ^ j))) [
          | inl is_left ↦
              let small = ltb→lt i (2 ^ j) is_left in
              rw (audit_path-left crypto j entries i big small, append_assoc, ← half)
                (walk-perfect j (left_part crypto j entries) i (2 * o) q' i₀ L _
                    (omega (arith, length-take (2 ^ j) entries))
                    (get_elem?-take entries (2 ^ j) i small ∙ g) small (omega arith) (omega arith)
                    lo' hi'
                  ∙ step_from_left crypto j entries big o q' rest (omega arith))
          | inr is_right ↦
              let large : 2 ^ j ≤ i = ground arith in
              rw (audit_path-right crypto j entries i big large, append_assoc, ← half)
                (walk-perfect j (right_part crypto j entries) (i - 2 ^ j) (2 * o + 1) q' i₀ L _
                    (omega (arith, length-drop (2 ^ j) entries))
                    (get_elem?-drop entries (2 ^ j) i large ∙ g) (omega arith) (omega arith)
                    (omega arith) lo' hi'
                  ∙ step_from_right crypto j entries big o q' rest)
        ]

    -- On the right edge, where the last index is that of the subtree's last leaf.
    walk-edge :
        (j : ℕ) (entries : List Bytes) (i b i₀ L : ℕ) (rest : List Bytes)
        → length entries ≤ 2 ^ j
        → get_elem? entries i ≡ some entry
        → i < length entries
        → i₀ ≡ b * 2 ^ j + i
        → L + 1 ≡ b * 2 ^ j + length entries
        → walk_steps crypto
            (at crypto (leaf_hash crypto entry) i₀ L)
            (audit_path crypto j entries i ++ rest)
          ≡ walk_steps crypto (at crypto (tree_hash crypto j entries) b b) rest
    walk-edge zero entries i b i₀ L rest n g inside start end =
        let same_leaf : i₀ ≡ b = omega arith in
        let same_last : L ≡ b = omega arith in
        let single : length entries ≡ 1 = omega arith in
        rw (audit_path-zero, same_leaf, same_last, ← tree_hash-leaf crypto entries i single g)
    walk-edge (suc j) entries i b i₀ L rest n g inside start end =
        let bound = two_pow_suc j in
        let product = ap (λ (p : ℕ). b * p) (two_pow_suc j) in
        let left_length = length-take (2 ^ j) entries in
        let right_length = length-drop (2 ^ j) entries in
        elim (Bool-cases (leb (length entries) (2 ^ j))) [
          | inl fits ↦
              let small = leb→le (length entries) (2 ^ j) fits in
              rw (audit_path-fits crypto j entries i small, tree_hash-fits crypto j entries small)
                (walk-edge j entries i (2 * b) i₀ L rest small g inside (omega arith) (omega arith)
                  ∙ walk_steps-double crypto b _ rest)
          | inr splits ↦
              let big = leb→lt (length entries) (2 ^ j) splits in
              elim (Bool-cases (ltb i (2 ^ j))) [
                | inl is_left ↦
                    let small = ltb→lt i (2 ^ j) is_left in
                    let up : (2 * b + 1) / 2 ≡ b = omega arith in
                    rw (audit_path-left crypto j entries i big small, append_assoc)
                      (walk-perfect j (left_part crypto j entries) i (2 * b) (2 * b + 1) i₀ L _
                          (omega arith) (get_elem?-take entries (2 ^ j) i small ∙ g) small
                          (omega arith) (omega arith) (omega arith) (omega arith)
                        ∙ step_from_left crypto j entries big b (2 * b + 1) rest (omega arith)
                        ∙ rw up)
                | inr is_right ↦
                    let large : 2 ^ j ≤ i = ground arith in
                    let up : (2 * b + 1) / 2 ≡ b = omega arith in
                    rw (audit_path-right crypto j entries i big large, append_assoc)
                      (walk-edge j (right_part crypto j entries) (i - 2 ^ j) (2 * b + 1) i₀ L _
                          (omega arith) (get_elem?-drop entries (2 ^ j) i large ∙ g) (omega arith)
                          (omega arith) (omega arith)
                        ∙ step_from_right crypto j entries big b (2 * b + 1) rest
                        ∙ rw up)
              ]
        ]

    -- The walk along the reference audit path ends in the tree hash.
    pub walk_steps-audit_path :
        (j : ℕ) (entries : List Bytes) (i : ℕ)
        → length entries ≤ 2 ^ j
        → get_elem? entries i ≡ some entry
        → i < length entries
        → walk_steps crypto
            (at crypto (leaf_hash crypto entry) i (length entries - 1))
            (audit_path crypto j entries i)
          ≡ ok (tree_hash crypto j entries)
    unfolding walk_steps
    walk_steps-audit_path j entries i n g inside =
        rw (← append-nil (audit_path crypto j entries i))
          (walk-edge j entries i 0 i (length entries - 1) [] n g inside (omega arith) (omega arith))
