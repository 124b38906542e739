-- ===== src/Merkle/AuditPath.antt =====
-- `inclusionProof` and `auditPathLength` against the reference audit path.
use sigillo.Common.{
  ℕ, zero, suc, ◌-◌, ◌^◌, ◌≤◌, ◌<◌, ◌≡◌, refl, sym, ap, ◌∙◌, true, false, List, length, arith,
  two_pow_suc, two_pow_pos, ok, Bool-cases, ◌==◌, leb, ltb, inl, inr, length-take, length-drop,
  length-append, leb→le, leb→lt, ltb→lt, lt→ltb, lt→leb, le→leb,
}
use sigillo.Crypto.{Bytes, HashFunction}
use sigillo.Merkle.{audit_path_rounds, audit_path_length, proof_rounds, inclusion_proof}
use sigillo.Merkle.Split.{split_point-eq-pow}
use sigillo.Merkle.Root.{merkle_root-eq-tree_hash}
use sigillo.Merkle.Tree.{
  audit_path, audit_path-fits, audit_path-left, audit_path-right, audit_path-zero, left_part,
  right_part,
}

module _ (crypto : HashFunction) where
  -- The fuel suffices, and each recursive call is the audit path of one part.
  proof_rounds-eq-audit_path :
      (height fuel : ℕ) (entries : List Bytes) (index : ℕ)
      → length entries ≤ 2 ^ height
      → length entries ≤ suc fuel
      → index < length entries
      → proof_rounds crypto fuel entries index ≡ ok (audit_path crypto height entries index)
  unfolding proof_rounds
  proof_rounds-eq-audit_path zero zero entries index h f inside =
      let single : (length entries == 1) ≡ true = ground arith in
      rw (proof_rounds, lt→ltb index (length entries) inside, single, audit_path-zero)
  proof_rounds-eq-audit_path zero (suc fuel) entries index h f inside =
      let single : (length entries == 1) ≡ true = ground arith in
      rw (proof_rounds, lt→ltb index (length entries) inside, single, audit_path-zero)
  proof_rounds-eq-audit_path (suc height) zero entries index h f inside =
      let small : length entries ≤ 2 ^ height = omega (arith, two_pow_pos height) in
      proof_rounds-eq-audit_path height zero entries index small f inside
      ∙ ap ok (sym (audit_path-fits crypto height entries index small))
  proof_rounds-eq-audit_path (suc height) (suc fuel) entries index h f inside =
      elim (Bool-cases (leb (length entries) (2 ^ height))) [
        | inl fits ↦
            let small = leb→le (length entries) (2 ^ height) fits in
            proof_rounds-eq-audit_path height (suc fuel) entries index small f inside
            ∙ ap ok (sym (audit_path-fits crypto height entries index small))
        | inr splits ↦
            let big = leb→lt (length entries) (2 ^ height) splits in
            let at_split = split_point-eq-pow height (length entries) big h in
            let positive = two_pow_pos height in
            let double = two_pow_suc height in
            let left_length = length-take (2 ^ height) entries in
            let right_length = length-drop (2 ^ height) entries in
            let many : (length entries == 1) ≡ false = ground arith in
            elim (Bool-cases (ltb index (2 ^ height))) [
              | inl is_left ↦
                  let small = ltb→lt index (2 ^ height) is_left in
                  rw (
                    proof_rounds,
                    lt→ltb index (length entries) inside,
                    many,
                    at_split,
                    is_left,
                    at_split,
                    proof_rounds-eq-audit_path height fuel (left_part crypto height entries) index
                        (omega arith) (omega arith) (omega arith),
                    merkle_root-eq-tree_hash crypto height (right_part crypto height entries)
                        (omega arith),
                    audit_path-left crypto height entries index big small,
                  )
              | inr is_right ↦
                  let large : 2 ^ height ≤ index = ground arith in
                  rw (
                    proof_rounds,
                    lt→ltb index (length entries) inside,
                    many,
                    at_split,
                    is_right,
                    at_split,
                    proof_rounds-eq-audit_path height fuel (right_part crypto height entries)
                        (index - 2 ^ height) (omega arith) (omega arith) (omega arith),
                    merkle_root-eq-tree_hash crypto height (left_part crypto height entries)
                        (omega arith),
                    audit_path-right crypto height entries index big large,
                  )
            ]
      ]

  -- For an index in the tree `inclusionProof` returns the reference audit path.
  pub inclusion_proof-eq-audit_path :
      (height : ℕ) (entries : List Bytes) (index : ℕ)
      → length entries ≤ 2 ^ height
      → index < length entries
      → inclusion_proof crypto entries index ≡ ok (audit_path crypto height entries index)
  unfolding inclusion_proof
  inclusion_proof-eq-audit_path height entries index h inside =
      proof_rounds-eq-audit_path height (length entries) entries index h (omega arith) inside

  length-audit_path :
      (height fuel n : ℕ) (entries : List Bytes) (index : ℕ)
      → length entries ≡ n
      → n ≤ 2 ^ height
      → n ≤ suc fuel
      → index < n
      → length (audit_path crypto height entries index) ≡ audit_path_rounds fuel index n
  unfolding audit_path_rounds
  length-audit_path zero zero n entries index e h f inside =
      rw (audit_path-zero crypto entries index)
  length-audit_path zero (suc fuel) n entries index e h f inside =
      rw (audit_path-zero crypto entries index, audit_path_rounds, le→leb n 1 h)
  length-audit_path (suc height) zero n entries index e h f inside =
      let small : n ≤ 2 ^ height = omega (arith, two_pow_pos height) in
      rw (audit_path-fits crypto height entries index (omega arith))
        (length-audit_path height zero n entries index e small f inside)
  length-audit_path (suc height) (suc fuel) n entries index e h f inside =
      elim (Bool-cases (leb n (2 ^ height))) [
        | inl fits ↦
            let small = leb→le n (2 ^ height) fits in
            rw (audit_path-fits crypto height entries index (omega arith))
              (length-audit_path height (suc fuel) n entries index e small f inside)
        | inr splits ↦
            let big = leb→lt n (2 ^ height) splits in
            let big_list : 2 ^ height < length entries = omega arith in
            let at_split = split_point-eq-pow height n big h in
            let positive = two_pow_pos height in
            let double = two_pow_suc height in
            let left_length = length-take (2 ^ height) entries in
            let right_length = length-drop (2 ^ height) entries in
            elim (Bool-cases (ltb index (2 ^ height))) [
              | inl is_left ↦
                  let small = ltb→lt index (2 ^ height) is_left in
                  rw
                    (
                      audit_path-left crypto height entries index big_list small,
                      audit_path_rounds,
                      lt→leb n 1 (omega arith),
                      at_split,
                      is_left,
                      at_split,
                      length-append,
                      length-audit_path height fuel (2 ^ height) (left_part crypto height entries)
                          index (omega arith) (omega arith) (omega arith) small,
                    )
                    (omega arith)
              | inr is_right ↦
                  let large : 2 ^ height ≤ index = ground arith in
                  rw
                    (
                      audit_path-right crypto height entries index big_list large,
                      audit_path_rounds,
                      lt→leb n 1 (omega arith),
                      at_split,
                      is_right,
                      at_split,
                      length-append,
                      length-audit_path height fuel (n - 2 ^ height)
                          (right_part crypto height entries) (index - 2 ^ height) (omega arith)
                          (omega arith) (omega arith) (omega arith),
                    )
                    (omega arith)
            ]
      ]

  -- The reference audit path has the length that a verifier demands.
  pub length-audit_path-eq-audit_path_length :
      (height : ℕ) (entries : List Bytes) (index : ℕ)
      → length entries ≤ 2 ^ height
      → index < length entries
      → length (audit_path crypto height entries index) ≡ audit_path_length index (length entries)
  unfolding audit_path_length
  length-audit_path-eq-audit_path_length height entries index h inside =
      length-audit_path height (length entries) (length entries) entries index refl h (omega arith)
        inside
