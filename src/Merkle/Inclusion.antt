-- ===== src/Merkle/Inclusion.antt =====
-- `inclusionProof` and `rootFromInclusionProof` together: every proof that the one makes leads the
-- other to the root.
use sigillo.Common.{
  ℕ, ◌^◌, ◌≤◌, ◌≡◌, sym, true, List, length, arith, ok, some, ◌==◌, lt→ltb, get_elem?, get_elem?-lt,
  lt-two_pow,
}
use sigillo.Crypto.{Bytes, HashFunction}
use sigillo.Merkle.{audit_path_length, merkle_root, inclusion_proof, root_from_inclusion_proof}
use sigillo.Merkle.Root.{merkle_root-eq-tree_hash, merkle_leaf_hash-eq-leaf_hash}
use sigillo.Merkle.AuditPath.{inclusion_proof-eq-audit_path, length-audit_path-eq-audit_path_length}
use sigillo.Merkle.Edge.{walk_steps-audit_path}
use sigillo.Merkle.Tree.{audit_path}

module _ (crypto : HashFunction) where
  -- For each entry of a tree `inclusionProof` returns a path, of the length that `auditPathLength`
  -- asks for, from which `rootFromInclusionProof` rebuilds the root that `merkleRoot` computes.
  pub root_from_inclusion_proof-inclusion_proof :
      (entries : List Bytes) (index : ℕ) {entry : Bytes}
      → get_elem? entries index ≡ some entry
      → (proof : List Bytes) × (inclusion_proof crypto entries index ≡ ok proof)
        × (length proof ≡ audit_path_length index (length entries))
        × (root_from_inclusion_proof crypto entry index (length entries) proof
            ≡ merkle_root crypto entries)
  unfolding root_from_inclusion_proof
  root_from_inclusion_proof-inclusion_proof entries index {entry} found =
      let n = length entries in
      let inside = get_elem?-lt entries index found in
      let fits : length entries ≤ 2 ^ n = omega (arith, lt-two_pow n) in
      let sized = length-audit_path-eq-audit_path_length crypto n entries index fits inside in
      let same_length : (length (audit_path crypto n entries index) == audit_path_length index n)
          ≡ true =
        ground arith in
      (
        audit_path crypto n entries index,
        inclusion_proof-eq-audit_path crypto n entries index fits inside,
        sized,
        rw
            (
              root_from_inclusion_proof,
              lt→ltb index n inside,
              same_length,
              merkle_leaf_hash-eq-leaf_hash crypto entry,
              walk_steps-audit_path crypto entry n entries index fits found inside,
            )
            (sym (merkle_root-eq-tree_hash crypto n entries fits)),
      )
