-- ===== src/Frontier.antt =====
-- packages/core/src/merkle-frontier.ts: the frontier of a tree, which the signer keeps in place of
-- the chain. The array `nodes` is written with its last element first, the end at which the source
-- pushes and pops.
pub mod Covers
pub mod Root
pub mod Serial
use sigillo.Common.{
  ℕ, zero, suc, ◌+◌, ◌/◌, ◌%◌, true, false, List, [], ◌∷◌, ◌==◌, if◌then◌else◌, Result, ok, err,
  ◌>>=◌,
}
use sigillo.Crypto.{Bytes, HashFunction, CoreError, too_few_nodes}
use sigillo.Merkle.{merkle_leaf_hash, merkle_node_hash}

pub record MerkleFrontier : Type 0 where
  pub size : ℕ
  pub nodes : List Bytes

-- `for (let rest = n; rest > 0; rest = Math.floor(rest / 2)) count += rest % 2`
unfoldable pub set_bits_from : ℕ → ℕ → ℕ → ℕ
set_bits_from zero rest count = count
set_bits_from (suc fuel) rest count = elim (rest == 0) [
  | true ↦ count
  | false ↦ set_bits_from fuel (rest / 2) (count + rest % 2)
]

unfoldable pub set_bits : ℕ → ℕ
set_bits n = set_bits_from n n 0

abbrev pub empty_frontier : MerkleFrontier
empty_frontier = record { size = 0; nodes = [] }

module _ (crypto : HashFunction) where
  -- The loop over `carry`: each round pops a node.
  unfoldable pub carry_loop : ℕ → List Bytes → Bytes → Result CoreError (List Bytes)
  carry_loop carry [] node = if carry % 2 == 1 then err too_few_nodes else ok (node ∷ [])
  carry_loop carry (left ∷ nodes) node = elim (carry % 2 == 1) [
    | true ↦ do merged ← merkle_node_hash crypto left node; carry_loop (carry / 2) nodes merged
    | false ↦ ok (node ∷ left ∷ nodes)
  ]

  unfoldable pub frontier_append : MerkleFrontier → Bytes → Result CoreError MerkleFrontier
  frontier_append frontier entry = do
    nodes ← carry_loop frontier.size frontier.nodes (merkle_leaf_hash crypto entry)
    ok (record { size = frontier.size + 1; nodes = nodes })

  unfoldable pub fold_nodes : Bytes → List Bytes → Result CoreError Bytes
  fold_nodes root [] = ok root
  fold_nodes root (node ∷ nodes) = do
    root' ← merkle_node_hash crypto node root
    fold_nodes root' nodes

  unfoldable pub frontier_root : MerkleFrontier → Result CoreError Bytes
  frontier_root frontier = elim frontier.nodes [
    | [] ↦ ok (crypto.sha256 [])
    | last ∷ nodes ↦ fold_nodes last nodes
  ]

  -- A signer's use of the frontier: one append for each receipt, from the empty one.
  unfoldable pub append_all : MerkleFrontier → List Bytes → Result CoreError MerkleFrontier
  append_all frontier [] = ok frontier
  append_all frontier (entry ∷ entries) = do
    frontier' ← frontier_append frontier entry
    append_all frontier' entries
