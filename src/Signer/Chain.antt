-- ===== src/Signer/Chain.antt =====
-- What a run of the signer guarantees of a chain: one receipt at a position, and checkpoints over
-- the Merkle tree of exactly the receipts signed.
use sigillo.Common.{
  ℕ, suc, ◌+◌, ◌≡◌, refl, sym, ap, ◌∙◌, true, Option, none, some, List, [], ◌∷◌, map, length,
  get_elem?, ok, err, arith, Result, zero, length-reverse, length-map, lt-two_pow,
}
use sigillo.Crypto.{Bytes}
use sigillo.Text.{Text}
use sigillo.Hex.{to_hex}
use sigillo.Merkle.{merkle_root}
use sigillo.Merkle.Root.{merkle_root-eq-tree_hash}
use sigillo.Merkle.Tree.{tree_hash}
use sigillo.Frontier.Root.{frontier_root-IsFrontierOf}
use sigillo.Receipt.{Receipt}
use sigillo.Platform.{Platform, receipt_hash}
use sigillo.Checkpoint.{
  Checkpoint, UnsignedCheckpoint, checkpoint_hash, verify_checkpoint_signature, sign_checkpoint-ok,
  verify_checkpoint_signature-sign,
}
use sigillo.Signer.{
  SystemState, chain, retired, StateDirectory, ChainState, SignerKey, SignerError, refusal,
  unknown_system, get_system, checkpoint, checkpoint_of,
}
use sigillo.Signer.Log.{log_of, IsLinked, leaves, TracksChain}
use sigillo.Signer.Invariant.{Reach, Reach-IsSound, Tracks}

module _ (p : Platform) where
  -- The place of a receipt in its chain is its number.
  pub IsLinked-seq :
      (mine : List Receipt) (i : ℕ) {r : Receipt}
      → IsLinked p mine
      → get_elem? mine i ≡ some r
      → r.seq + i + 1 ≡ length mine
  IsLinked-seq [] i h g = cc
  IsLinked-seq (r ∷ []) zero h g = ground (arith, h.0)
  IsLinked-seq (r ∷ []) (suc i) h g = cc
  IsLinked-seq (r ∷ prev ∷ older) zero {r = q} h g =
      let before = IsLinked-seq (prev ∷ older) 0 h.4 refl in
      let same : r ≡ q = cc in rw (← same) (omega (arith, h.0, before))
  IsLinked-seq (r ∷ prev ∷ older) (suc i) h g = omega (arith, IsLinked-seq (prev ∷ older) i h.4 g)

  module _ (key : SignerKey) (tolerance : ℕ) where
    pub Tracks-IsLinked :
        (found : Option SystemState) (mine : List Receipt)
        → Tracks p key tolerance found mine
        → IsLinked p mine
    Tracks-IsLinked none mine t = rw t tt
    Tracks-IsLinked (some (chain c)) mine t = t.linked
    Tracks-IsLinked (some (retired _ _)) mine t = rw t tt

    -- However requests, refusals and crashes follow one another, the signer never signs two
    -- receipts at one position of a chain: two signed receipts of one system with one `seq` are at
    -- the same place of its log, and are the same receipt.
    pub signed_once :
        {s : StateDirectory} {log : List Receipt} (id : Text) (i j : ℕ) {r r' : Receipt}
        → Reach p key tolerance s log
        → get_elem? (log_of id log) i ≡ some r
        → get_elem? (log_of id log) j ≡ some r'
        → r.seq ≡ r'.seq
        → (i ≡ j) × (r ≡ r')
    signed_once {s} {log} id i j {r} {r'} reach gi gj e =
        let linked =
          Tracks-IsLinked (get_system id s.systems) (log_of id log)
            (Reach-IsSound p key tolerance reach id) in
        let place = IsLinked-seq (log_of id log) i linked gi in
        let place' = IsLinked-seq (log_of id log) j linked gj in
        let same : i ≡ j = omega arith in
        let joined : some r ≡ some r' = sym gi ∙ ap (get_elem? (log_of id log)) same ∙ gj in
        (same, cc)

    -- A checkpoint of a chain that the signer tracks.
    checkpoint_of-TracksChain :
        (now : ℕ) (id : Text) (c : ChainState) (mine : List Receipt)
        → TracksChain p c mine
        → (cp : Checkpoint) × (root : Bytes) × (checkpoint_of p key tolerance now id c ≡ ok cp)
          × (merkle_root p.hash (leaves p mine) ≡ ok root)
          × (cp.root_hash ≡ to_hex root)
          × (cp.tree_size ≡ length mine)
          × (verify_checkpoint_signature p cp (p.public_key key.private_key) ≡ true)
    unfolding checkpoint_of
    checkpoint_of-TracksChain now id c mine t =
        let n = length mine in
        let sized : length (leaves p mine) ≡ length mine =
          length-reverse (map (λ (r : Receipt). receipt_hash p r.unsigned) mine)
          ∙ length-map mine (λ (r : Receipt). receipt_hash p r.unsigned) in
        let root = tree_hash p.hash n (leaves p mine) in
        let rooted : merkle_root p.hash (leaves p mine) ≡ ok root =
          merkle_root-eq-tree_hash p.hash n (leaves p mine) (omega (arith, lt-two_pow n)) in
        let unsigned : UnsignedCheckpoint = record {
          system_id = id;
          tree_size = c.frontier.size;
          root_hash = to_hex root;
          ts = p.to_iso_string now;
          key_id = key.key_id;
        } in
        (
          record { unsigned = unsigned; sig = p.sign key.private_key (checkpoint_hash p unsigned) },
          root,
          rw (frontier_root-IsFrontierOf p.hash t.covered, rooted)
              (sign_checkpoint-ok p unsigned key.private_key),
          rooted,
          refl,
          t.covered.sized ∙ sized,
          verify_checkpoint_signature-sign p unsigned key.private_key,
        )

    -- What the signer answers when asked for a checkpoint of a system, by the system's log.
    abbrev pub CheckpointAnswer : List Receipt → Result SignerError Checkpoint → Type 0
    CheckpointAnswer mine (err e) = (e ≡ refusal unknown_system) × (mine ≡ [])
    CheckpointAnswer mine (ok cp) =
        (root : Bytes) × (merkle_root p.hash (leaves p mine) ≡ ok root)
        × (cp.root_hash ≡ to_hex root)
        × (cp.tree_size ≡ length mine)
        × (verify_checkpoint_signature p cp (p.public_key key.private_key) ≡ true)

    checkpoint-Tracks :
        (now : ℕ) (id : Text) (s : StateDirectory) (mine : List Receipt)
        (found : Option SystemState)
        → get_system id s.systems ≡ found
        → Tracks p key tolerance found mine
        → CheckpointAnswer mine (checkpoint p key tolerance now id s)
    unfolding checkpoint
    checkpoint-Tracks now id s mine none e t = rw (checkpoint, e) (refl, t)
    checkpoint-Tracks now id s mine (some (retired _ _)) e t = rw (checkpoint, e) (refl, t)
    checkpoint-Tracks now id s mine (some (chain c)) e t =
        let (cp, root, made, rooted, hashed, sized, verified) =
          checkpoint_of-TracksChain now id c mine t in
        rw (checkpoint, e, made) (root, rooted, hashed, sized, verified)

    -- After any run the signer's checkpoint of a system that has receipts states how many it
    -- signed and the Merkle root of exactly their hashes, in order, and its signature verifies
    -- under the signer's key; without receipts it is refused as an unknown system.
    pub checkpoint-Reach :
        (now : ℕ) (id : Text) {s : StateDirectory} {log : List Receipt}
        → Reach p key tolerance s log
        → CheckpointAnswer (log_of id log) (checkpoint p key tolerance now id s)
    checkpoint-Reach now id {s} {log} reach =
        checkpoint-Tracks now id s (log_of id log) (get_system id s.systems) refl
          (Reach-IsSound p key tolerance reach id)
