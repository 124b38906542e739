-- ===== src/Signer/Log.antt =====
-- The signer against its log: the receipts whose signatures it returned, newest first. Each chain's
-- state is a function of the log, and the log of each system is one linked chain.
use mathlib.Core.List.{reverse-cons}
use sigillo.Common.{
  ℕ, ◌+◌, ◌≤◌, ◌≡◌, refl, ◌∙◌, true, false, Option, none, some, List, [], ◌∷◌, map, reverse, length,
  ok, arith, leb→le, if◌then◌else◌,
}
use sigillo.Crypto.{Bytes}
use sigillo.Text.{Text, text_eq}
use sigillo.Hex.{to_hex}
use sigillo.Hex.RoundTrip.{from_hex-to_hex}
use sigillo.Frontier.Root.{IsFrontierOf, empty_frontier-IsFrontierOf, frontier_append-IsFrontierOf}
use sigillo.Receipt.{Receipt, UnsignedReceipt}
use sigillo.Platform.{Platform, receipt_hash}
use sigillo.Signing.{receipt_hash-IsBytes}
use sigillo.Signer.{
  StateDirectory, ChainState, SignerKey, is_genesis, genesis_prev_hash, known_frontier, next_state,
}
use sigillo.Signer.Systems.{IsAdmitted}

-- The receipts of one system.
abbrev pub log_of : Text → List Receipt → List Receipt
log_of id [] = []
log_of id (r ∷ log) = if text_eq r.system_id id then r ∷ log_of id log else log_of id log

module _ (p : Platform) where
  abbrev pub hash_hex : Receipt → Text
  hash_hex r = to_hex (receipt_hash p r.unsigned)

  -- A chain, newest receipt first: numbered from 0 without a gap, each receipt after the genesis
  -- carrying the hash of the one before it and received no earlier.
  abbrev pub IsLinked : List Receipt → Type 0
  IsLinked [] = Unit
  IsLinked (r ∷ []) =
      (r.seq ≡ 0) × (r.prev_hash ≡ genesis_prev_hash) × (is_genesis r.action.kind ≡ true)
  IsLinked (r ∷ prev ∷ older) =
      (r.seq ≡ prev.seq + 1)
      × (r.prev_hash ≡ hash_hex prev)
      × (p.date_parse prev.ts_received ≤ p.date_parse r.ts_received)
      × (is_genesis r.action.kind ≡ false)
      × IsLinked (prev ∷ older)

  -- The leaves of the chain's tree, in order.
  abbrev pub leaves : List Receipt → List Bytes
  leaves mine = reverse (map (λ (r : Receipt). receipt_hash p r.unsigned) mine)

  pub record TracksChain (c : ChainState) (mine : List Receipt) : Type 0 where
    pub older : List Receipt
    pub newest : mine ≡ c.head ∷ older
    pub counted : c.seq ≡ length older
    pub head_seq : c.head.seq ≡ c.seq
    pub hashed : c.hash ≡ hash_hex c.head
    pub covered : IsFrontierOf p.hash (leaves mine) c.frontier
    pub linked : IsLinked mine

  abbrev pub TracksKnown : Option ChainState → List Receipt → Type 0
  TracksKnown none mine = mine ≡ []
  TracksKnown (some c) mine = TracksChain c mine

  known_frontier-IsFrontierOf :
      (known : Option ChainState) (mine : List Receipt)
      → TracksKnown known mine
      → IsFrontierOf p.hash (leaves mine) (known_frontier known)
  known_frontier-IsFrontierOf none mine t = rw t (empty_frontier-IsFrontierOf p.hash)
  known_frontier-IsFrontierOf (some c) mine t = t.covered

  module _ (key : SignerKey) (tolerance : ℕ) where
    IsLinked-cons :
        {now : ℕ} (r : Receipt) {s : StateDirectory} (known : Option ChainState)
        (mine : List Receipt)
        → IsAdmitted p key tolerance now r.unsigned s known
        → TracksKnown known mine
        → IsLinked (r ∷ mine) × (r.seq ≡ length mine)
    IsLinked-cons r none mine a t =
        let first : is_genesis r.action.kind ≡ true = ground (arith, a.genesis_first, a.next_seq) in
        rw t ((a.next_seq, a.links, first), a.next_seq)
    IsLinked-cons r (some c) mine a t =
        let seq = a.next_seq in
        let counted = t.counted in
        let head_seq = t.head_seq in
        let later : is_genesis r.action.kind ≡ false = ground (arith, a.genesis_first) in
        let older : IsLinked (c.head ∷ t.older) = rw t.newest at (t.linked) in
        rw (t.newest) (
          (
            omega arith,
            a.links ∙ t.hashed,
            leb→le (p.date_parse c.head.ts_received) (p.date_parse r.ts_received) a.in_order,
            later,
            older,
          ),
          omega arith,
        )

    -- An admitted receipt has the next number.
    pub IsAdmitted-seq :
        {now : ℕ} (r : UnsignedReceipt) {s : StateDirectory} (known : Option ChainState)
        (mine : List Receipt)
        → IsAdmitted p key tolerance now r s known
        → TracksKnown known mine
        → r.seq ≡ length mine
    IsAdmitted-seq r known mine a t =
        (IsLinked-cons (record { unsigned = r; sig = [] }) known mine a t).1

    -- The next state of an admitted receipt's chain is always computed, and tracks the longer log.
    pub next_state-TracksChain :
        {now : ℕ} (r : UnsignedReceipt) (sig : Text) {s : StateDirectory}
        (known : Option ChainState) (mine : List Receipt)
        → IsAdmitted p key tolerance now r s known
        → TracksKnown known mine
        → (c : ChainState) × (next_state p key tolerance r sig known ≡ ok c)
          × (c.system_id ≡ r.system_id)
          × TracksChain c (record { unsigned = r; sig = sig } ∷ mine)
    unfolding next_state
    next_state-TracksChain r sig known mine a t =
        let head : Receipt = record { unsigned = r; sig = sig } in
        let (linked, counted) = IsLinked-cons head known mine a t in
        let (frontier, appended, covered) =
          frontier_append-IsFrontierOf p.hash (receipt_hash p r)
            (known_frontier-IsFrontierOf known mine t) in
        (
          record {
            system_id = r.system_id;
            seq = r.seq;
            hash = to_hex (receipt_hash p r);
            head = head;
            frontier = frontier;
          },
          rw (from_hex-to_hex (receipt_hash p r) (receipt_hash-IsBytes p r), appended),
          refl,
          record {
            older = mine;
            newest = refl;
            counted = counted;
            head_seq = refl;
            hashed = refl;
            covered = rw reverse-cons covered;
            linked = linked;
          },
        )
