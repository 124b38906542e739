-- ===== src/Signer.antt =====
-- apps/signer/src/signer.ts and state.ts: the rules by which the signer signs, and what it
-- remembers. The state directory is the map in memory and the journal on disk; each state file holds
-- what the map holds, since `put` writes the file before the map. Requests are handled one at a time
-- (daemon.ts), so a request is a function of the state.
pub mod Systems
pub mod Log
pub mod Invariant
pub mod Chain
pub mod Journal
pub mod Recovery
pub mod Daemon
use sigillo.Common.{
  ℕ, zero, suc, ◌+◌, ◌-◌, ◌≤◌, Bool, true, false, not, ◌&&◌, ◌||◌, Option, none, some, List, [],
  ◌∷◌, ◌++◌, leb, ltb, ◌==◌, if◌then◌else◌, Result, ok, err, ◌>>=◌, ◌>>◌, guard, replicate,
}
use sigillo.Crypto.{Bytes, CoreError}
use sigillo.Text.{Text, text_eq, is_well_formed}
use sigillo.Json.{
  Json, null, boolean, number, str, arr, obj, Items, nil, cons, Members, end, member,
}
use sigillo.Hex.{to_hex, from_hex}
use sigillo.Frontier.{MerkleFrontier, empty_frontier, frontier_append, frontier_root}
use sigillo.Receipt.{
  Receipt, UnsignedReceipt, ActionKind, tool_call, llm_call, agent_step, decision, genesis,
  receipt_json,
}
use sigillo.Platform.{Platform, receipt_hash}
use sigillo.Signing.{sign_digest}
use sigillo.Checkpoint.{Checkpoint, sign_checkpoint}

pub data RefusalCode : Type 0 where
  malformed version invalid sequence clock unknown_system : RefusalCode

-- A `Refusal` is answered; any other error stops the daemon.
pub data SignerError : Type 0 where
  refusal : RefusalCode → SignerError
  fault : CoreError → SignerError

pub record SignerKey : Type 0 where
  pub key_id : Text
  pub private_key : Bytes

pub record ChainState : Type 0 where
  pub system_id : Text
  pub seq : ℕ
  pub hash : Text
  pub head : Receipt
  pub frontier : MerkleFrontier

pub data SystemState : Type 0 where
  chain : ChainState → SystemState
  retired : (system_id genesis_hash : Text) → SystemState

-- A line cut short by a crash holds no receipt.
pub data JournalLine : Type 0 where
  torn : JournalLine
  entry : Receipt → JournalLine

pub record StateDirectory : Type 0 where
  pub systems : List SystemState
  pub journal : List JournalLine

abbrev pub state_id : SystemState → Text
state_id (chain c) = c.system_id
state_id (retired system_id _) = system_id

-- `this.systems.get(systemId)`
unfoldable pub get_system : Text → List SystemState → Option SystemState
get_system id [] = none
get_system id (state ∷ systems) =
    if text_eq (state_id state) id then some state else get_system id systems

-- `this.systems.set(state.system_id, state)`
unfoldable pub set_system : SystemState → List SystemState → List SystemState
set_system state [] = state ∷ []
set_system state (other ∷ systems) =
    if text_eq (state_id other) (state_id state)
    then state ∷ systems
    else other ∷ set_system state systems

unfoldable pub put : SystemState → StateDirectory → StateDirectory
put state s = record s { systems = set_system state s.systems }

unfoldable pub record_receipt : Receipt → StateDirectory → StateDirectory
record_receipt receipt s = record s { journal = s.journal ++ entry receipt ∷ [] }

-- `malformedStringIn(value, …) === null`, over strings at every depth.
unfoldable mutual
  pub all_well_formed : Json → Bool
  all_well_formed (str text) = is_well_formed text
  all_well_formed (arr values) = items_well_formed values
  all_well_formed (obj ms) = members_well_formed ms
  all_well_formed null = true
  all_well_formed (boolean b) = true
  all_well_formed (number n) = true

  pub items_well_formed : Items → Bool
  items_well_formed nil = true
  items_well_formed (cons value values) = all_well_formed value && items_well_formed values

  pub members_well_formed : Members → Bool
  members_well_formed end = true
  members_well_formed (member name value ms) = all_well_formed value && members_well_formed ms

abbrev pub is_genesis : ActionKind → Bool
is_genesis genesis = true
is_genesis _ = false

abbrev same : Bool → Bool → Bool
same true b = b
same false b = not b

-- `Math.abs(a - b)`
abbrev pub distance : ℕ → ℕ → ℕ
distance a b = (a - b) + (b - a)

abbrev pub genesis_prev_hash : Text
genesis_prev_hash = replicate 64 b'0'

-- `known`, unless it is retired.
unfoldable pub known_chain : Option SystemState → Result SignerError (Option ChainState)
known_chain none = ok none
known_chain (some (chain c)) = ok (some c)
known_chain (some (retired _ _)) = err (refusal sequence)

abbrev pub expected_seq : Option ChainState → ℕ
expected_seq none = 0
expected_seq (some c) = c.seq + 1

abbrev pub expected_prev : Option ChainState → Text
expected_prev none = genesis_prev_hash
expected_prev (some c) = c.hash

abbrev pub known_frontier : Option ChainState → MerkleFrontier
known_frontier none = empty_frontier
known_frontier (some c) = c.frontier

-- An error of core passes through the signer unchanged.
abbrev pub lift {ℓ} : {A : Type ℓ} → Result CoreError A → Result SignerError A
lift (ok a) = ok a
lift (err e) = err (fault e)

module _ (p : Platform) where
  abbrev pub not_before : Option ChainState → ℕ → Bool
  not_before none received = true
  not_before (some c) received = leb (p.date_parse c.head.ts_received) received

  module _ (key : SignerKey) (tolerance : ℕ) where
    -- The checks of `signReceipt`, in its order; the result is the chain that the receipt extends.
    unfoldable pub admit :
        ℕ → UnsignedReceipt → StateDirectory → Result SignerError (Option ChainState)
    unfolding known_chain
    admit now receipt s = do
      guard (text_eq receipt.key_id key.key_id) (refusal invalid)
      guard (all_well_formed (receipt_json receipt)) (refusal invalid)
      guard (same (receipt.seq == 0) (is_genesis receipt.action.kind)) (refusal invalid)
      known ← known_chain (get_system receipt.system_id s.systems)
      guard (receipt.seq == expected_seq known) (refusal sequence)
      guard (text_eq receipt.prev_hash (expected_prev known)) (refusal sequence)
      guard (leb (distance (p.date_parse receipt.ts_received) now) tolerance) (refusal clock)
      guard (not_before known (p.date_parse receipt.ts_received)) (refusal clock)
      ok known

    -- The new state of an admitted receipt's chain, from what was known of it.
    unfoldable pub next_state :
        UnsignedReceipt → Text → Option ChainState → Result CoreError ChainState
    next_state receipt sig known = do
      let hash = to_hex (receipt_hash p receipt)
      leaf ← from_hex hash
      frontier ← frontier_append p.hash (known_frontier known) leaf
      ok (record {
        system_id = receipt.system_id;
        seq = receipt.seq;
        hash = hash;
        head = record { unsigned = receipt; sig = sig };
        frontier = frontier;
      })

    -- The receipt is in the journal before its state is computed and put.
    unfoldable pub commit :
        UnsignedReceipt
        → Option ChainState
        → StateDirectory
        → Result SignerError (Text × Text) × StateDirectory
    unfolding put record_receipt
    commit receipt known s = elim (sign_digest p (receipt_hash p receipt) key.private_key) [
      | err e ↦ (err (fault e), s)
      | ok sig ↦
          let recorded = record_receipt (record { unsigned = receipt; sig = sig }) s in
          elim (next_state receipt sig known) [
            | err e ↦ (err (fault e), recorded)
            | ok state ↦ (ok (sig, to_hex (receipt_hash p receipt)), put (chain state) recorded)
          ]
    ]

    unfoldable pub sign_receipt :
        ℕ → UnsignedReceipt → StateDirectory → Result SignerError (Text × Text) × StateDirectory
    sign_receipt now receipt s = elim (admit now receipt s) [
      | err e ↦ (err e, s)
      | ok known ↦ commit receipt known s
    ]

    unfoldable pub checkpoint_of : ℕ → Text → ChainState → Result CoreError Checkpoint
    checkpoint_of now system_id known = do
      root ← frontier_root p.hash known.frontier
      sign_checkpoint p
          (record {
            system_id = system_id;
            tree_size = known.frontier.size;
            root_hash = to_hex root;
            ts = p.to_iso_string now;
            key_id = key.key_id;
          })
          key.private_key

    unfoldable pub checkpoint : ℕ → Text → StateDirectory → Result SignerError Checkpoint
    checkpoint now system_id s = elim (get_system system_id s.systems) [
      | none ↦ err (refusal unknown_system)
      | some state ↦ elim state [
        | chain known ↦ lift (checkpoint_of now system_id known)
        | retired _ _ ↦ err (refusal unknown_system)
      ]
    ]
