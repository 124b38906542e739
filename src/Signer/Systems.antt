-- ===== src/Signer/Systems.antt =====
-- The map of systems, and what an admitted receipt satisfies.
use sigillo.Common.{
  ℕ, ◌≤◌, ◌≡◌, refl, true, Option, some, List, [], ◌∷◌, leb, ◌==◌, if◌then◌else◌, ok, arith,
  >>=-eq-ok, guard-eq-ok, ==_iff, leb→le,
}
use sigillo.Text.{Text, text_eq, text_eq_iff}
use sigillo.Receipt.{UnsignedReceipt, receipt_json}
use sigillo.Platform.{Platform}
use sigillo.Signer.{
  SystemState, StateDirectory, ChainState, SignerKey, refusal, invalid, sequence, clock, state_id,
  get_system, set_system, all_well_formed, is_genesis, same, distance, known_chain, expected_seq,
  expected_prev, not_before, admit,
}

-- The map after a write, at every key.
pub get_system-set_system :
    (id : Text) (state : SystemState) (systems : List SystemState)
    → get_system id (set_system state systems)
      ≡ (if text_eq (state_id state) id then some state else get_system id systems)
unfolding get_system set_system
get_system-set_system id state [] = refl
get_system-set_system id state (other ∷ systems) = ground (
  arith,
  text_eq_iff (state_id other) (state_id state),
  text_eq_iff (state_id other) id,
  text_eq_iff (state_id state) id,
  get_system-set_system id state systems,
)

-- What is found under an identifier carries it.
pub get_system-state_id :
    (id : Text) (systems : List SystemState) {state : SystemState}
    → get_system id systems ≡ some state
    → state_id state ≡ id
unfolding get_system
get_system-state_id id [] h = cc
get_system-state_id id (other ∷ systems) {state} h =
    ground (arith, text_eq_iff (state_id other) id, get_system-state_id id systems {state = state})

module _ (p : Platform) (key : SignerKey) (tolerance : ℕ) where
  -- What `signReceipt` has checked when it signs.
  pub record IsAdmitted (now : ℕ) (r : UnsignedReceipt) (s : StateDirectory)
      (known : Option ChainState) : Type 0 where
    pub own_key : r.key_id ≡ key.key_id
    pub well_formed : all_well_formed (receipt_json r) ≡ true
    pub genesis_first : same (r.seq == 0) (is_genesis r.action.kind) ≡ true
    pub is_known : known_chain (get_system r.system_id s.systems) ≡ ok known
    pub next_seq : r.seq ≡ expected_seq known
    pub links : r.prev_hash ≡ expected_prev known
    pub on_time : distance (p.date_parse r.ts_received) now ≤ tolerance
    pub in_order : not_before p known (p.date_parse r.ts_received) ≡ true

  -- A receipt that passes the checks satisfies all of them, over the chain that they found.
  pub admit-IsAdmitted :
      (now : ℕ) (r : UnsignedReceipt) (s : StateDirectory) {known : Option ChainState}
      → admit p key tolerance now r s ≡ ok known
      → IsAdmitted now r s known
  unfolding admit
  admit-IsAdmitted now r s {known} e =
      let (own_key, e₁) = guard-eq-ok (text_eq r.key_id key.key_id) (refusal invalid) _ e in
      let (well_formed, e₂) =
        guard-eq-ok (all_well_formed (receipt_json r)) (refusal invalid) _ e₁ in
      let (genesis_first, e₃) =
        guard-eq-ok (same (r.seq == 0) (is_genesis r.action.kind)) (refusal invalid) _ e₂ in
      let (found, is_known, e₄) = >>=-eq-ok (known_chain (get_system r.system_id s.systems)) _ e₃ in
      let (next_seq, e₅) = guard-eq-ok (r.seq == expected_seq found) (refusal sequence) _ e₄ in
      let (links, e₆) =
        guard-eq-ok (text_eq r.prev_hash (expected_prev found)) (refusal sequence) _ e₅ in
      let (on_time, e₇) =
        guard-eq-ok (leb (distance (p.date_parse r.ts_received) now) tolerance) (refusal clock) _
          e₆ in
      let (in_order, e₈) =
        guard-eq-ok (not_before p found (p.date_parse r.ts_received)) (refusal clock) _ e₇ in
      let same_chain : found ≡ known = cc in
      rw (← same_chain) (record {
        own_key = (text_eq_iff r.key_id key.key_id).0 own_key;
        well_formed = well_formed;
        genesis_first = genesis_first;
        is_known = is_known;
        next_seq = (==_iff r.seq (expected_seq found)).0 next_seq;
        links = (text_eq_iff r.prev_hash (expected_prev found)).0 links;
        on_time = leb→le _ tolerance on_time;
        in_order = in_order;
      })
