-- ===== src/Signer/Invariant.antt =====
-- Every run of the signer: requests, refusals and crashes in any order.
use sigillo.Common.{
  ℕ, ◌≡◌, refl, ap, Option, none, some, List, [], ◌∷◌, ◌++◌, length, ok, err, arith, Result,
  Result-cases, ok-injective, Bool-cases, inl, inr, All,
}
use mathlib.Core.Path.{subst}
use sigillo.Text.{Text, text_eq, text_eq_iff}
use sigillo.Hex.{to_hex}
use sigillo.Receipt.{Receipt, UnsignedReceipt}
use sigillo.Platform.{Platform, receipt_hash}
use sigillo.Signing.{sign_digest-ok, length-receipt_hash}
use sigillo.Signer.{
  SystemState, chain, retired, StateDirectory, ChainState, torn, entry, record_receipt, SignerKey,
  SignerError, refusal, fault, RefusalCode, get_system, set_system, known_chain, admit, commit,
  sign_receipt,
}
use sigillo.Signer.Systems.{IsAdmitted, admit-IsAdmitted, get_system-set_system}
use sigillo.Signer.Log.{log_of, TracksChain, TracksKnown, IsAdmitted-seq, next_state-TracksChain}

-- A state that `init-from-db` may leave: identifiers that must never be given a new chain.
abbrev pub IsRetired : SystemState → Type 0
IsRetired (chain _) = ⊥
IsRetired (retired _ _) = Unit

module _ (p : Platform) (key : SignerKey) (tolerance : ℕ) where
  -- The states that a signer can be in that was opened with retired systems only and an empty journal,
  -- with the receipts whose signatures it has returned: each of its chains began with the journal. A
  -- crash may cut a line of the journal short, or leave there the line of an admitted receipt whose
  -- state was never put.
  pub data Reach : StateDirectory → List Receipt → Type 0 where
    opened :
        (systems : List SystemState)
        → All IsRetired systems
        → Reach (record { systems = systems; journal = [] }) []
    signed :
        {s s' : StateDirectory} {log : List Receipt} (now : ℕ) (r : UnsignedReceipt)
        (sig hash : Text)
        → Reach s log
        → sign_receipt p key tolerance now r s ≡ (ok (sig, hash), s')
        → Reach s' (record { unsigned = r; sig = sig } ∷ log)
    refused :
        {s s' : StateDirectory} {log : List Receipt} (now : ℕ) (r : UnsignedReceipt)
        (e : SignerError)
        → Reach s log
        → sign_receipt p key tolerance now r s ≡ (err e, s')
        → Reach s' log
    torn_line :
        {s : StateDirectory} {log : List Receipt}
        → Reach s log
        → Reach (record s { journal = s.journal ++ torn ∷ [] }) log
    not_put :
        {s : StateDirectory} {log : List Receipt} (now : ℕ) (r : UnsignedReceipt) (sig : Text)
        {known : Option ChainState}
        → Reach s log
        → admit p key tolerance now r s ≡ ok known
        → Reach (record_receipt (record { unsigned = r; sig = sig }) s) log

  abbrev pub Tracks : Option SystemState → List Receipt → Type 0
  Tracks none mine = mine ≡ []
  Tracks (some (chain c)) mine = TracksChain p c mine
  Tracks (some (retired _ _)) mine = mine ≡ []

  -- Every system's state is that of its part of the log.
  abbrev pub IsSound : StateDirectory → List Receipt → Type 0
  IsSound s log = (id : Text) → Tracks (get_system id s.systems) (log_of id log)

  pub known_chain-Tracks :
      (found : Option SystemState) {known : Option ChainState} (mine : List Receipt)
      → known_chain found ≡ ok known
      → Tracks found mine
      → TracksKnown p known mine
  unfolding known_chain
  known_chain-Tracks none mine e t = rw (← ok-injective e) t
  known_chain-Tracks (some (chain c)) mine e t = rw (← ok-injective e) t
  known_chain-Tracks (some (retired _ _)) mine e t = cc

  -- What a request does to a sound state: it signs and extends the log by the signed receipt, or
  -- refuses and leaves the state as it was. It never faults.
  abbrev pub Answer :
      StateDirectory
      → List Receipt
      → UnsignedReceipt
      → Result SignerError (Text × Text) × StateDirectory
      → Type 0
  Answer s log r (ok (sig, hash), s') =
      (sig ≡ p.sign key.private_key (receipt_hash p r))
      × (hash ≡ to_hex (receipt_hash p r))
      × (r.seq ≡ length (log_of r.system_id log))
      × (s'.journal ≡ s.journal ++ entry (record { unsigned = r; sig = sig }) ∷ [])
      × IsSound s' (record { unsigned = r; sig = sig } ∷ log)
  Answer s log r (err (refusal code), s') = s' ≡ s
  Answer s log r (err (fault e), s') = ⊥

  admit-err :
      (now : ℕ) (r : UnsignedReceipt) (s : StateDirectory) (e : SignerError)
      → admit p key tolerance now r s ≡ err e
      → (code : RefusalCode) × (e ≡ refusal code)
  unfolding admit
  admit-err now r s (refusal code) h = (code, refl)
  admit-err now r s (fault e) h = absurd (ground arith)

  -- The written state at every identifier.
  put-IsSound :
      (r : Receipt) (s : StateDirectory) (log : List Receipt) (c : ChainState)
      → IsSound s log
      → c.system_id ≡ r.system_id
      → TracksChain p c (r ∷ log_of r.system_id log)
      → (id : Text) → Tracks (get_system id (set_system (chain c) s.systems)) (log_of id (r ∷ log))
  put-IsSound r s log c sound own tracked id =
      let same_test = ap (λ (name : Text). text_eq name id) own in
      rw (get_system-set_system id (chain c) s.systems, same_test)
        (elim (Bool-cases (text_eq r.system_id id)) [
          | inl mine ↦
              let same_id : r.system_id ≡ id = (text_eq_iff r.system_id id).0 mine in
              rw mine (subst (λ name. TracksChain p c (r ∷ log_of name log)) same_id tracked)
          | inr other ↦ rw other (sound id)
        ])

  commit-Answer :
      {now : ℕ} (r : UnsignedReceipt) (s : StateDirectory) (log : List Receipt)
      (known : Option ChainState)
      → IsSound s log
      → IsAdmitted p key tolerance now r s known
      → Answer s log r (commit p key tolerance r known s)
  unfolding commit
  commit-Answer r s log known sound a =
      let sig = p.sign key.private_key (receipt_hash p r) in
      let tracked =
        known_chain-Tracks (get_system r.system_id s.systems) (log_of r.system_id log) a.is_known
          (sound r.system_id) in
      let (c, computed, own, longer) =
        next_state-TracksChain p key tolerance r sig known (log_of r.system_id log) a tracked in
      rw
        (
          commit,
          sign_digest-ok p (receipt_hash p r) key.private_key (length-receipt_hash p r),
          computed,
        )
        (
          refl,
          refl,
          IsAdmitted-seq p key tolerance r known (log_of r.system_id log) a tracked,
          refl,
          put-IsSound (record { unsigned = r; sig = sig }) s log c sound own longer,
        )

  -- Every request to sign, in a sound state, has one of these two answers.
  pub sign_receipt-Answer :
      (now : ℕ) (r : UnsignedReceipt) (s : StateDirectory) (log : List Receipt)
      → IsSound s log
      → Answer s log r (sign_receipt p key tolerance now r s)
  unfolding sign_receipt
  sign_receipt-Answer now r s log sound = elim (Result-cases (admit p key tolerance now r s)) [
    | inl (known, admitted) ↦
        rw (sign_receipt, admitted)
          (commit-Answer r s log known sound (admit-IsAdmitted p key tolerance now r s admitted))
    | inr (e, failed) ↦
        let (code, is_refusal) = admit-err now r s e failed in
        rw (sign_receipt, failed, is_refusal) refl
  ]

  -- An opened directory of retired systems has an empty log.
  opened-IsSound :
      (systems : List SystemState) (id : Text)
      → All IsRetired systems
      → Tracks (get_system id systems) []
  unfolding get_system
  opened-IsSound [] id h = refl
  opened-IsSound (chain c ∷ systems) id h = absurd h.0
  opened-IsSound (retired name genesis ∷ systems) id h = elim (Bool-cases (text_eq name id)) [
    | inl here ↦ rw (get_system, here) refl
    | inr elsewhere ↦ rw (get_system, elsewhere) (opened-IsSound systems id h.1)
  ]

  -- After any requests, refusals and crashes, the state of each system is that of its part of the
  -- log: retired and unknown systems have no receipts, and a chain's receipts are numbered from 0
  -- without a gap, each linked to the one before it by its hash, with the head, the hash and the
  -- frontier that the state holds.
  pub Reach-IsSound : {s : StateDirectory} {log : List Receipt} → Reach s log → IsSound s log
  unfolding record_receipt
  Reach-IsSound (opened systems h) = λ id. opened-IsSound systems id h
  Reach-IsSound (signed {s} {s'} {log} now r sig hash before e) =
      let answer = rw e at (sign_receipt-Answer now r s log (Reach-IsSound before)) in answer.4
  Reach-IsSound (refused {s} {s'} {log} now r (refusal code) before e) =
      let unchanged = rw e at (sign_receipt-Answer now r s log (Reach-IsSound before)) in
      rw unchanged (Reach-IsSound before)
  Reach-IsSound (refused {s} {s'} {log} now r (fault f) before e) =
      absurd (rw e at (sign_receipt-Answer now r s log (Reach-IsSound before)))
  Reach-IsSound (torn_line before) = Reach-IsSound before
  Reach-IsSound (not_put now r sig before e) = Reach-IsSound before
