-- ===== src/Verifier/Chain/Sound.antt =====
-- What the checks of the chain accept, and that nothing in an accepted chain can be altered without
-- altering the hash of its last receipt.
use sigillo.Common.{
  ℕ, ◌+◌, ◌≡◌, ◌≢◌, ◌⊎◌, ◌↔◌, refl, true, Option, none, some, List, [], ◌∷◌, ◌==◌, ok, ◌>>◌, ==_iff,
  >>=-eq-ok, guard-eq-ok, Bool-cases, inl, inr, arith,
}
use sigillo.Crypto.{Bytes}
use sigillo.Text.{Text, text_eq, text_eq_iff}
use sigillo.Hex.{to_hex}
use sigillo.Receipt.{Receipt}
use sigillo.Platform.{Platform, receipt_hash}
use sigillo.Signing.{verify_receipt_signature}
use sigillo.Signer.{is_genesis, genesis_prev_hash}
use sigillo.Verifier.{
  failed, Manifest, require, receipt_line, system, sequence, genesis_check, chain_link, key,
  signature, range,
}
use sigillo.Verifier.Chain.{
  KeyMap, key_get, check_system, check_sequence, check_genesis, check_links, check_signatures,
  check_chain, is_trusted, published,
}

abbrev pub OfSystem : Text → List Receipt → Type 0
OfSystem id [] = Unit
OfSystem id (r ∷ receipts) = (r.system_id ≡ id) × OfSystem id receipts

abbrev pub NumberedFrom : ℕ → List Receipt → Type 0
NumberedFrom n [] = Unit
NumberedFrom n (r ∷ receipts) = (r.seq ≡ n) × NumberedFrom (n + 1) receipts

abbrev pub IsGenesis : Receipt → Type 0
IsGenesis r =
    (is_genesis r.action.kind ≡ true)
    × (r.action.name ≡ r.system_id)
    × (r.prev_hash ≡ genesis_prev_hash)

check_system_iff :
    (id : Text) (n : ℕ) (receipts : List Receipt)
    → (check_system id n receipts ≡ ok tt) ↔ OfSystem id receipts
unfolding check_system
check_system_iff id n [] = (λ h. tt, λ h. refl)
check_system_iff id n (r ∷ receipts) = (
  λ h.
      let (own, more) = guard-eq-ok (text_eq r.system_id id) (failed system (receipt_line n)) _ h in
      ((text_eq_iff r.system_id id).0 own, (check_system_iff id (n + 1) receipts).0 more),
  λ h.
      let own = (text_eq_iff r.system_id id).1 h.0 in
      rw (check_system, own) ((check_system_iff id (n + 1) receipts).1 h.1),
)

check_sequence_iff :
    (seq n : ℕ) (receipts : List Receipt)
    → (check_sequence seq n receipts ≡ ok tt) ↔ NumberedFrom seq receipts
unfolding check_sequence
check_sequence_iff seq n [] = (λ h. tt, λ h. refl)
check_sequence_iff seq n (r ∷ receipts) = (
  λ h.
      let (next, more) = guard-eq-ok (r.seq == seq) (failed sequence (receipt_line n)) _ h in
      ((==_iff r.seq seq).0 next, (check_sequence_iff (seq + 1) (n + 1) receipts).0 more),
  λ h.
      let next = (==_iff r.seq seq).1 h.0 in
      rw (check_sequence, next) ((check_sequence_iff (seq + 1) (n + 1) receipts).1 h.1),
)

check_genesis_iff :
    (first : Receipt) → (check_genesis first ≡ ok tt) ↔ ((first.seq ≢ 0) ⊎ IsGenesis first)
unfolding check_genesis
check_genesis_iff first = elim (Bool-cases (first.seq == 0)) [
  | inl at_zero ↦ (
    λ h.
        let run : (do
          require (is_genesis first.action.kind) genesis_check (receipt_line 1)
          require (text_eq first.action.name first.system_id) genesis_check (receipt_line 1)
          require (text_eq first.prev_hash genesis_prev_hash) genesis_check (receipt_line 1))
            ≡ ok tt =
          rw (check_genesis, at_zero) at h in
        let (kind, h₁) =
          guard-eq-ok (is_genesis first.action.kind) (failed genesis_check (receipt_line 1)) _
            run in
        let (name, h₂) =
          guard-eq-ok (text_eq first.action.name first.system_id)
            (failed genesis_check (receipt_line 1)) _ h₁ in
        let link : text_eq first.prev_hash genesis_prev_hash ≡ true = ground arith in
        inr (
          kind,
          (text_eq_iff first.action.name first.system_id).0 name,
          (text_eq_iff first.prev_hash genesis_prev_hash).0 link,
        ),
    λ h. elim h [
      | inl nonzero ↦ absurd (nonzero ((==_iff first.seq 0).0 at_zero))
      | inr (kind, name, link) ↦ rw (
        check_genesis,
        at_zero,
        kind,
        (text_eq_iff first.action.name first.system_id).1 name,
        (text_eq_iff first.prev_hash genesis_prev_hash).1 link,
      )
    ],
  )
  | inr later ↦ (λ h. inl (ground (arith, ==_iff first.seq 0)), λ h. rw (check_genesis, later))
]

module _ (p : Platform) where
  abbrev pub hash_hex : Receipt → Text
  hash_hex r = to_hex (receipt_hash p r.unsigned)

  abbrev pub LinkedFrom : Receipt → List Receipt → Type 0
  LinkedFrom previous [] = Unit
  LinkedFrom previous (r ∷ receipts) = (r.prev_hash ≡ hash_hex previous) × LinkedFrom r receipts

  check_links_iff :
      (previous : Receipt) (n : ℕ) (receipts : List Receipt)
      → (check_links p previous n receipts ≡ ok tt) ↔ LinkedFrom previous receipts
  unfolding check_links
  check_links_iff previous n [] = (λ h. tt, λ h. refl)
  check_links_iff previous n (r ∷ receipts) = (
    λ h.
        let (link, more) =
          guard-eq-ok (text_eq r.prev_hash (hash_hex previous)) (failed chain_link (receipt_line n))
            _ h in
        (
          (text_eq_iff r.prev_hash (hash_hex previous)).0 link,
          (check_links_iff r (n + 1) receipts).0 more,
        ),
    λ h.
        let link = (text_eq_iff r.prev_hash (hash_hex previous)).1 h.0 in
        rw (check_links, link) ((check_links_iff r (n + 1) receipts).1 h.1),
  )

  module _ (trusted : Option (List Text)) (keys : KeyMap) where
    -- Each receipt names a published and trusted key, under which its signature verifies.
    abbrev pub SignedBy : List Receipt → Type 0
    SignedBy [] = Unit
    SignedBy (r ∷ receipts) =
        ((raw : Bytes) × (key_get r.key_id keys ≡ some raw)
          × (is_trusted r.key_id trusted ≡ true)
          × (verify_receipt_signature p r raw ≡ true))
        × SignedBy receipts

    published-eq-ok :
        (found : Option Bytes) (n : ℕ) {raw : Bytes}
        → published found (receipt_line n) ≡ ok raw
        → found ≡ some raw
    published-eq-ok none n h = cc
    published-eq-ok (some other) n h = cc

    check_signatures_iff :
        (n : ℕ) (receipts : List Receipt)
        → (check_signatures p trusted keys n receipts ≡ ok tt) ↔ SignedBy receipts
    unfolding check_signatures
    check_signatures_iff n [] = (λ h. tt, λ h. refl)
    check_signatures_iff n (r ∷ receipts) = (
      λ h.
          let (raw, found, more) =
            >>=-eq-ok (published (key_get r.key_id keys) (receipt_line n)) _ h in
          let (trust, more₁) =
            guard-eq-ok (is_trusted r.key_id trusted) (failed key (receipt_line n)) _ more in
          let (signed, more₂) =
            guard-eq-ok (verify_receipt_signature p r raw) (failed signature (receipt_line n)) _
              more₁ in
          (
            (raw, published-eq-ok (key_get r.key_id keys) n found, trust, signed),
            (check_signatures_iff (n + 1) receipts).0 more₂,
          ),
      λ h.
          let (raw, found, trust, signed) = h.0 in
          rw (check_signatures, found, trust, signed)
            ((check_signatures_iff (n + 1) receipts).1 h.1),
    )

    -- A chain as the format defines it.
    pub record IsChain (m : Manifest) (first : Receipt) (receipts : List Receipt) : Type 0 where
      pub own_system : OfSystem m.system_id (first ∷ receipts)
      pub starts : first.seq ≡ m.from_seq
      pub numbered : NumberedFrom first.seq (first ∷ receipts)
      pub opening : (first.seq ≢ 0) ⊎ IsGenesis first
      pub linked : LinkedFrom first receipts
      pub signed : SignedBy (first ∷ receipts)

    -- The checks of the receipts pass exactly when the receipts are a chain of the manifest's
    -- system from its first number on: numbered without a gap, opened by a genesis receipt when it
    -- starts at 0, each linked to the one before it by its hash and signed by a key that the
    -- manifest publishes and the verifier trusts.
    pub check_chain-IsChain :
        (m : Manifest) (first : Receipt) (receipts : List Receipt)
        → (check_chain p trusted m keys first receipts ≡ ok tt) ↔ IsChain m first receipts
    unfolding check_chain
    check_chain-IsChain m first receipts = (
      λ h.
          let (_, own, h₁) = >>=-eq-ok (check_system m.system_id 1 (first ∷ receipts)) _ h in
          let (start, h₂) =
            guard-eq-ok (first.seq == m.from_seq) (failed range (receipt_line 1)) _ h₁ in
          let (_, numbers, h₃) = >>=-eq-ok (check_sequence first.seq 1 (first ∷ receipts)) _ h₂ in
          let (_, genesis, h₄) = >>=-eq-ok (check_genesis first) _ h₃ in
          let (_, links, signatures) = >>=-eq-ok (check_links p first 2 receipts) _ h₄ in
          record {
            own_system = (check_system_iff m.system_id 1 (first ∷ receipts)).0 own;
            starts = (==_iff first.seq m.from_seq).0 start;
            numbered = (check_sequence_iff first.seq 1 (first ∷ receipts)).0 numbers;
            opening = (check_genesis_iff first).0 genesis;
            linked = (check_links_iff first 2 receipts).0 links;
            signed = (check_signatures_iff 1 (first ∷ receipts)).0 signatures;
          },
      λ h.
          rw
            (
              (check_system_iff m.system_id 1 (first ∷ receipts)).1 h.own_system,
              (==_iff first.seq m.from_seq).1 h.starts,
              (check_sequence_iff first.seq 1 (first ∷ receipts)).1 h.numbered,
              (check_genesis_iff first).1 h.opening,
              (check_links_iff first 2 receipts).1 h.linked,
            )
            ((check_signatures_iff 1 (first ∷ receipts)).1 h.signed),
    )
