-- ===== src/Store/Recovery.antt =====
-- `reconcileNow` against the chains of the database: what the loop takes back continues the chain.
use sigillo.Common.{
  ℕ, ◌+◌, ◌≡◌, ◌≢◌, true, false, ◌==◌, Option, none, some, List, [], ◌∷◌, Bool-cases, inl, inr,
  arith, ==_iff, All,
}
use sigillo.Crypto.{Bytes}
use sigillo.Text.{Text, text_eq, text_eq_iff}
use sigillo.Platform.{Platform}
use sigillo.Receipt.{Receipt}
use sigillo.Store.{KeyRow, public_key_for}
use sigillo.Store.Insert.{hash_hex}
use sigillo.Store.Judge.{
  Taken, broken, taken, prepend, or_own, key_for, signed_under, continues, take_missing,
}
use sigillo.Store.Chain.{is_signed}

module _ (p : Platform) (own_id : Text) (own : Bytes) (keys : List KeyRow) where
  -- Receipts that follow one another, oldest first, from a number and the hash before it.
  abbrev pub Follow : Text → ℕ → Text → List Receipt → Text → Type 0
  Follow id seq previous [] last = previous ≡ last
  Follow id seq previous (r ∷ receipts) last =
      (r.system_id ≡ id)
      × (r.seq ≡ seq)
      × (r.prev_hash ≡ previous)
      × (is_signed p keys r ≡ true)
      × Follow id (seq + 1) (hash_hex p r) receipts last

  or_own-signed :
      (r : Receipt) (found : Option Bytes)
      → (r.key_id ≡ own_id → found ≡ some own)
      → signed_under p r (or_own found r.key_id own_id own) ≡ true
      → signed_under p r found ≡ true
  or_own-signed r (some raw) known h = h
  or_own-signed r none known h = elim (Bool-cases (text_eq r.key_id own_id)) [
    | inl same ↦ let absent = known ((text_eq_iff r.key_id own_id).0 same) in cc
    | inr other ↦ let none_known : false ≡ true = rw other at (h) in ground (arith, none_known)
  ]

  prepend-taken :
      (r : Receipt) (rest : Taken) {receipts : List Receipt} {last : Text}
      → prepend r rest ≡ taken receipts last
      → (more : List Receipt) × (rest ≡ taken more last) × (receipts ≡ r ∷ more)
  prepend-taken r (broken seq) h = cc
  prepend-taken r (taken more previous) h = (more, cc, cc)

  continues-parts :
      (id : Text) (seq : ℕ) (previous : Text) (raw : Option Bytes) (r : Receipt)
      → continues p id seq previous raw r ≡ true
      → (r.system_id ≡ id)
        × (r.seq ≡ seq)
        × (r.prev_hash ≡ previous)
        × (signed_under p r raw ≡ true)
  continues-parts id seq previous raw r h = (
    (text_eq_iff r.system_id id).0 (ground (arith, h)),
    (==_iff r.seq seq).0 (ground (arith, h)),
    (text_eq_iff r.prev_hash previous).0 (ground (arith, h)),
    ground (arith, h),
  )

  broken-ne-taken :
      {seq : ℕ} {receipts : List Receipt} {last : Text} → broken seq ≢ taken receipts last
  broken-ne-taken h = cc

  taken-receipts :
      {receipts receipts' : List Receipt} {last last' : Text}
      → taken receipts last ≡ taken receipts' last'
      → receipts ≡ receipts'
  taken-receipts h = cc

  taken-last :
      {receipts receipts' : List Receipt} {last last' : Text}
      → taken receipts last ≡ taken receipts' last'
      → last ≡ last'
  taken-last h = cc

  pub take_missing-Follow :
      (known : public_key_for own_id keys ≡ some own) (id : Text) (seq : ℕ) (previous : Text)
      (head_seq : ℕ) (missing : List Receipt) {receipts : List Receipt} {last : Text}
      → take_missing p own_id own keys id seq previous head_seq missing ≡ taken receipts last
      → Follow id seq previous receipts last
  unfolding take_missing
  take_missing-Follow known id seq previous head_seq [] {receipts} {last} h =
      let empty : [] ≡ receipts = cc in let same : previous ≡ last = cc in rw (← empty) same
  take_missing-Follow known id seq previous head_seq (r ∷ missing) {receipts} {last} h =
      elim (Bool-cases (continues p id seq previous (key_for own_id own keys r) r)) [
        | inr other ↦
            let stop : broken seq ≡ taken receipts last = rw other at (h) in
            elim (broken-ne-taken stop) [ ]
        | inl next ↦
            let parts = continues-parts id seq previous (key_for own_id own keys r) r next in
            let signed =
              or_own-signed r (public_key_for r.key_id keys) (λ same. rw same known) parts.3 in
            elim (Bool-cases (seq == head_seq)) [
              | inl reached ↦
                  let only : (r ∷ []) ≡ receipts = taken-receipts (rw (next, reached) at (h)) in
                  let same : hash_hex p r ≡ last = taken-last (rw (next, reached) at (h)) in
                  rw (← only) (parts.0, parts.1, parts.2, signed, same)
              | inr more ↦
                  let (rest, went, split) =
                    prepend-taken r
                      (take_missing p own_id own keys id (seq + 1) (hash_hex p r) head_seq missing)
                      (rw (next, more) at (h)) in
                  rw split (
                    parts.0,
                    parts.1,
                    parts.2,
                    signed,
                    take_missing-Follow known id (seq + 1) (hash_hex p r) head_seq missing went,
                  )
            ]
      ]

  -- The loop takes only receipts that it was given.
  pub take_missing-All {ℓ} :
      (P : Receipt → Type ℓ) (id : Text) (seq : ℕ) (previous : Text) (head_seq : ℕ)
      (missing : List Receipt) {receipts : List Receipt} {last : Text}
      → take_missing p own_id own keys id seq previous head_seq missing ≡ taken receipts last
      → All P missing
      → All P receipts
  unfolding take_missing
  take_missing-All P id seq previous head_seq [] {receipts} {last} h all =
      let empty : [] ≡ receipts = taken-receipts h in rw (← empty) tt
  take_missing-All P id seq previous head_seq (r ∷ missing) {receipts} {last} h all =
      elim (Bool-cases (continues p id seq previous (key_for own_id own keys r) r)) [
        | inr other ↦
            let stop : broken seq ≡ taken receipts last = rw other at (h) in
            elim (broken-ne-taken stop) [ ]
        | inl next ↦ elim (Bool-cases (seq == head_seq)) [
          | inl reached ↦
              let only : (r ∷ []) ≡ receipts = taken-receipts (rw (next, reached) at (h)) in
              rw (← only) (all.0, tt)
          | inr more ↦
              let (rest, went, split) =
                prepend-taken r
                  (take_missing p own_id own keys id (seq + 1) (hash_hex p r) head_seq missing)
                  (rw (next, more) at (h)) in
              rw split
                (all.0, take_missing-All P id (seq + 1) (hash_hex p r) head_seq missing went all.1)
        ]
      ]
