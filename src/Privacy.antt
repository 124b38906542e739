-- ===== src/Privacy.antt =====
-- packages/core/src/privacy.ts and `openDigest` of packages/verifier/src/verify.ts: pseudonym tokens,
-- and digests under a nonce. The randomness comes from the caller.
use sigillo.Common.{
  ℕ, ◌≡◌, ◌↔◌, ap, Bool, true, false, ◌&&◌, Option, none, some, List, ◌++◌, if◌then◌else◌, ◌==◌,
  Result, ok, err, ◌>>◌, guard, length, take, drop, arith, ok-injective, Bool-cases, inl, inr,
}
use sigillo.Crypto.{Bytes, IsBytes}
use sigillo.Text.{Text, codes, text_eq, text_eq_iff}
use sigillo.Json.{Json}
use sigillo.Hex.{to_hex, from_hex, all_hex}
use sigillo.Hex.RoundTrip.{all_hex-to_hex, length-to_hex, from_hex-to_hex}
use sigillo.Platform.{Platform}
use sigillo.Receipt.{Receipt, HashScheme, plain, salted, ArtifactRole, input, output}
use sigillo.Verifier.{find_receipt}
use sigillo.Verifier.Indices.{is_salted, scheme_of, is_v4}

pub data PrivacyError : Type 0 where
  wrong_random wrong_nonce : PrivacyError

-- `/^psn_[0-9a-f]{32}$/`
unfoldable pub is_pseudonym : Text → Bool
is_pseudonym value =
    text_eq (take 4 value) (codes "psn_") && length (drop 4 value) == 32 && all_hex (drop 4 value)

unfoldable pub pseudonym_from_random : Bytes → Result PrivacyError Text
pseudonym_from_random random = do
  guard (length random == 16) wrong_random
  ok (codes "psn_" ++ to_hex random)

-- Sixteen random bytes always give a pseudonym, and one from which they can be read back: different
-- randomness never gives the same token.
pub pseudonym_from_random-ok :
    (random : Bytes)
    → length random ≡ 16
    → IsBytes random
    → (token : Text) × (pseudonym_from_random random ≡ ok token)
      × (is_pseudonym token ≡ true)
      × (from_hex (drop 4 token) ≡ ok random)
unfolding pseudonym_from_random is_pseudonym text_eq
pseudonym_from_random-ok random sized bytes =
    let full : (length (to_hex random) == 32) ≡ true = ground (arith, length-to_hex random) in
    (
      codes "psn_" ++ to_hex random,
      rw sized,
      rw (full, all_hex-to_hex random bytes),
      from_hex-to_hex random bytes,
    )

module _ (p : Platform) where
  -- `hashCanonicalJson`
  unfoldable pub hash_canonical_json : Json → Text
  hash_canonical_json value = to_hex (p.hash.sha256 (p.canonical_bytes value))

  unfoldable pub salted_digest : Bytes → Json → Result PrivacyError Text
  salted_digest nonce value = do
    guard (length nonce == 32) wrong_nonce
    ok (to_hex (p.hash.sha256 (nonce ++ p.canonical_bytes value)))

  abbrev is_digest : Result PrivacyError Text → Text → Bool
  is_digest (ok found) digest = text_eq found digest
  is_digest (err _) digest = false

  unfoldable pub open_salted_digest : Text → Bytes → Json → Bool
  open_salted_digest digest nonce value =
      if length nonce == 32 then is_digest (salted_digest nonce value) digest else false

  -- A salted digest opens under a nonce and a value exactly when it was computed from them.
  pub open_salted_digest_lem :
      (digest : Text) (nonce : Bytes) (value : Json)
      → (open_salted_digest digest nonce value ≡ true) ↔ (salted_digest nonce value ≡ ok digest)
  unfolding open_salted_digest salted_digest
  open_salted_digest_lem digest nonce value =
      let computed = to_hex (p.hash.sha256 (nonce ++ p.canonical_bytes value)) in
      elim (Bool-cases (length nonce == 32)) [
        | inl sized ↦ rw sized (
          λ h. ap (λ (text : Text). ok text) ((text_eq_iff computed digest).0 h),
          λ h. (text_eq_iff computed digest).1 (ok-injective h),
        )
        | inr short ↦ rw short (λ h. cc, λ h. cc)
      ]

  pub data Opening : Type 0 where
    opened : HashScheme → Opening
    closed : Opening

  -- `` receipt[`${role}_hash`] ``
  abbrev pub digest_of : ArtifactRole → Receipt → Option Text
  digest_of input r = r.input_hash
  digest_of output r = r.output_hash

  abbrev open_under : Option Bytes → Text → Json → Opening
  open_under none digest value = closed
  open_under (some nonce) digest value =
      if open_salted_digest digest nonce value then opened salted else closed

  unfoldable pub open_receipt : Receipt → ArtifactRole → Option Bytes → Json → Opening
  open_receipt r role nonce value = elim (digest_of role r) [
    | none ↦ closed
    | some digest ↦ elim (is_v4 r.v && is_salted (scheme_of role r)) [
      | true ↦ open_under nonce digest value
      | false ↦ if text_eq (hash_canonical_json value) digest then opened plain else closed
    ]
  ]

  unfoldable pub open_digest : List Receipt → ℕ → ArtifactRole → Option Bytes → Json → Opening
  open_digest receipts seq role nonce value = elim (find_receipt seq receipts) [
    | none ↦ closed
    | some r ↦ open_receipt r role nonce value
  ]
