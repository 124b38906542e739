-- ===== src/Verifier/Chain.antt =====
-- verifyBundle, steps 1 to 8: the keys of the manifest, and the chain of receipts.
pub mod Sound
pub mod Lines
use sigillo.Common.{
  ℕ, zero, suc, ◌+◌, Bool, true, false, not, ◌||◌, Option, none, some, List, [], ◌∷◌, if◌then◌else◌,
  ◌==◌, Result, ok, err, ◌>>=◌, ◌>>◌, guard, length, take,
}
use sigillo.Crypto.{Bytes}
use sigillo.Text.{Text, text_eq}
use sigillo.Hex.{to_hex}
use sigillo.Receipt.{Receipt}
use sigillo.Platform.{Platform, receipt_hash}
use sigillo.Signing.{verify_receipt_signature}
use sigillo.Signer.{is_genesis, genesis_prev_hash}
use sigillo.Verifier.{
  VerifierError, failed, require, Manifest, ManifestKey, Line, read_line, Location, manifest_file,
  receipts_file, receipt_line, has, receipt_json, receipt_schema, system, sequence, genesis_check,
  chain_link, key, signature, range,
}

abbrev pub KeyMap : Type 0
KeyMap = List (Text × Bytes)

unfoldable pub key_get : Text → KeyMap → Option Bytes
key_get id [] = none
key_get id ((other, raw) ∷ keys) = if text_eq other id then some raw else key_get id keys

unfoldable pub key_set : Text → Bytes → KeyMap → KeyMap
key_set id raw [] = (id, raw) ∷ []
key_set id raw ((other, old) ∷ keys) =
    if text_eq other id then (id, raw) ∷ keys else (other, old) ∷ key_set id raw keys

unfoldable pub read_receipts : ℕ → List (Line Receipt) → Result VerifierError (List Receipt)
read_receipts n [] = ok []
read_receipts n (line ∷ lines) = do
  receipt ← read_line receipt_json receipt_schema (receipt_line n) line
  receipts ← read_receipts (n + 1) lines
  ok (receipt ∷ receipts)

unfoldable pub check_system : Text → ℕ → List Receipt → Result VerifierError (Unit {0})
check_system id n [] = ok tt
check_system id n (r ∷ receipts) = do
  require (text_eq r.system_id id) system (receipt_line n)
  check_system id (n + 1) receipts

unfoldable pub check_sequence : ℕ → ℕ → List Receipt → Result VerifierError (Unit {0})
check_sequence expected n [] = ok tt
check_sequence expected n (r ∷ receipts) = do
  require (r.seq == expected) sequence (receipt_line n)
  check_sequence (expected + 1) (n + 1) receipts

unfoldable pub check_genesis : Receipt → Result VerifierError (Unit {0})
check_genesis first = elim (first.seq == 0) [
  | false ↦ ok tt
  | true ↦ do
    require (is_genesis first.action.kind) genesis_check (receipt_line 1)
    require (text_eq first.action.name first.system_id) genesis_check (receipt_line 1)
    require (text_eq first.prev_hash genesis_prev_hash) genesis_check (receipt_line 1)
]

-- `trusted === undefined || trusted.has(keyId)`
abbrev pub is_trusted : Text → Option (List Text) → Bool
is_trusted id none = true
is_trusted id (some ids) = has id ids

abbrev pub published : Option Bytes → Location → Result VerifierError Bytes
published none location = err (failed key location)
published (some raw) location = ok raw

-- The last receipt of a list that starts with `first`.
abbrev pub last_of : Receipt → List Receipt → Receipt
last_of first [] = first
last_of first (r ∷ receipts) = last_of r receipts

module _ (p : Platform) where
  -- `keyIdFromRawPublicKey`
  unfoldable pub key_id_of : Bytes → Text
  key_id_of raw = take 16 (to_hex (p.hash.sha256 raw))

  unfoldable pub read_keys : KeyMap → List ManifestKey → Result VerifierError KeyMap
  read_keys keys [] = ok keys
  read_keys keys (entry ∷ entries) = do
    require (length entry.public_key == 32) key manifest_file
    require (text_eq (key_id_of entry.public_key) entry.key_id) key manifest_file
    read_keys (key_set entry.key_id entry.public_key keys) entries

  -- The receipts after `previous`.
  unfoldable pub check_links : Receipt → ℕ → List Receipt → Result VerifierError (Unit {0})
  check_links previous n [] = ok tt
  check_links previous n (r ∷ receipts) = do
    require (text_eq r.prev_hash (to_hex (receipt_hash p previous.unsigned))) chain_link
        (receipt_line n)
    check_links r (n + 1) receipts

  module _ (trusted : Option (List Text)) where
    unfoldable pub check_signatures : KeyMap → ℕ → List Receipt → Result VerifierError (Unit {0})
    check_signatures keys n [] = ok tt
    check_signatures keys n (r ∷ receipts) = do
      raw ← published (key_get r.key_id keys) (receipt_line n)
      require (is_trusted r.key_id trusted) key (receipt_line n)
      require (verify_receipt_signature p r raw) signature (receipt_line n)
      check_signatures keys (n + 1) receipts

    -- Steps 3 to 8, over the receipts that were read.
    unfoldable pub check_chain :
        Manifest → KeyMap → Receipt → List Receipt → Result VerifierError (Unit {0})
    check_chain m keys first receipts = do
      check_system m.system_id 1 (first ∷ receipts)
      require (first.seq == m.from_seq) range (receipt_line 1)
      check_sequence first.seq 1 (first ∷ receipts)
      check_genesis first
      check_links first 2 receipts
      check_signatures keys 1 (first ∷ receipts)
