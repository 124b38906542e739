-- ===== src/Platform.antt =====
-- What core and the signer take from packages and from the runtime: SHA-256 and Ed25519
-- (node:crypto), the canonical JSON form (the package canonicalize, RFC 8785), and dates. None of
-- it is in the repository: it is a parameter, with the documented behaviour that theorems use.
use sigillo.Common.{ℕ, ◌≡◌, Bool, true}
use sigillo.Crypto.{Bytes, HashFunction}
use sigillo.Text.{Text}
use sigillo.Base64.{is_signature_text}
use sigillo.Json.{Json}
use sigillo.Receipt.{UnsignedReceipt, receipt_json}

pub record Platform : Type 0 where
  pub hash : HashFunction
  -- The UTF-8 bytes of the canonical form.
  pub canonical_bytes : Json → Bytes
  -- A signature is the base64 text of 64 bytes; a public key is 32 raw bytes.
  pub sign : Bytes → Bytes → Text
  pub verify : Bytes → Text → Bytes → Bool
  pub public_key : Bytes → Bytes
  pub verify-sign :
      (private_key message : Bytes)
      → verify message (sign private_key message) (public_key private_key) ≡ true
  pub sign-IsSignature :
      (private_key message : Bytes) → is_signature_text (sign private_key message) ≡ true
  -- Milliseconds from a fixed instant before every date that a receipt can carry.
  pub date_parse : Text → ℕ
  pub to_iso_string : ℕ → Text
  -- `new Date(value)` is valid and `toISOString()` gives `value` back.
  pub reads_back : Text → Bool
  -- `Buffer.from(value, "base64").toString("base64") === value`
  pub is_canonical_base64 : Text → Bool
  -- `value.normalize("NFC").trim().toLowerCase()`
  pub normalise : Text → Text

module _ (p : Platform) where
  -- `canonicalReceiptBytes` and `receiptHash`: the JSON form has no `sig`.
  unfoldable pub canonical_receipt_bytes : UnsignedReceipt → Bytes
  canonical_receipt_bytes receipt = p.canonical_bytes (receipt_json receipt)

  unfoldable pub receipt_hash : UnsignedReceipt → Bytes
  receipt_hash receipt = p.hash.sha256 (canonical_receipt_bytes receipt)
