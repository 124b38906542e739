-- ===== src/Signing.antt =====
-- packages/core/src/signing.ts: signatures over the 32 bytes of a hash.
use sigillo.Common.{Bool, true, false, length, ◌==◌, ◌≡◌, ok, Result, ◌>>◌, guard, if◌then◌else◌}
use sigillo.Crypto.{Bytes, CoreError, not_hash, IsBytes}
use sigillo.Text.{Text}
use sigillo.Base64.{is_signature_text}
use sigillo.Platform.{Platform, receipt_hash}
use sigillo.Receipt.{Receipt, UnsignedReceipt}

module _ (p : Platform) where
  unfoldable pub sign_digest : Bytes → Bytes → Result CoreError Text
  sign_digest digest private_key = do
    guard (length digest == 32) not_hash
    ok (p.sign private_key digest)

  -- A text that has the form of a signature decodes to 64 bytes, so the length test that follows
  -- the expression in the source always passes.
  unfoldable pub verify_digest_signature : Bytes → Text → Bytes → Bool
  verify_digest_signature digest signature public_key =
      if is_signature_text signature then p.verify digest signature public_key else false

  unfoldable pub verify_receipt_signature : Receipt → Bytes → Bool
  verify_receipt_signature receipt public_key =
      verify_digest_signature (receipt_hash p receipt.unsigned) receipt.sig public_key

  pub sign_digest-ok :
      (digest private_key : Bytes)
      → length digest ≡ 32
      → sign_digest digest private_key ≡ ok (p.sign private_key digest)
  unfolding sign_digest
  sign_digest-ok digest private_key sized = rw sized

  -- What is signed is accepted under the key's public half.
  pub verify_digest_signature-sign :
      (digest private_key : Bytes)
      → verify_digest_signature digest (p.sign private_key digest) (p.public_key private_key) ≡ true
  unfolding verify_digest_signature
  verify_digest_signature-sign digest private_key =
      rw (verify_digest_signature, p.sign-IsSignature private_key digest)
        (p.verify-sign private_key digest)

  pub length-receipt_hash : (receipt : UnsignedReceipt) → length (receipt_hash p receipt) ≡ 32
  unfolding receipt_hash
  length-receipt_hash receipt = p.hash.length-sha256 _

  pub receipt_hash-IsBytes : (receipt : UnsignedReceipt) → IsBytes (receipt_hash p receipt)
  unfolding receipt_hash
  receipt_hash-IsBytes receipt = p.hash.sha256-IsBytes _
