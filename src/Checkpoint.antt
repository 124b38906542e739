-- ===== src/Checkpoint.antt =====
-- packages/core/src/checkpoint.ts: a signed statement that a chain held `tree_size` receipts whose
-- Merkle root was `root_hash`.
pub mod Schema
use sigillo.Common.{ℕ, Bool, true, ok, Result, ◌>>=◌, length, ◌≡◌}
use sigillo.Crypto.{Bytes, CoreError}
use sigillo.Text.{Text, codes}
use sigillo.Json.{Json, number, str, obj, whole, end, member}
use sigillo.Platform.{Platform}
use sigillo.Signing.{
  sign_digest, verify_digest_signature, sign_digest-ok, verify_digest_signature-sign,
}

pub record UnsignedCheckpoint : Type 0 where
  pub system_id : Text
  pub tree_size : ℕ
  pub root_hash : Text
  pub ts : Text
  pub key_id : Text

pub record Checkpoint : Type 0 where
  pub unsigned : UnsignedCheckpoint
  pub open unsigned use *
  pub sig : Text

abbrev pub checkpoint_version : ℕ
checkpoint_version = 1

unfoldable pub checkpoint_json : UnsignedCheckpoint → Json
checkpoint_json c = obj (
    member (codes "v") (number (whole checkpoint_version)) (
      member (codes "system_id") (str c.system_id) (
        member (codes "tree_size") (number (whole c.tree_size)) (
          member (codes "root_hash") (str c.root_hash)
            (member (codes "ts") (str c.ts) (member (codes "key_id") (str c.key_id) end))))))

module _ (p : Platform) where
  unfoldable pub checkpoint_hash : UnsignedCheckpoint → Bytes
  checkpoint_hash checkpoint = p.hash.sha256 (p.canonical_bytes (checkpoint_json checkpoint))

  unfoldable pub sign_checkpoint : UnsignedCheckpoint → Bytes → Result CoreError Checkpoint
  sign_checkpoint checkpoint private_key = do
    sig ← sign_digest p (checkpoint_hash checkpoint) private_key
    ok (record { unsigned = checkpoint; sig = sig })

  unfoldable pub verify_checkpoint_signature : Checkpoint → Bytes → Bool
  verify_checkpoint_signature checkpoint public_key =
      verify_digest_signature p (checkpoint_hash checkpoint.unsigned) checkpoint.sig public_key

  pub length-checkpoint_hash : (c : UnsignedCheckpoint) → length (checkpoint_hash c) ≡ 32
  unfolding checkpoint_hash
  length-checkpoint_hash c = p.hash.length-sha256 _

  pub sign_checkpoint-ok :
      (c : UnsignedCheckpoint) (private_key : Bytes)
      → sign_checkpoint c private_key
        ≡ ok (record { unsigned = c; sig = p.sign private_key (checkpoint_hash c) })
  unfolding sign_checkpoint
  sign_checkpoint-ok c private_key =
      rw (sign_digest-ok p (checkpoint_hash c) private_key (length-checkpoint_hash c))

  -- A checkpoint that was signed is accepted under the key's public half.
  pub verify_checkpoint_signature-sign :
      (c : UnsignedCheckpoint) (private_key : Bytes)
      → verify_checkpoint_signature
          (record { unsigned = c; sig = p.sign private_key (checkpoint_hash c) })
          (p.public_key private_key)
        ≡ true
  unfolding verify_checkpoint_signature
  verify_checkpoint_signature-sign c private_key =
      verify_digest_signature-sign p (checkpoint_hash c) private_key
