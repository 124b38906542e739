-- ===== src/Store/Service.antt =====
-- store.ts, `SigningService`: whatever holds the key. The store takes nothing it returns on trust, so
-- the theorems about the store alone hold for every service.
use sigillo.Common.{ℕ, ◌&&◌, Option, none, some, List, ◌∷◌, ◌==◌, length, Result, ok, ◌>>◌, guard}
use sigillo.Crypto.{Bytes}
use sigillo.Text.{Text, text_eq}
use sigillo.Receipt.{Receipt, UnsignedReceipt}
use sigillo.Checkpoint.{Checkpoint}
use sigillo.Signer.{RefusalCode}
use sigillo.Platform.{Platform}
use sigillo.Verifier.Chain.{key_id_of}
use sigillo.Store.{Database, KeyRow, StoreError, storage_error, public_key_for}

-- `SignerRefusedError` and `SignerUnavailableError` (apps/server/src/signer/errors.ts).
pub data SigningError : Type 0 where
  signer_refused : RefusalCode → SigningError
  signer_unavailable : SigningError

-- The service has a state of its own, which its calls change.
pub record SigningService (σ : Type 0) : Type 0 where
  pub key_id : Text
  pub public_key : Bytes
  pub sign_receipt : UnsignedReceipt → σ → Result SigningError Text × σ
  pub checkpoint : Text → σ → Result SigningError Checkpoint × σ
  pub head : Text → σ → Result SigningError (Option Receipt) × σ
  -- A service without a journal fails here.
  pub receipts : Text → ℕ → ℕ → σ → Result SigningError (List Receipt) × σ

-- The store and the service behind it. `divergences` is in memory, and no transaction restores it.
pub record StoreState (σ : Type 0) : Type 0 where
  pub db : Database
  pub divergences : List (Text × Text)
  pub service : σ

-- `INSERT OR IGNORE`, by the table's key.
abbrev pub add_key : Text → Bytes → List KeyRow → Option Bytes → List KeyRow
add_key key_id raw keys (some known) = keys
add_key key_id raw keys none = record { key_id = key_id; public_key = raw } ∷ keys

-- `verificationKeyOf`, and what `open` writes.
unfoldable pub open_store :
    {σ : Type 0} → Platform → SigningService σ → Database → Result StoreError Database
open_store p svc db = do
  guard (length svc.public_key == 32 && text_eq (key_id_of p svc.public_key) svc.key_id)
      storage_error
  ok (record db {
    signing_keys =
        add_key svc.key_id svc.public_key db.signing_keys
          (public_key_for svc.key_id db.signing_keys);
  })
