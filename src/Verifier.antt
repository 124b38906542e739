-- ===== src/Verifier.antt =====
-- packages/verifier/src/verify.ts: what an export holds, and the failures. Each line of the export's
-- files stands here as what JSON.parse and the schema made of it; public keys are decoded from base64.
pub mod Chain
pub mod Indices
pub mod Checkpoints
pub mod Verify
pub mod Previous
pub mod Anchors
pub mod Times
use sigillo.Common.{
  ℕ, zero, suc, ◌+◌, Bool, true, false, Option, none, some, List, [], ◌∷◌, if◌then◌else◌, ◌==◌,
  Result, ok, err, ◌>>=◌, ◌>>◌, guard, ◌≡◌,
}
use sigillo.Crypto.{Bytes, CoreError}
use sigillo.Text.{Text, text_eq}
use sigillo.Receipt.{Receipt, ArtifactRole, ArtifactText}
use sigillo.Checkpoint.{Checkpoint}

pub data VerificationCheck : Type 0 where
  manifest receipt_json receipt_schema system sequence genesis_check chain_link key signature
        range :
      VerificationCheck
  checkpoint_json checkpoint_schema checkpoint_signature merkle_root_check inclusion_proof_check :
      VerificationCheck
  artifacts_index openings subjects previous_export : VerificationCheck

pub data Location : Type 0 where
  manifest_file receipts_file artifacts_file checkpoints_file : Location
  receipt_line checkpoint_line artifacts_line opening_line subject_line : ℕ → Location

-- A check that failed is returned; an error of core that nothing catches is thrown.
pub data VerifierError : Type 0 where
  failed : VerificationCheck → Location → VerifierError
  threw : CoreError → VerifierError

pub data Line {ℓ} (A : Type ℓ) : Type ℓ where
  not_json : Line A
  bad_schema : Line A
  parsed : A → Line A

pub record ManifestKey : Type 0 where
  pub key_id : Text
  pub public_key : Bytes

pub record Manifest : Type 0 where
  pub receipt_version : ℕ
  pub system_id : Text
  pub from_seq : ℕ
  pub to_seq : ℕ
  pub from_ts : Text
  pub to_ts : Text
  pub receipts : ℕ
  pub checkpoints : ℕ
  pub timestamps : ℕ
  pub keys : List ManifestKey

pub record InclusionProof : Type 0 where
  pub seq : ℕ
  pub receipt_hash : Text
  pub path : List Text

pub record ExportTimestamp : Type 0 where
  pub tsa_url : Text
  pub file : Text

pub record CheckpointEntry : Type 0 where
  pub checkpoint : Checkpoint
  pub proofs : List InclusionProof
  pub timestamps : List ExportTimestamp

pub record ArtifactsIndexEntry : Type 0 where
  pub sha256 : Text
  pub seq : ℕ
  pub role : ArtifactRole
  pub label : Text
  pub text : Option ArtifactText

pub record OpeningEntry : Type 0 where
  pub seq : ℕ
  pub role : ArtifactRole

pub record Bundle : Type 0 where
  pub manifest : Line Manifest
  pub receipts : List (Line Receipt)
  pub artifacts_index : List (Line ArtifactsIndexEntry)
  pub openings : List (Line OpeningEntry)
  pub subjects : List (Line Text)
  pub checkpoints : List (Line CheckpointEntry)

-- `if (!test) return fail(check, location, …)`
abbrev pub require : Bool → VerificationCheck → Location → Result VerifierError (Unit {0})
require test check location = guard test (failed check location)

-- A value, or the error of core that nothing catches.
abbrev pub uncaught {ℓ} : {A : Type ℓ} → Result CoreError A → Result VerifierError A
uncaught (ok value) = ok value
uncaught (err e) = err (threw e)

-- The value of a line, or the failure that the line gives.
abbrev pub read_line {ℓ} :
    {A : Type ℓ}
    → VerificationCheck
    → VerificationCheck
    → Location
    → Line A
    → Result VerifierError A
read_line json schema location not_json = err (failed json location)
read_line json schema location bad_schema = err (failed schema location)
read_line json schema location (parsed value) = ok value

pub read_line-parsed {ℓ} :
    {A : Type ℓ} (json schema : VerificationCheck) (location : Location) (line : Line A) {a : A}
    → read_line json schema location line ≡ ok a
    → line ≡ parsed a
read_line-parsed json schema location not_json h = cc
read_line-parsed json schema location bad_schema h = cc
read_line-parsed json schema location (parsed other) h = cc

-- `receipts.find((candidate) => candidate.seq === seq)`
unfoldable pub find_receipt : ℕ → List Receipt → Option Receipt
find_receipt seq [] = none
find_receipt seq (r ∷ receipts) = if r.seq == seq then some r else find_receipt seq receipts

-- `set.has(text)`
unfoldable pub has : Text → List Text → Bool
has text [] = false
has text (other ∷ texts) = if text_eq other text then true else has text texts
