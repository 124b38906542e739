-- ===== src/Receipt/Schema.antt =====
-- packages/core/src/receipt.ts: the schemas of the versions, over a receipt whose members have been
-- read. The members that a version does not have are `none`.
use sigillo.Common.{
  ℕ, Bool, true, false, ◌&&◌, Option, none, some, List, [], ◌∷◌, length, leb, ◌==◌, if◌then◌else◌,
}
use sigillo.Text.{Text, codes, text_eq}
use sigillo.Hex.{all_hex}
use sigillo.Base64.{is_signature_text}
use sigillo.Privacy.{is_pseudonym}
use sigillo.Platform.{Platform}
use sigillo.Receipt.{
  Version, v1, v2, v4, Actor, Action, Source, ArtifactText, Artifact, Model, HashScheme,
  UnsignedReceipt, Receipt,
}

abbrev pub max_system_id : ℕ
max_system_id = 128

abbrev pub max_name : ℕ
max_name = 256

abbrev pub max_media_type : ℕ
max_media_type = 128

-- `z.string().min(1).max(limit)`
abbrev pub sized : ℕ → Text → Bool
sized limit text = leb 1 (length text) && leb (length text) limit

abbrev pub hex_string : ℕ → Text → Bool
hex_string count text = length text == count && all_hex text

-- The same on a member that may be absent, or be null.
abbrev pub if_given {ℓ} : {A : Type ℓ} → (A → Bool) → Option A → Bool
if_given valid none = true
if_given valid (some value) = valid value

abbrev is_digit : ℕ → Bool
is_digit c = leb b'0' c && leb c b'9'

-- The characters against a pattern, in which `d` stands for a digit.
unfoldable pub matches : Text → Text → Bool
matches [] [] = true
matches [] (_ ∷ _) = false
matches (_ ∷ _) [] = false
matches (k ∷ pattern) (c ∷ text) =
    (if k == b'd' then is_digit c else c == k) && matches pattern text

abbrev iso_pattern : Text
iso_pattern = codes "dddd-dd-ddTdd:dd:dd.dddZ"

abbrev valid_source : Source → Bool
valid_source s = if_given (hex_string 32) s.trace_id && if_given (hex_string 16) s.span_id

abbrev valid_action : Action → Bool
valid_action a = sized max_name a.name

abbrev valid_actor : Version → Actor → Bool
valid_actor v4 a = sized max_name a.agent && if_given is_pseudonym a.on_behalf_of
valid_actor _ a = sized max_name a.agent && if_given (sized max_name) a.on_behalf_of

abbrev valid_text : ArtifactText → Bool
valid_text t = text_eq t.canon (codes "sigillo-text/1") && hex_string 64 t.sha256

abbrev absent {ℓ} : {A : Type ℓ} → Option A → Bool
absent none = true
absent (some _) = false

-- Version 2 artifacts have no `text`.
abbrev valid_artifact_text : Version → Option ArtifactText → Bool
valid_artifact_text v2 text = absent text
valid_artifact_text _ text = if_given valid_text text

abbrev valid_artifact : Version → Artifact → Bool
valid_artifact v a =
    sized max_name a.label
    && sized max_media_type a.media_type
    && hex_string 64 a.sha256
    && valid_artifact_text v a.text

unfoldable pub valid_artifact_list : Version → List Artifact → Bool
valid_artifact_list v [] = true
valid_artifact_list v (a ∷ artifacts) = valid_artifact v a && valid_artifact_list v artifacts

-- Never empty: `.min(1)`.
abbrev valid_artifacts : Version → Option (List Artifact) → Bool
valid_artifacts v1 artifacts = absent artifacts
valid_artifacts v none = true
valid_artifacts v (some artifacts) = leb 1 (length artifacts) && valid_artifact_list v artifacts

abbrev valid_model_fields : Model → Bool
valid_model_fields m =
    sized max_name m.name
    && if_given (sized max_name) m.provider
    && if_given (sized max_name) m.digest

abbrev valid_model : Version → Option Model → Bool
valid_model v1 model = absent model
valid_model v model = if_given valid_model_fields model

abbrev both_or_neither : Option Text → Option HashScheme → Bool
both_or_neither none none = true
both_or_neither (some _) (some _) = true
both_or_neither _ _ = false

-- `schemesMatchDigests`; the schemes are members of version 4 alone.
unfoldable pub schemes_match_digests : UnsignedReceipt → Version → Bool
schemes_match_digests r v4 =
    both_or_neither r.input_hash r.input_hash_scheme
    && both_or_neither r.output_hash r.output_hash_scheme
schemes_match_digests r _ = absent r.input_hash_scheme && absent r.output_hash_scheme

module _ (p : Platform) where
  unfoldable pub is_iso_timestamp : Text → Bool
  is_iso_timestamp text = matches iso_pattern text && p.reads_back text

  unfoldable pub valid_unsigned : UnsignedReceipt → Bool
  unfolding is_iso_timestamp
  valid_unsigned r =
      sized max_system_id r.system_id
      && is_iso_timestamp r.ts_event
      && is_iso_timestamp r.ts_received
      && valid_actor r.v r.actor
      && valid_action r.action
      && if_given (hex_string 64) r.input_hash
      && if_given (hex_string 64) r.output_hash
      && valid_source r.source
      && hex_string 64 r.prev_hash
      && hex_string 16 r.key_id
      && valid_artifacts r.v r.artifacts
      && valid_model r.v r.model
      && schemes_match_digests r r.v

  unfoldable pub valid_signature : Text → Bool
  valid_signature sig = is_signature_text sig && p.is_canonical_base64 sig

  unfoldable pub valid_receipt : Receipt → Bool
  valid_receipt r = valid_unsigned r.unsigned && valid_signature r.sig
