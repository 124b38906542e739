-- ===== src/Receipt.antt =====
-- packages/core/src/receipt.ts: the fields of a receipt of any version, and its JSON form, which is
-- what its hash is taken over. A member that a version does not have is `none`.
pub mod Schema
use sigillo.Common.{ℕ, Option, none, some, List, [], ◌∷◌}
use sigillo.Text.{Text, codes}
use sigillo.Json.{Json, null, number, str, arr, obj, whole, Items, nil, cons, Members, end, member}

pub data Version : Type 0 where
  v1 v2 v3 v4 : Version

pub data ActionKind : Type 0 where
  tool_call llm_call agent_step decision genesis : ActionKind

pub data Outcome : Type 0 where
  ok error blocked unknown : Outcome

pub data SourceType : Type 0 where
  otlp sdk api : SourceType

pub data HashScheme : Type 0 where
  plain salted : HashScheme

pub data ArtifactRole : Type 0 where
  input output : ArtifactRole

pub record Actor : Type 0 where
  pub agent : Text
  pub on_behalf_of : Option Text

pub record Action : Type 0 where
  pub kind : ActionKind
  pub name : Text

pub record Source : Type 0 where
  pub type : SourceType
  pub trace_id : Option Text
  pub span_id : Option Text

pub record ArtifactText : Type 0 where
  pub canon : Text
  pub sha256 : Text

pub record Artifact : Type 0 where
  pub role : ArtifactRole
  pub label : Text
  pub media_type : Text
  pub sha256 : Text
  pub text : Option ArtifactText

pub record Model : Type 0 where
  pub name : Text
  pub provider : Option Text
  pub digest : Option Text

pub record UnsignedReceipt : Type 0 where
  pub v : Version
  pub system_id : Text
  pub seq : ℕ
  pub ts_event : Text
  pub ts_received : Text
  pub actor : Actor
  pub action : Action
  pub input_hash : Option Text
  pub output_hash : Option Text
  pub input_hash_scheme : Option HashScheme
  pub output_hash_scheme : Option HashScheme
  pub outcome : Outcome
  pub source : Source
  pub prev_hash : Text
  pub key_id : Text
  pub artifacts : Option (List Artifact)
  pub model : Option Model

pub record Receipt : Type 0 where
  pub unsigned : UnsignedReceipt
  pub open unsigned use *
  pub sig : Text

abbrev pub version_number : Version → ℕ
version_number v1 = 1
version_number v2 = 2
version_number v3 = 3
version_number v4 = 4

abbrev pub kind_text : ActionKind → Text
kind_text tool_call = codes "tool_call"
kind_text llm_call = codes "llm_call"
kind_text agent_step = codes "agent_step"
kind_text decision = codes "decision"
kind_text genesis = codes "genesis"

abbrev pub outcome_text : Outcome → Text
outcome_text ok = codes "ok"
outcome_text error = codes "error"
outcome_text blocked = codes "blocked"
outcome_text unknown = codes "unknown"

abbrev pub source_text : SourceType → Text
source_text otlp = codes "otlp"
source_text sdk = codes "sdk"
source_text api = codes "api"

abbrev pub scheme_text : HashScheme → Text
scheme_text plain = codes "plain"
scheme_text salted = codes "salted"

abbrev pub role_text : ArtifactRole → Text
role_text input = codes "input"
role_text output = codes "output"

-- A nullable member, and one that is left out when it is absent.
abbrev nullable : Option Text → Json
nullable none = null
nullable (some text) = str text

abbrev optional : Text → Option Text → Members → Members
optional name none more = more
optional name (some text) more = member name (str text) more

abbrev nullable_scheme : Option HashScheme → Json
nullable_scheme none = null
nullable_scheme (some scheme) = str (scheme_text scheme)

abbrev artifact_text_member : Option ArtifactText → Members
artifact_text_member none = end
artifact_text_member (some text) =
    member (codes "text")
      (obj
        (member (codes "canon") (str text.canon) (member (codes "sha256") (str text.sha256) end)))
      end

abbrev artifact_json : Artifact → Json
artifact_json a = obj (
    member (codes "role") (str (role_text a.role)) (
      member (codes "label") (str a.label) (
        member (codes "media_type") (str a.media_type)
          (member (codes "sha256") (str a.sha256) (artifact_text_member a.text)))))

abbrev artifact_items : List Artifact → Items
artifact_items [] = nil
artifact_items (a ∷ artifacts) = cons (artifact_json a) (artifact_items artifacts)

abbrev model_member : Option Model → Members
model_member none = end
model_member (some m) =
    member (codes "model")
      (obj (
        member (codes "name") (str m.name) (
          member (codes "provider") (nullable m.provider)
            (member (codes "digest") (nullable m.digest) end))))
      end

abbrev artifacts_member : Option (List Artifact) → Members → Members
artifacts_member none more = more
artifacts_member (some artifacts) more =
    member (codes "artifacts") (arr (artifact_items artifacts)) more

-- Only version 4 has the two scheme members.
abbrev scheme_members : UnsignedReceipt → Version → Members → Members
scheme_members r v4 more =
    member (codes "input_hash_scheme") (nullable_scheme r.input_hash_scheme)
      (member (codes "output_hash_scheme") (nullable_scheme r.output_hash_scheme) more)
scheme_members r _ more = more

-- The members that the hash covers: all of them but `sig`.
unfoldable pub receipt_members : UnsignedReceipt → Members
receipt_members r = member (codes "v") (number (whole (version_number r.v))) (
    member (codes "system_id") (str r.system_id) (
      member (codes "seq") (number (whole r.seq)) (
        member (codes "ts_event") (str r.ts_event) (
          member (codes "ts_received") (str r.ts_received) (
            member (codes "actor")
              (obj (
                member (codes "agent") (str r.actor.agent)
                  (optional (codes "on_behalf_of") r.actor.on_behalf_of end)))
              (member (codes "action")
                (obj (
                  member (codes "kind") (str (kind_text r.action.kind))
                    (member (codes "name") (str r.action.name) end)))
                (member (codes "input_hash") (nullable r.input_hash) (
                  member (codes "output_hash") (nullable r.output_hash) (
                    member (codes "outcome") (str (outcome_text r.outcome)) (
                      member (codes "source")
                        (obj (
                          member (codes "type") (str (source_text r.source.type)) (
                            optional (codes "trace_id") r.source.trace_id
                              (optional (codes "span_id") r.source.span_id end))))
                        (member (codes "prev_hash") (str r.prev_hash) (
                          member (codes "key_id") (str r.key_id) (
                            scheme_members r r.v
                              (artifacts_member r.artifacts (model_member r.model)))))))))))))))

unfoldable pub receipt_json : UnsignedReceipt → Json
unfolding receipt_members
receipt_json r = obj (receipt_members r)
