-- ===== src/Store.antt =====
-- apps/server/src/storage/store.ts: the database of receipts. A table is a list of rows, the newest
-- first; a statement that a UNIQUE constraint of schema.ts refuses throws. Writes are handled one at
-- a time (the promise chain of `enqueue`), so an operation is a function of the state.
pub mod Prepare
pub mod Service
pub mod Insert
pub mod Judge
pub mod Reconcile
pub mod Append
pub mod CheckPoint
pub mod Chain
pub mod Agreed
pub mod Keeps
pub mod Recovery
pub mod Judged
pub mod Restore
pub mod Writes
pub mod Runs
pub mod Ordered
pub mod Verified
pub mod Lost
pub mod Resend
pub mod Again
pub mod Covers
pub mod Stored
pub mod Sound
use sigillo.Common.{
  ℕ, suc, ◌+◌, Bool, true, false, ◌&&◌, ◌||◌, Option, none, some, List, [], ◌∷◌, map, ltb, ◌==◌,
  if◌then◌else◌, Result, ok, err,
}
use sigillo.Crypto.{Bytes, CoreError}
use sigillo.Text.{Text, text_eq}
use sigillo.Json.{Json}
use sigillo.Receipt.{
  Actor, Action, Outcome, Source, Artifact, ArtifactRole, Model, HashScheme, Receipt,
}
use sigillo.Checkpoint.{Checkpoint}
use sigillo.Signer.{RefusalCode}

-- `nonce`: 64 hex characters, or the word that says the customer keeps it.
pub record ChainEvent : Type 0 where
  pub system_id : Text
  pub ts_event : Text
  pub ts_received : Text
  pub actor : Actor
  pub action : Action
  pub input_hash : Option Text
  pub output_hash : Option Text
  pub raw_input : Option Json
  pub raw_output : Option Json
  pub input_nonce : Option Text
  pub output_nonce : Option Text
  pub outcome : Outcome
  pub source : Source
  pub artifacts : Option (List Artifact)
  pub model : Option Model

pub record Digest : Type 0 where
  pub hash : Option Text
  pub scheme : Option HashScheme
  pub nonce : Option Text

pub record Prepared : Type 0 where
  pub actor : Actor
  pub input : Digest
  pub output : Digest

-- The columns that follow from the receipt are not repeated; `hash` is the column.
pub record StoredRow : Type 0 where
  pub receipt : Receipt
  pub hash : Text

pub record SystemRow : Type 0 where
  pub system_id : Text
  pub created_at : Text
  pub organization_id : Option Text

pub record ArtifactRow : Type 0 where
  pub system_id : Text
  pub seq : ℕ
  pub artifact : Artifact

pub record OpeningRow : Type 0 where
  pub system_id : Text
  pub seq : ℕ
  pub role : ArtifactRole
  pub nonce : Text

pub record SubjectRow : Type 0 where
  pub token : Text
  pub identifier : Text
  pub created_at : Text

pub data AdminAction : Type 0 where
  system_delete signer_recovered signer_divergence other_action : AdminAction

pub record AdminLogEntry : Type 0 where
  pub ts : Text
  pub action : AdminAction
  pub system_id : Text

pub record KeyRow : Type 0 where
  pub key_id : Text
  pub public_key : Bytes

pub record Database : Type 0 where
  pub receipts : List StoredRow
  pub systems : List SystemRow
  pub organizations : List Text
  pub artifacts : List ArtifactRow
  pub openings : List OpeningRow
  pub subjects : List SubjectRow
  pub checkpoints : List Checkpoint
  pub signing_keys : List KeyRow
  pub admin_log : List AdminLogEntry

-- A `StorageError` or a `ReceiptFormatError` of the store's own, a statement that SQLite refused,
-- the signer's refusal or silence, and an error of core.
pub data StoreError : Type 0 where
  storage_error format_error constraint_error unavailable : StoreError
  refused_by_signer : RefusalCode → StoreError
  core_error : CoreError → StoreError

-- The rows of one system.
abbrev pub chain_of : Text → List StoredRow → List StoredRow
chain_of id [] = []
chain_of id (row ∷ rows) =
    if text_eq row.receipt.system_id id then row ∷ chain_of id rows else chain_of id rows

-- `ORDER BY seq DESC LIMIT 1`
abbrev pub later : StoredRow → Option StoredRow → StoredRow
later row none = row
later row (some other) = if ltb row.receipt.seq other.receipt.seq then other else row

unfoldable pub highest : List StoredRow → Option StoredRow
highest [] = none
highest (row ∷ rows) = some (later row (highest rows))

-- `ORDER BY seq`
abbrev pub insert_by_seq : StoredRow → List StoredRow → List StoredRow
insert_by_seq new [] = new ∷ []
insert_by_seq new (row ∷ rows) =
    if ltb new.receipt.seq row.receipt.seq then new ∷ row ∷ rows else row ∷ insert_by_seq new rows

abbrev pub in_order : List StoredRow → List StoredRow
in_order [] = []
in_order (row ∷ rows) = insert_by_seq row (in_order rows)

unfoldable pub tip_of : Text → Database → Option StoredRow
tip_of id db = highest (chain_of id db.receipts)

abbrev pub same_text : Option Text → Text → Bool
same_text none text = false
same_text (some other) text = text_eq other text

abbrev pub names_span : Text → Text → Text → StoredRow → Bool
names_span id trace span row =
    text_eq row.receipt.system_id id
    && same_text row.receipt.source.trace_id trace
    && same_text row.receipt.source.span_id span

-- `duplicateStatement`
unfoldable pub find_span : Text → Text → Text → List StoredRow → Option StoredRow
find_span id trace span [] = none
find_span id trace span (row ∷ rows) =
    if names_span id trace span row then some row else find_span id trace span rows

-- `readChain`, whose rows were parsed when they were written, and `readReceiptHashes`.
abbrev pub row_receipt : StoredRow → Receipt
row_receipt row = row.receipt

abbrev pub row_hash : StoredRow → Text
row_hash row = row.hash

unfoldable pub read_chain : Text → Database → List Receipt
read_chain id db = map row_receipt (in_order (chain_of id db.receipts))

unfoldable pub read_receipt_hashes : Text → Database → List Text
read_receipt_hashes id db = map row_hash (in_order (chain_of id db.receipts))

-- `deletionOf`, as whether there is one.
unfoldable pub is_deleted : Text → List AdminLogEntry → Bool
is_deleted id [] = false
is_deleted id (entry ∷ entries) = elim entry.action [
  | system_delete ↦ text_eq entry.system_id id || is_deleted id entries
  | signer_recovered ↦ is_deleted id entries
  | signer_divergence ↦ is_deleted id entries
  | other_action ↦ is_deleted id entries
]

-- `publicKeyFor`
unfoldable pub public_key_for : Text → List KeyRow → Option Bytes
public_key_for key_id [] = none
public_key_for key_id (row ∷ rows) =
    if text_eq row.key_id key_id then some row.public_key else public_key_for key_id rows

unfoldable pub find_subject : Text → List SubjectRow → Option SubjectRow
find_subject identifier [] = none
find_subject identifier (row ∷ rows) =
    if text_eq row.identifier identifier then some row else find_subject identifier rows

-- `logAdmin`, without the actor and the details.
abbrev pub log_admin : Text → AdminAction → Text → Database → Database
log_admin ts action id db = record db {
  admin_log = record { ts = ts; action = action; system_id = id } ∷ db.admin_log;
}
