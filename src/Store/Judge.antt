-- ===== src/Store/Judge.antt =====
-- store.ts, `reconcileNow`: what the signer returned, judged against the database. Nothing is written.
use sigillo.Common.{
  ℕ, ◌+◌, Bool, true, false, not, ◌&&◌, ◌||◌, Option, none, some, List, [], ◌∷◌, ◌++◌, ltb, ◌==◌,
  if◌then◌else◌,
}
use sigillo.Crypto.{Bytes}
use sigillo.Text.{Text, codes, text_eq}
use sigillo.Platform.{Platform}
use sigillo.Signing.{verify_receipt_signature}
use sigillo.Receipt.{Receipt}
use sigillo.Signer.{genesis_prev_hash}
use sigillo.Verifier.Indices.{number_text}
use sigillo.Store.{StoredRow, Database, find_span, is_deleted, public_key_for, KeyRow}
use sigillo.Store.Insert.{hash_hex}
use sigillo.Store.Service.{SigningService}

-- The number after the tip: `tipSeq + 1`.
abbrev pub next_seq : Option StoredRow → ℕ
next_seq none = 0
next_seq (some tip) = tip.receipt.seq + 1

abbrev pub next_prev : Option StoredRow → Text
next_prev none = genesis_prev_hash
next_prev (some tip) = tip.hash

-- What the messages say.
abbrev here : Option StoredRow → Text
here none = codes "this database holds no chain for it"
here (some tip) =
    codes "this database is at seq "
    ++ number_text tip.receipt.seq
    ++ codes " ("
    ++ tip.hash
    ++ codes ")"

abbrev there : ℕ → Text → Text
there seq hash = codes "the signer is at seq " ++ number_text seq ++ codes " (" ++ hash ++ codes ")"

abbrev pub given : Option Text → Text
given none = []
given (some text) = text

-- What is to be done.
pub data Verdict : Type 0 where
  nothing : Verdict
  apart : Text → Verdict
  take_back : List Receipt → Verdict

-- The loop over the missing receipts: what it has taken, with the hash of the last, or where it broke.
pub data Taken : Type 0 where
  broken : ℕ → Taken
  taken : List Receipt → Text → Taken

abbrev pub last_seq : Option ℕ → List Receipt → Option ℕ
last_seq before [] = before
last_seq before (r ∷ receipts) = last_seq (some r.seq) receipts

-- `last?.seq ?? tipSeq`, where no tip is -1.
abbrev pub reached : Option ℕ → Option StoredRow → Text
reached (some seq) tip = number_text seq
reached none (some tip) = number_text tip.receipt.seq
reached none none = codes "-1"

abbrev pub prepend : Receipt → Taken → Taken
prepend r (broken seq) = broken seq
prepend r (taken receipts previous) = taken (r ∷ receipts) previous

abbrev pub is_number : Option ℕ → ℕ → Bool
is_number none n = false
is_number (some m) n = m == n

-- A span of one of the receipts that is on the chain.
abbrev on_chain : Text → Option Text → Option Text → Database → Bool
on_chain id (some trace) (some span) db = elim (find_span id trace span db.receipts) [
  | none ↦ false
  | some _ ↦ true
]
on_chain id _ _ db = false

unfoldable pub span_taken : Text → List Receipt → Database → Option Receipt
span_taken id [] db = none
span_taken id (r ∷ receipts) db =
    if on_chain id r.source.trace_id r.source.span_id db then some r else span_taken id receipts db

abbrev pub or_own : Option Bytes → Text → Text → Bytes → Option Bytes
or_own (some raw) key_id own_id own = some raw
or_own none key_id own_id own = if text_eq key_id own_id then some own else none

-- `keyFor`
abbrev pub key_for : Text → Bytes → List KeyRow → Receipt → Option Bytes
key_for own_id own keys r = or_own (public_key_for r.key_id keys) r.key_id own_id own

module _ (p : Platform) where
  abbrev pub signed_under : Receipt → Option Bytes → Bool
  signed_under r none = false
  signed_under r (some raw) = verify_receipt_signature p r raw

  -- The receipt is the next of the chain, under a known key.
  abbrev pub continues : Text → ℕ → Text → Option Bytes → Receipt → Bool
  continues id seq previous raw r =
      text_eq r.system_id id && r.seq == seq && text_eq r.prev_hash previous && signed_under r raw

  module _ (own_id : Text) (own : Bytes) (keys : List KeyRow) where
    unfoldable pub take_missing : Text → ℕ → Text → ℕ → List Receipt → Taken
    take_missing id seq previous head_seq [] = taken [] previous
    take_missing id seq previous head_seq (r ∷ missing) =
        let rest = take_missing id (seq + 1) (hash_hex p r) head_seq missing in
        if continues id seq previous (key_for own_id own keys r) r
        then (if seq == head_seq then taken (r ∷ []) (hash_hex p r) else prepend r rest)
        else broken seq

  abbrev pub judge_spans :
      Text → Receipt → Option StoredRow → List Receipt → Option Receipt → Verdict
  judge_spans id head tip receipts none = take_back receipts
  judge_spans id head tip receipts (some r) = apart (
      there head.seq (hash_hex p head)
      ++ codes ", and the span "
      ++ given r.source.trace_id
      ++ codes "/"
      ++ given r.source.span_id
      ++ codes " of seq "
      ++ number_text r.seq
      ++ codes " is already on the chain at another position")

  -- What was taken reaches the head, and the system is not a deleted one.
  unfoldable pub judge_taken : Text → Receipt → Option StoredRow → Database → Taken → Verdict
  judge_taken id head tip db (broken seq) = apart (
      there head.seq (hash_hex p head)
      ++ codes ", and "
      ++ here tip
      ++ codes "; the signer's receipt for seq "
      ++ number_text seq
      ++ codes " does not continue this chain")
  judge_taken id head tip db (taken receipts previous) =
      if not (is_number (last_seq none receipts) head.seq)
        || not (text_eq previous (hash_hex p head))
      then apart (
          there head.seq (hash_hex p head)
          ++ codes ", and "
          ++ here tip
          ++ codes "; the signer's journal does not hold every receipt in between (it reaches seq "
          ++ reached (last_seq none receipts) tip
          ++ codes ")")
      else if is_deleted id db.admin_log
      then apart (
          there head.seq (hash_hex p head)
          ++ codes ", but "
          ++ id
          ++ codes " was deleted here, so its receipts are not restored")
      else judge_spans id head tip receipts (span_taken id receipts db)

  abbrev pub same_tip : Option StoredRow → Receipt → Bool
  same_tip none head = false
  same_tip (some tip) head = tip.receipt.seq == head.seq && text_eq (hash_hex p head) tip.hash

  abbrev pub missing_of : Receipt → ℕ → Option (List Receipt) → List Receipt
  missing_of head first_missing none = if head.seq == first_missing then head ∷ [] else []
  missing_of head first_missing (some journal) =
      if head.seq == first_missing then head ∷ [] else journal

  module _ {σ : Type 0} (svc : SigningService σ) where
    unfoldable pub judge_head :
        Text → Receipt → Option StoredRow → ℕ → Option (List Receipt) → Database → Verdict
    judge_head id head tip first_missing journal db =
        if not (text_eq head.system_id id)
          || not (signed_under head (key_for svc.key_id svc.public_key db.signing_keys head))
        then apart (
            codes "the head the signer returned for "
            ++ id
            ++ codes " is not a receipt of it under a known key")
        else if same_tip tip head
        then nothing
        else if ltb head.seq (next_seq tip) || not (next_seq tip == first_missing)
        then apart (there head.seq (hash_hex p head) ++ codes ", and " ++ here tip)
        else judge_taken id head tip db (
            take_missing svc.key_id svc.public_key db.signing_keys id first_missing (next_prev tip)
              head.seq (missing_of head first_missing journal))

    unfoldable pub judge :
        Text → Option Receipt → Option StoredRow → ℕ → Option (List Receipt) → Database → Verdict
    judge id none none first_missing journal db = nothing
    judge id none (some tip) first_missing journal db = apart (
        codes "the signer has signed nothing for "
        ++ id
        ++ codes ", and "
        ++ here (some tip)
        ++ codes
            ": if this installation predates the signer's own state, run `sigillo-signer init-from-db` once")
    judge id (some head) tip first_missing journal db =
        judge_head id head tip first_missing journal db
