-- ===== src/SignerClient.antt =====
-- apps/server/src/signer/client.ts and errors.ts: the server's half of the protocol. What a request is
-- answered is checked before it is passed on; a reply that is late, or names no request, completes none.
pub mod Pending
pub mod Answers
pub mod Custodian
use sigillo.Common.{
  ℕ, suc, ◌+◌, Bool, true, false, Option, none, some, List, [], ◌∷◌, Result, ok, err, if◌then◌else◌,
}
use sigillo.Crypto.{Bytes, CoreError}
use sigillo.Text.{Text, text_eq}
use sigillo.Base64.{is_signature_text}
use sigillo.Platform.{Platform}
use sigillo.Receipt.{Receipt, UnsignedReceipt}
use sigillo.Receipt.Schema.{valid_receipt}
use sigillo.Checkpoint.{Checkpoint}
use sigillo.Checkpoint.Schema.{valid_checkpoint}
use sigillo.Verifier.Indices.{number_text}
use sigillo.Signer.{
  StateDirectory, SignerKey, RefusalCode, malformed, version, invalid, sequence, clock,
  unknown_system,
}
use sigillo.Signer.Daemon.{
  Method, pubkey, sign, take_checkpoint, get_head, get_receipts, request, Answer, key_answer,
  signature_answer, checkpoint_answer, head_answer, receipts_answer, Reply, refusal_reply, ok_reply,
  handle_line,
}
use sigillo.Store.Service.{SigningService, SigningError, signer_refused, signer_unavailable}

-- `refusalFrom`, and the refusal of a version, which is no refusal of the request.
abbrev pub refusal_from : RefusalCode → SigningError
refusal_from version = signer_unavailable
refusal_from code = signer_refused code

-- `settle`, for the one request that waits: `none` where the reply completes no request.
unfoldable pub settle : Text → Reply → Option (Result SigningError Answer)
settle id (refusal_reply code none) = some (err signer_unavailable)
settle id (refusal_reply code (some other)) =
    if text_eq other id then some (err (refusal_from code)) else none
settle id (ok_reply other answer) = if text_eq other id then some (ok answer) else none

-- A request that nothing completes fails at its deadline.
abbrev pub or_timeout : Option (Result SigningError Answer) → Result SigningError Answer
or_timeout none = err signer_unavailable
or_timeout (some result) = result

-- `signReceipt`: the signature has the shape of one.
abbrev pub take_signature : Result SigningError Answer → Result SigningError Text
take_signature (err e) = err e
take_signature (ok (signature_answer sig hash)) =
    if is_signature_text sig then ok sig else err signer_unavailable
take_signature (ok _) = err signer_unavailable

module _ (p : Platform) where
  -- `checkpoint`, `head` and `receipts`: what arrives is parsed by its schema.
  abbrev pub take_parsed_checkpoint : Result SigningError Answer → Result SigningError Checkpoint
  take_parsed_checkpoint (err e) = err e
  take_parsed_checkpoint (ok (checkpoint_answer c)) =
      if valid_checkpoint p c then ok c else err signer_unavailable
  take_parsed_checkpoint (ok _) = err signer_unavailable

  abbrev pub take_head : Result SigningError Answer → Result SigningError (Option Receipt)
  take_head (err e) = err e
  take_head (ok (head_answer none)) = ok none
  take_head (ok (head_answer (some r))) =
      if valid_receipt p r then ok (some r) else err signer_unavailable
  take_head (ok _) = err signer_unavailable

  unfoldable pub all_valid : List Receipt → Bool
  all_valid [] = true
  all_valid (r ∷ receipts) = if valid_receipt p r then all_valid receipts else false

  abbrev pub take_receipts : Result SigningError Answer → Result SigningError (List Receipt)
  take_receipts (err e) = err e
  take_receipts (ok (receipts_answer receipts)) =
      if all_valid receipts then ok receipts else err signer_unavailable
  take_receipts (ok _) = err signer_unavailable

-- What becomes of a request on the way: it arrives and its reply too, or one of them is lost.
pub data Delivery : Type 0 where
  delivered request_lost reply_lost : Delivery

-- A client, the signer it is connected to, the signer's clock, and what will become of the requests;
-- where nothing is said they are delivered.
pub record Link : Type 0 where
  pub directory : StateDirectory
  pub now : ℕ
  pub last_id : ℕ
  pub deliveries : List Delivery

abbrev pub next_delivery : List Delivery → Delivery
next_delivery [] = delivered
next_delivery (d ∷ deliveries) = d

abbrev pub later_deliveries : List Delivery → List Delivery
later_deliveries [] = []
later_deliveries (d ∷ deliveries) = deliveries

-- An error that stops the signer is a connection closed.
abbrev pub heard :
    Text
    → Delivery
    → StateDirectory
    → Result CoreError Reply × StateDirectory
    → Result SigningError Answer × StateDirectory
heard id request_lost before (result, after) = (err signer_unavailable, before)
heard id reply_lost before (result, after) = (err signer_unavailable, after)
heard id delivered before (err e, after) = (err signer_unavailable, after)
heard id delivered before (ok reply, after) = (or_timeout (settle id reply), after)

module _ (p : Platform) (key : SignerKey) (tolerance : ℕ) where
  -- `request` and `send`, before the signer's `handleLine`.
  unfoldable pub exchange : Method → Link → Result SigningError Answer × Link
  exchange method l =
      let id = number_text (l.last_id + 1) in
      let (result, directory) =
        heard id (next_delivery l.deliveries) l.directory
          (handle_line p key tolerance l.now (request id method) l.directory) in
      (
        result,
        record {
          directory = directory;
          now = l.now;
          last_id = l.last_id + 1;
          deliveries = later_deliveries l.deliveries;
        },
      )

  -- `SignerClient` as the service of the store.
  abbrev pub signer_client : SigningService Link
  signer_client = record {
    key_id = key.key_id;
    public_key = p.public_key key.private_key;
    sign_receipt = λ r l. let (answer, l') = exchange (sign r) l in (take_signature answer, l');
    checkpoint = λ id l.
        let (answer, l') = exchange (take_checkpoint id) l in (take_parsed_checkpoint p answer, l');
    head = λ id l. let (answer, l') = exchange (get_head id) l in (take_head p answer, l');
    receipts = λ id first limit l.
        let (answer, l') = exchange (get_receipts id first limit) l in (take_receipts p answer, l');
  }
