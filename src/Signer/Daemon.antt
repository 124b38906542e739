-- ===== src/Signer/Daemon.antt =====
-- apps/signer/src/daemon.ts: `handleLine`, and the loop of `serve` over the lines of a connection. A
-- line stands as what JSON.parse, the test of its members and the schema made of it.
use sigillo.Common.{
  ℕ, ◌≡◌, refl, Option, none, some, List, [], ◌∷◌, length, Result, ok, err, arith, ◌≤◌, ◌⊎◌,
  Bool-cases, ◌*◌, ◌++◌, true, false, ltb, All, Option-cases, inl, inr,
}
use sigillo.Crypto.{CoreError}
use sigillo.Text.{Text}
use sigillo.Receipt.{Receipt, UnsignedReceipt}
use sigillo.Platform.{Platform}
use sigillo.Checkpoint.{Checkpoint}
use sigillo.Signer.{
  StateDirectory, SignerKey, SignerError, refusal, fault, RefusalCode, malformed, version,
  unknown_system, sign_receipt, checkpoint,
}
use sigillo.Signer.Log.{log_of}
use sigillo.Signer.Invariant.{Reach, signed, refused, Reach-IsSound, sign_receipt-Answer}
use sigillo.Signer.Chain.{CheckpointAnswer, checkpoint-Reach}
use sigillo.Signer.Journal.{receipts, head}
use sigillo.Signer.Recovery.{ReceiptsAnswer, receipts-Reach}

pub data Method : Type 0 where
  pubkey : Method
  sign : UnsignedReceipt → Method
  take_checkpoint get_head : (system_id : Text) → Method
  get_receipts : (system_id : Text) (from_seq limit : ℕ) → Method

pub data RequestLine : Type 0 where
  not_object no_id : RequestLine
  other_version invalid_request : (id : Text) → RequestLine
  request : (id : Text) → Method → RequestLine

abbrev pub max_line_bytes : ℕ
max_line_bytes = 256 * 1024

-- A line up to its line break, or what arrived without one: its bytes, the time at which it is handled,
-- and what is in it, if it is not blank.
pub record ArrivedLine : Type 0 where
  pub size : ℕ
  pub now : ℕ
  pub content : Option RequestLine

abbrev pub and_spoken : Option RequestLine → List RequestLine → List RequestLine
and_spoken none lines = lines
and_spoken (some content) lines = content ∷ lines

-- The lines that are not blank.
abbrev pub spoken : List ArrivedLine → List RequestLine
spoken [] = []
spoken (line ∷ lines) = and_spoken line.content (spoken lines)

pub data Answer : Type 0 where
  key_answer : (key_id : Text) → Answer
  signature_answer : (sig hash : Text) → Answer
  checkpoint_answer : Checkpoint → Answer
  head_answer : Option Receipt → Answer
  receipts_answer : List Receipt → Answer

pub data Reply : Type 0 where
  refusal_reply : RefusalCode → Option Text → Reply
  ok_reply : (id : Text) → Answer → Reply

-- A refusal is answered; any other error is thrown.
abbrev pub reply {ℓ} :
    {A : Type ℓ} → Text → (A → Answer) → Result SignerError A → Result CoreError Reply
reply id answer (ok value) = ok (ok_reply id (answer value))
reply id answer (err (refusal code)) = ok (refusal_reply code (some id))
reply id answer (err (fault e)) = err e

abbrev pub signed_reply :
    Text
    → Result SignerError (Text × Text) × StateDirectory
    → Result CoreError Reply × StateDirectory
signed_reply id (result, s) =
    (reply id (λ (pair : Text × Text). signature_answer pair.0 pair.1) result, s)

module _ (p : Platform) (key : SignerKey) (tolerance : ℕ) where
  unfoldable pub handle_line :
      ℕ → RequestLine → StateDirectory → Result CoreError Reply × StateDirectory
  handle_line now not_object s = (ok (refusal_reply malformed none), s)
  handle_line now no_id s = (ok (refusal_reply malformed none), s)
  handle_line now (other_version id) s = (ok (refusal_reply version (some id)), s)
  handle_line now (invalid_request id) s = (ok (refusal_reply malformed (some id)), s)
  handle_line now (request id pubkey) s = (ok (ok_reply id (key_answer key.key_id)), s)
  handle_line now (request id (sign r)) s = signed_reply id (sign_receipt p key tolerance now r s)
  handle_line now (request id (take_checkpoint system_id)) s =
      (reply id checkpoint_answer (checkpoint p key tolerance now system_id s), s)
  handle_line now (request id (get_head system_id)) s =
      (ok (ok_reply id (head_answer (head system_id s))), s)
  handle_line now (request id (get_receipts system_id from_seq limit)) s =
      (reply id receipts_answer (receipts system_id from_seq limit s), s)

  -- The lines of a connection in the order they arrive: the replies sent, and whether an error has
  -- stopped the daemon. A line over the limit is refused, and ends the connection.
  unfoldable pub serve_lines :
      List ArrivedLine → StateDirectory → List Reply × Option CoreError × StateDirectory
  serve_lines [] s = ([], none, s)
  serve_lines (line ∷ lines) s = elim (ltb max_line_bytes line.size) [
    | true ↦ (refusal_reply malformed none ∷ [], none, s)
    | false ↦ elim line.content [
      | none ↦ serve_lines lines s
      | some content ↦
          let (result, s') = handle_line line.now content s in
          let (replies, stopped, s'') = serve_lines lines s' in
          elim result [ err e ↦ ([], some e, s') | ok r ↦ (r ∷ replies, stopped, s'') ]
    ]
  ]

  -- A line is answered, and the state it leaves is one that the signer can be in.
  Handled : Result CoreError Reply × StateDirectory → Type 0
  Handled (result, s) =
      (r : Reply) × (log : List Receipt) × (result ≡ ok r) × Reach p key tolerance s log

  checkpoint-reply :
      (id : Text) (mine : List Receipt) (result : Result SignerError Checkpoint)
      → CheckpointAnswer p key tolerance mine result
      → (r : Reply) × (reply id checkpoint_answer result ≡ ok r)
  checkpoint-reply id mine (ok cp) h = (ok_reply id (checkpoint_answer cp), refl)
  checkpoint-reply id mine (err e) h = rw (h.0) (refusal_reply unknown_system (some id), refl)

  receipts-reply :
      (id : Text) (mine : List Receipt) (from_seq limit : ℕ)
      (result : Result SignerError (List Receipt))
      → ReceiptsAnswer p key tolerance mine from_seq limit result
      → (r : Reply) × (reply id receipts_answer result ≡ ok r)
  receipts-reply id mine from_seq limit (ok found) h = (ok_reply id (receipts_answer found), refl)
  receipts-reply id mine from_seq limit (err e) h =
      rw (h.0) (refusal_reply unknown_system (some id), refl)

  sign-Handled :
      (now : ℕ) (r : UnsignedReceipt) (s : StateDirectory) {s' : StateDirectory}
      {log : List Receipt} (id : Text) (result : Result SignerError (Text × Text))
      → Reach p key tolerance s log
      → sign_receipt p key tolerance now r s ≡ (result, s')
      → Handled (signed_reply id (result, s'))
  unfolding Handled
  sign-Handled now r s {log = log} id (ok (sig, hash)) reach e = (
    ok_reply id (signature_answer sig hash),
    record { unsigned = r; sig = sig } ∷ log,
    refl,
    signed now r sig hash reach e,
  )
  sign-Handled now r s {log = log} id (err (refusal code)) reach e =
      (refusal_reply code (some id), log, refl, refused now r (refusal code) reach e)
  sign-Handled now r s {log = log} id (err (fault f)) reach e = absurd (
      rw e at
        (sign_receipt-Answer p key tolerance now r s log (Reach-IsSound p key tolerance reach)))

  handle_line-Handled :
      (now : ℕ) (line : RequestLine) (s : StateDirectory) (log : List Receipt)
      → Reach p key tolerance s log
      → Handled (handle_line now line s)
  unfolding Handled handle_line
  handle_line-Handled now not_object s log reach = (refusal_reply malformed none, log, refl, reach)
  handle_line-Handled now no_id s log reach = (refusal_reply malformed none, log, refl, reach)
  handle_line-Handled now (other_version id) s log reach =
      (refusal_reply version (some id), log, refl, reach)
  handle_line-Handled now (invalid_request id) s log reach =
      (refusal_reply malformed (some id), log, refl, reach)
  handle_line-Handled now (request id pubkey) s log reach =
      (ok_reply id (key_answer key.key_id), log, refl, reach)
  handle_line-Handled now (request id (sign r)) s log reach =
      sign-Handled now r s id (sign_receipt p key tolerance now r s).0 reach refl
  handle_line-Handled now (request id (take_checkpoint system_id)) s log reach =
      let (r, answered) =
        checkpoint-reply id (log_of system_id log) (checkpoint p key tolerance now system_id s)
          (checkpoint-Reach p key tolerance now system_id reach) in
      (r, log, answered, reach)
  handle_line-Handled now (request id (get_head system_id)) s log reach =
      (ok_reply id (head_answer (head system_id s)), log, refl, reach)
  handle_line-Handled now (request id (get_receipts system_id from_seq limit)) s log reach =
      let (r, answered) =
        receipts-reply id (log_of system_id log) from_seq limit
          (receipts system_id from_seq limit s)
          (receipts-Reach p key tolerance system_id from_seq limit reach) in
      (r, log, answered, reach)

  abbrev pub IsWithin : ArrivedLine → Type 0
  IsWithin line = line.size ≤ max_line_bytes

  -- Lines within the limit that leave the daemon running, and what one more over the limit does.
  abbrev pub IsServed : List ArrivedLine → StateDirectory → Type 0
  IsServed lines s =
      ((serve_lines lines s).1 ≡ none)
      × (length (serve_lines lines s).0 ≡ length (spoken lines))
      × ((log' : List Receipt) × Reach p key tolerance (serve_lines lines s).2 log')
      × ((long : ArrivedLine) (after : List ArrivedLine)
          → IsWithin long
            ⊎ (serve_lines (lines ++ long ∷ after) s ≡ (
              (serve_lines lines s).0 ++ refusal_reply malformed none ∷ [],
              none,
              (serve_lines lines s).2,
            )))

  -- Whatever lines arrive, as long as none is over the limit: no error of the signer stops the daemon,
  -- it sends one reply for each line that is not blank, and it ends in a state that the signer can be
  -- in. A line over the limit then gets one refusal, no line after it gets any reply, and the state
  -- stays as it was.
  pub serve_lines-Reach :
      (lines : List ArrivedLine) (s : StateDirectory) {log : List Receipt}
      → Reach p key tolerance s log
      → All IsWithin lines
      → IsServed lines s
  unfolding serve_lines Handled
  serve_lines-Reach [] s {log} reach short = (
    refl,
    refl,
    (log, reach),
    λ long after. elim (Bool-cases (ltb max_line_bytes long.size)) [
      | inl over ↦ inr (rw (serve_lines, over) refl)
      | inr fits ↦ inl (ground (arith, fits))
    ],
  )
  serve_lines-Reach (line ∷ lines) s {log} reach short =
      let within : ltb max_line_bytes line.size ≡ false = ground (arith, short.0) in
      elim (Option-cases line.content) [
        | inl blank ↦ rw (serve_lines, within, blank) (serve_lines-Reach lines s reach short.1)
        | inr (content, there) ↦
            let (r, log', answered, reach') = handle_line-Handled line.now content s log reach in
            let (running, sized, reached, longer) =
              serve_lines-Reach lines (handle_line line.now content s).1 reach' short.1 in
            (
              rw (serve_lines, within, there, answered) running,
              rw (serve_lines, within, there, answered) (omega (arith, sized)),
              rw (serve_lines, within, there, answered) reached,
              λ long after. elim (longer long after) [
                | inl fits ↦ inl fits
                | inr same ↦ inr (rw (serve_lines, within, there, answered, same) refl)
              ],
            )
      ]
