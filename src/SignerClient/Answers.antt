-- ===== src/SignerClient/Answers.antt =====
-- What the client answers the store is what the signer has in its log, whatever is lost on the way and
-- however the signer crashes.
use mathlib.Core.List.{Memᴰ}
use sigillo.Common.{
  ℕ, ◌+◌, ◌≡◌, refl, Option, none, some, List, [], ◌∷◌, ◌++◌, reverse, drop, Result, ok, err, All,
  All-weaken, All-take, All-drop, All-reverse, Bool-cases, inl, inr,
}
use sigillo.Crypto.{CoreError}
use sigillo.Text.{Text, text_eq_refl}
use sigillo.Base64.{is_signature_text}
use sigillo.Platform.{Platform}
use sigillo.Receipt.{Receipt, UnsignedReceipt}
use sigillo.Receipt.Schema.{valid_receipt}
use sigillo.Signer.{
  StateDirectory, SystemState, chain, retired, ChainState, SignerKey, SignerError, refusal, fault,
  torn, admit, record_receipt, get_system, sign_receipt,
}
use sigillo.Signer.Log.{log_of}
use sigillo.Signer.Invariant.{Reach, signed, refused, torn_line, not_put, Tracks}
use sigillo.Signer.Journal.{head}
use sigillo.Signer.Recovery.{ReceiptsAnswer}
use sigillo.Signer.Daemon.{signed_reply, Reply, reply, receipts_answer, head_answer, ok_reply}
use sigillo.Custody.{IsIn, IsHead, log_of-older, Signed, Headed, Listed}
use sigillo.SignerClient.{
  Delivery, delivered, request_lost, reply_lost, Link, settle, heard, later_deliveries,
  take_signature, take_head, take_receipts, all_valid,
}

-- A list of its own members, in part or the other way round.
All-own : (log : List Receipt) → All (IsIn log) log
All-own [] = tt
All-own (r ∷ log) =
    (Memᴰ.head refl, All-weaken (IsIn log) (IsIn (r ∷ log)) log (λ q m. Memᴰ.tail m) (All-own log))

module _ (p : Platform) (key : SignerKey) (tolerance : ℕ) where
  pub data Moves (l : Link) : Link → Type 0 where
    elapsed : (now : ℕ) → Moves l (record l { now = now })
    routed : (deliveries : List Delivery) → Moves l (record l { deliveries = deliveries })
    torn_write :
        Moves l (record l {
          directory = record l.directory { journal = l.directory.journal ++ torn ∷ [] };
        })
    lost_put :
        (r : UnsignedReceipt) (sig : Text) {known : Option ChainState}
        → admit p key tolerance l.now r l.directory ≡ ok known
        → Moves l (record l {
          directory = record_receipt (record { unsigned = r; sig = sig }) l.directory;
        })

  abbrev pub Logged : Link → List Receipt → Type 0
  Logged l log = Reach p key tolerance l.directory log

  pub Moves-Logged : {l l' : Link} {log : List Receipt} → Moves l l' → Logged l log → Logged l' log
  Moves-Logged (elapsed now) reach = reach
  Moves-Logged (routed deliveries) reach = reach
  Moves-Logged torn_write reach = torn_line reach
  Moves-Logged {l} (lost_put r sig e) reach = not_put l.now r sig reach e

  -- A directory put back into the client's state.
  abbrev linked : Link → StateDirectory → Link
  linked l directory = record {
    directory = directory;
    now = l.now;
    last_id = l.last_id + 1;
    deliveries = later_deliveries l.deliveries;
  }

  pub sign-Signed :
      (id : Text) (d : Delivery) (l : Link) (r : UnsignedReceipt) (log : List Receipt)
      (result : Result SignerError (Text × Text)) {after : StateDirectory}
      → Logged l log
      → sign_receipt p key tolerance l.now r l.directory ≡ (result, after)
      → Signed Logged log r (
          let (answer, directory) = heard id d l.directory (signed_reply id (result, after)) in
          (take_signature answer, linked l directory))
  unfolding settle
  sign-Signed id request_lost l r log result reach e = ([], reach)
  sign-Signed id reply_lost l r log (ok (sig, hash)) reach e =
      (record { unsigned = r; sig = sig } ∷ [], signed l.now r sig hash reach e)
  sign-Signed id reply_lost l r log (err f) reach e = ([], refused l.now r f reach e)
  sign-Signed id delivered l r log (ok (sig, hash)) reach e =
      elim (Bool-cases (is_signature_text sig)) [
        | inl shaped ↦ rw (text_eq_refl id, shaped) (signed l.now r sig hash reach e)
        | inr other ↦
            rw (text_eq_refl id, other)
              (record { unsigned = r; sig = sig } ∷ [], signed l.now r sig hash reach e)
      ]
  sign-Signed id delivered l r log (err (refusal code)) reach e =
      rw (text_eq_refl id) ([], refused l.now r (refusal code) reach e)
  sign-Signed id delivered l r log (err (fault f)) reach e = ([], refused l.now r (fault f) reach e)

  -- A request that changes nothing leaves the directory, whatever becomes of it.
  pub heard-directory :
      (id : Text) (d : Delivery) (s : StateDirectory) (result : Result CoreError Reply)
      → (heard id d s (result, s)).1 ≡ s
  heard-directory id request_lost s result = refl
  heard-directory id reply_lost s result = refl
  heard-directory id delivered s (ok r) = refl
  heard-directory id delivered s (err e) = refl

  pub head-IsHead :
      (id : Text) (s : StateDirectory) (log : List Receipt) (found : Option SystemState)
      → get_system id s.systems ≡ found
      → Tracks p key tolerance found (log_of id log)
      → IsHead id log (head id s)
  unfolding head
  head-IsHead id s log none e t = rw (head, e) t
  head-IsHead id s log (some (retired _ _)) e t = rw (head, e) t
  head-IsHead id s log (some (chain c)) e t = rw (head, e) (t.older, t.newest)

  pub head-Headed :
      (id system_id : Text) (d : Delivery) (l : Link) (log : List Receipt) (found : Option Receipt)
      → Logged l log
      → IsHead system_id log found
      → Headed Logged system_id log (
          let (answer, directory) =
            heard id d l.directory (ok (ok_reply id (head_answer found)), l.directory) in
          (take_head p answer, linked l directory))
  unfolding settle
  head-Headed id system_id request_lost l log found reach there = reach
  head-Headed id system_id reply_lost l log found reach there = reach
  head-Headed id system_id delivered l log none reach there = rw (text_eq_refl id) (there, reach)
  head-Headed id system_id delivered l log (some r) reach there =
      elim (Bool-cases (valid_receipt p r)) [
        | inl valid ↦ rw (text_eq_refl id, valid) (there, reach)
        | inr other ↦ rw (text_eq_refl id, other) reach
      ]

  pub receipts-Listed :
      (id : Text) (d : Delivery) (l : Link) (log : List Receipt)
      (result : Result SignerError (List Receipt))
      → Logged l log
      → ((found : List Receipt) → result ≡ ok found → All (IsIn log) found)
      → Listed Logged log (
          let (answer, directory) =
            heard id d l.directory (reply id receipts_answer result, l.directory) in
          (take_receipts p answer, linked l directory))
  unfolding settle
  receipts-Listed id request_lost l log result reach there = reach
  receipts-Listed id reply_lost l log result reach there = reach
  receipts-Listed id delivered l log (ok found) reach there =
      elim (Bool-cases (all_valid p found)) [
        | inl valid ↦ rw (text_eq_refl id, valid) (there found refl, reach)
        | inr other ↦ rw (text_eq_refl id, other) reach
      ]
  receipts-Listed id delivered l log (err (refusal code)) reach there = rw (text_eq_refl id) reach
  receipts-Listed id delivered l log (err (fault f)) reach there = reach

  pub receipts-All :
      (id : Text) (first limit : ℕ) (log : List Receipt)
      (result : Result SignerError (List Receipt)) {found : List Receipt}
      → ReceiptsAnswer p key tolerance (log_of id log) first limit result
      → result ≡ ok found
      → All (IsIn log) found
  receipts-All id first limit log (err e) answered h = cc
  receipts-All id first limit log (ok part) {found} answered h =
      let same : part ≡ found = cc in
      let mine =
        All-weaken (IsIn (log_of id log)) (IsIn log) (log_of id log) (log_of-older id log)
          (All-own (log_of id log)) in
      rw (← same, answered)
        (All-take (IsIn log) limit (drop first (reverse (log_of id log))) (
          All-drop (IsIn log) first (reverse (log_of id log))
            (All-reverse (IsIn log) (log_of id log) mine)))
