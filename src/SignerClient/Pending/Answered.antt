-- ===== src/SignerClient/Pending/Answered.antt =====
-- A request is answered by the reply that echoes its number, and the identity of the signer is pinned.
use mathlib.Core.List.{Memᴰ}
use sigillo.Common.{
  ℕ, ◌≡◌, refl, ◌∙◌, true, not, ◌||◌, Option, none, some, List, [], ◌∷◌, Result, ok, err, All,
  Bool-cases, inl, inr,
}
use sigillo.Text.{Text, text_eq, text_eq_iff}
use sigillo.Verifier.Indices.{number_text}
use sigillo.Signer.Daemon.{Answer, key_answer, refusal_reply, ok_reply}
use sigillo.Store.Service.{SigningError}
use sigillo.SignerClient.Pending.{
  Client, Completion, lose, close, take_pending, complete, ReplyLine, unreadable, readable,
  settle_line, receive, time_out, Announcement, unreachable, unanswered, garbled, malformed,
  announced, Identity, is_same_key, open_client, send, request, Event, asked, arrived, deadline,
  connection_lost, closed_by_owner, handle, handle_all,
}
use sigillo.SignerClient.Pending.Conserved.{both_branches}

-- Where a completion comes from: a request is resolved by a reply that carries its own number, or is the
-- handshake's, and is otherwise rejected.
pub data IsAnswered (events : List Event) (id : ℕ) : Result SigningError Answer → Type 0 where
  by_reply :
      (answer : Answer)
      → Memᴰ (arrived (readable (ok_reply (number_text id) answer))) events
      → IsAnswered events id (ok answer)
  by_handshake :
      (given : Identity)
      → Memᴰ (asked (announced given)) events
      → IsAnswered events id (ok (key_answer given.key_id))
  by_malformed :
      (key_id : Text)
      → Memᴰ (asked (malformed key_id)) events
      → IsAnswered events id (ok (key_answer key_id))
  by_failure : (e : SigningError) → IsAnswered events id (err e)

abbrev Answered : List Event → List Completion → Type 0
Answered events done = All (λ (d : Completion). IsAnswered events d.id d.result) done

-- The identity is there, under this `key_id`.
abbrev pub Keeps : Text → Option Identity → Type 0
Keeps key_id found = (later : Identity) × (found ≡ some later) × (later.key_id ≡ key_id)

Keeps-same :
    (key_id : Text) {found known : Option Identity}
    → found ≡ known
    → Keeps key_id known
    → Keeps key_id found
Keeps-same key_id e (later, there, same) = (later, e ∙ there, same)

complete-identity :
    (c : Client) (found : Option (ℕ × List ℕ)) (result : Result SigningError Answer)
    → (complete c found result).0.identity ≡ c.identity
complete-identity c none result = refl
complete-identity c (some (id, others)) result = refl

lose-identity : (c : Client) → (lose c).0.identity ≡ c.identity
unfolding lose
lose-identity c = elim (Bool-cases c.connected) [ inl up ↦ rw up refl | inr down ↦ rw down refl ]

settle_line-identity :
    (line : ReplyLine) (c : Client) → (settle_line line c).0.identity ≡ c.identity
unfolding settle_line close
settle_line-identity unreadable c = lose-identity (record c { closed = true })
settle_line-identity (readable (refusal_reply code none)) c =
    lose-identity (record c { closed = true })
settle_line-identity (readable (refusal_reply code (some id))) c =
    complete-identity c (take_pending id c.pending) _
settle_line-identity (readable (ok_reply id answer)) c =
    complete-identity c (take_pending id c.pending) _

send-identity : (c : Client) → (send c).identity ≡ c.identity
unfolding send
send-identity c = elim (Bool-cases (not c.connected || c.closed)) [
  | inl down ↦ rw down refl
  | inr up ↦ rw up refl
]

open_client-identity :
    (a : Announcement) (c : Client) (key_id : Text)
    → Keeps key_id c.identity
    → Keeps key_id (open_client a c).0.identity
unfolding open_client
open_client-identity unreachable c key_id h = h
open_client-identity unanswered c key_id h = h
open_client-identity garbled c key_id h = h
open_client-identity (malformed other) c key_id h = h
open_client-identity (announced given) c key_id (known, there, under) =
    elim (Bool-cases (is_same_key c.identity given.key_id)) [
      | inr differs ↦ rw differs (known, there, under)
      | inl same ↦
          let equal : text_eq given.key_id known.key_id ≡ true = rw there at (same) in
          rw same (given, refl, (text_eq_iff given.key_id known.key_id).0 equal ∙ under)
    ]

handle-identity :
    (event : Event) (c : Client) (key_id : Text)
    → Keeps key_id c.identity
    → Keeps key_id (handle event c).0.identity
unfolding handle request receive time_out close
handle-identity (asked a) c key_id h =
    let opened = open_client a c in
    both_branches (λ (r : Client × List Completion). Keeps key_id r.0.identity) c.closed (c, []) _ h
      (both_branches (λ (r : Client × List Completion). Keeps key_id r.0.identity) c.connected
        (send c, []) (send opened.0, opened.1) (Keeps-same key_id (send-identity c) h)
        (Keeps-same key_id (send-identity opened.0) (open_client-identity a c key_id h)))
handle-identity (arrived line) c key_id h =
    both_branches (λ (r : Client × List Completion). Keeps key_id r.0.identity) c.connected
      (settle_line line c) (c, []) (Keeps-same key_id (settle_line-identity line c) h) h
handle-identity (deadline id) c key_id h =
    Keeps-same key_id (complete-identity c (take_pending (number_text id) c.pending) _) h
handle-identity connection_lost c key_id h = Keeps-same key_id (lose-identity c) h
handle-identity closed_by_owner c key_id h =
    Keeps-same key_id (lose-identity (record c { closed = true })) h

-- Once a client holds the identity of a signer, it holds one with that `key_id` after whatever requests,
-- replies, deadlines, losses and reconnections follow: a signer that announces another is not adopted.
pub identity_pinned :
    (events : List Event) (c : Client) (known : Identity)
    → c.identity ≡ some known
    → (later : Identity) × ((handle_all events c).0.identity ≡ some later)
      × (later.key_id ≡ known.key_id)
unfolding handle_all
identity_pinned events c known h = pinned events c known.key_id (known, h, refl)
  where
    pinned :
        (events : List Event) (c : Client) (key_id : Text)
        → Keeps key_id c.identity
        → Keeps key_id (handle_all events c).0.identity
    pinned [] c key_id h = h
    pinned (event ∷ events) c key_id h =
        pinned events (handle event c).0 key_id (handle-identity event c key_id h)
