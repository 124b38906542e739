-- ===== src/SignerClient/Pending.antt =====
-- client.ts: the requests that wait for a reply, and the connection they wait on. Every event is handled
-- to its end before the next; a reconnection and its handshake are one event, since requests wait for it.
pub mod Conserved
pub mod Answered
use sigillo.Common.{
  ℕ, suc, ◌+◌, Bool, true, false, not, ◌||◌, Option, none, some, List, [], ◌∷◌, ◌++◌, map, ◌==◌,
  Result, ok, err, if◌then◌else◌,
}
use sigillo.Text.{Text, text_eq}
use sigillo.Verifier.Indices.{number_text}
use sigillo.Signer.Daemon.{Answer, key_answer, Reply, refusal_reply, ok_reply}
use sigillo.Store.Service.{SigningError, signer_unavailable}
use sigillo.SignerClient.{refusal_from}

-- `identity`: the key as its identifier and the base64 text announced with it.
pub record Identity : Type 0 where
  pub key_id : Text
  pub public_key : Text

-- `pending` holds the numbers of the requests that wait; a request is sent with its number as text.
pub record Client : Type 0 where
  pub closed : Bool
  pub connected : Bool
  pub identity : Option Identity
  pub last_id : ℕ
  pub pending : List ℕ

-- A request that is resolved or rejected, with its number.
pub record Completion : Type 0 where
  pub id : ℕ
  pub result : Result SigningError Answer

-- What comes of connecting: no connection, no answer to PUBKEY or a refusal, a line that closes the
-- client, an answer whose key does not pass the tests of `handshake`, or a key that does.
pub data Announcement : Type 0 where
  unreachable unanswered garbled : Announcement
  malformed : (key_id : Text) → Announcement
  announced : Identity → Announcement

-- A line that is not a JSON object, or a reply.
pub data ReplyLine : Type 0 where
  unreadable : ReplyLine
  readable : Reply → ReplyLine

abbrev pub rejected : ℕ → Completion
rejected id = record { id = id; result = err signer_unavailable }

-- `lose`: every waiting request fails.
unfoldable pub lose : Client → Client × List Completion
lose c =
    if c.connected
    then (record c { connected = false; pending = [] }, map rejected c.pending)
    else (c, [])

-- `drop` and `close`.
unfoldable pub close : Client → Client × List Completion
unfolding lose
close c = lose (record c { closed = true })

unfoldable pub take_pending : Text → List ℕ → Option (ℕ × List ℕ)
take_pending id [] = none
take_pending id (n ∷ pending) =
    let rest = take_pending id pending in
    if text_eq (number_text n) id
    then some (n, pending)
    else elim rest [ none ↦ none | some (found, others) ↦ some (found, n ∷ others) ]

abbrev pub complete :
    Client → Option (ℕ × List ℕ) → Result SigningError Answer → Client × List Completion
complete c none result = (c, [])
complete c (some (id, others)) result =
    (record c { pending = others }, record { id = id; result = result } ∷ [])

-- `settle`.
unfoldable pub settle_line : ReplyLine → Client → Client × List Completion
unfolding take_pending close
settle_line unreadable c = close c
settle_line (readable (refusal_reply code none)) c = close c
settle_line (readable (refusal_reply code (some id))) c =
    complete c (take_pending id c.pending) (err (refusal_from code))
settle_line (readable (ok_reply id answer)) c = complete c (take_pending id c.pending) (ok answer)

-- `receive`: lines are read while there is a connection.
unfoldable pub receive : ReplyLine → Client → Client × List Completion
unfolding settle_line
receive line c = if c.connected then settle_line line c else (c, [])

-- The deadline of the request with this number.
unfoldable pub time_out : ℕ → Client → Client × List Completion
unfolding take_pending
time_out id c = complete c (take_pending (number_text id) c.pending) (err signer_unavailable)

abbrev pub is_same_key : Option Identity → Text → Bool
is_same_key none key_id = true
is_same_key (some known) key_id = text_eq key_id known.key_id

-- `open` and `handshake`: an identity with another `key_id` than the one known is refused.
unfoldable pub open_client : Announcement → Client → Client × List Completion
open_client unreachable c = (c, [])
open_client unanswered c = (record c { last_id = c.last_id + 1 }, rejected (c.last_id + 1) ∷ [])
open_client garbled c =
    (record c { closed = true; last_id = c.last_id + 1 }, rejected (c.last_id + 1) ∷ [])
open_client (malformed key_id) c =
    let answered : Completion = record { id = c.last_id + 1; result = ok (key_answer key_id) } in
    (record c { last_id = c.last_id + 1 }, answered ∷ [])
open_client (announced given) c =
    let answered : Completion = record {
      id = c.last_id + 1;
      result = ok (key_answer given.key_id);
    } in
    if is_same_key c.identity given.key_id
    then (
      record c { last_id = c.last_id + 1; connected = true; identity = some given },
      answered ∷ [],
    )
    else (record c { last_id = c.last_id + 1 }, answered ∷ [])

-- `send`.
unfoldable pub send : Client → Client
send c =
    if not c.connected || c.closed
    then c
    else record c { last_id = c.last_id + 1; pending = (c.last_id + 1) ∷ c.pending }

-- `request`, which connects again if the connection is lost.
unfoldable pub request : Announcement → Client → Client × List Completion
unfolding open_client send
request a c =
    let (opened, done) = open_client a c in
    if c.closed then (c, []) else if c.connected then (send c, []) else (send opened, done)

pub data Event : Type 0 where
  asked : Announcement → Event
  arrived : ReplyLine → Event
  deadline : (id : ℕ) → Event
  connection_lost closed_by_owner : Event

unfoldable pub handle : Event → Client → Client × List Completion
unfolding request receive time_out lose close
handle (asked a) c = request a c
handle (arrived line) c = receive line c
handle (deadline id) c = time_out id c
handle connection_lost c = lose c
handle closed_by_owner c = close c

-- The events in order, with every completion.
unfoldable pub handle_all : List Event → Client → Client × List Completion
unfolding handle
handle_all [] c = (c, [])
handle_all (event ∷ events) c =
    let (c', done) = handle event c in let (c'', more) = handle_all events c' in (c'', done ++ more)

-- A client that has never connected.
abbrev pub new_client : Client
new_client = record {
  closed = false;
  connected = false;
  identity = none;
  last_id = 0;
  pending = [];
}
