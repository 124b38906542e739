-- ===== src/SignerClient/Pending/Conserved.antt =====
-- Every request that was sent waits or has been completed, once.
use sigillo.Common.{
  ℕ, ◌+◌, ◌≡◌, refl, Bool, true, false, not, ◌||◌, ◌&&◌, Option, none, some, List, [], ◌∷◌, ◌++◌,
  map, ◌==◌, leb, Result, if◌then◌else◌, arith, Bool-cases, Option-cases, inl, inr,
}
use sigillo.Text.{Text, text_eq}
use sigillo.Verifier.Indices.{number_text}
use sigillo.Signer.Daemon.{Answer, refusal_reply, ok_reply}
use sigillo.Store.Service.{SigningError}
use sigillo.SignerClient.Pending.{
  Client, Completion, rejected, lose, close, take_pending, complete, ReplyLine, unreadable,
  readable, settle_line, receive, time_out, Announcement, unreachable, unanswered, garbled,
  malformed, announced, is_same_key, open_client, send, request, Event, asked, arrived, deadline,
  connection_lost, closed_by_owner, handle, handle_all, new_client,
}

abbrev pub count : ℕ → List ℕ → ℕ
count n [] = 0
count n (m ∷ ms) = (if n == m then 1 else 0) + count n ms

abbrev pub count_done : ℕ → List Completion → ℕ
count_done n [] = 0
count_done n (done ∷ more) = (if n == done.id then 1 else 0) + count_done n more

-- The requests are numbered from 1.
abbrev pub issued : ℕ → ℕ → ℕ
issued n last = if leb 1 n && leb n last then 1 else 0

count_done-append :
    (n : ℕ) (xs ys : List Completion) → count_done n (xs ++ ys) ≡ count_done n xs + count_done n ys
count_done-append n [] ys = omega arith
count_done-append n (x ∷ xs) ys = omega (arith, count_done-append n xs ys)

count_done-rejected :
    (n : ℕ) (pending : List ℕ) → count_done n (map rejected pending) ≡ count n pending
count_done-rejected n [] = refl
count_done-rejected n (m ∷ pending) = omega (arith, count_done-rejected n pending)

issued-suc : (n last : ℕ) → issued n (last + 1) ≡ (if n == last + 1 then 1 else 0) + issued n last
issued-suc n last = ground arith

-- What a step issues is what it adds to the waiting and to the completed.
abbrev Conserves : ℕ → Client → Client × List Completion → Type 0
Conserves n c (c', done) =
    count n c'.pending + count_done n done + issued n c.last_id
    ≡ count n c.pending + issued n c'.last_id

lose-Conserves : (n : ℕ) (c : Client) → Conserves n c (lose c)
unfolding lose
lose-Conserves n c = elim (Bool-cases c.connected) [
  | inl up ↦ rw up (omega (arith, count_done-rejected n c.pending))
  | inr down ↦ rw down (omega arith)
]

pub take_pending-count :
    (n : ℕ) (id : Text) (pending : List ℕ) {found : ℕ} {others : List ℕ}
    → take_pending id pending ≡ some (found, others)
    → (count n pending ≡ (if n == found then 1 else 0) + count n others)
      × (text_eq (number_text found) id ≡ true)
unfolding take_pending
take_pending-count n id [] h = cc
take_pending-count n id (m ∷ pending) {found} {others} h =
    elim (Bool-cases (text_eq (number_text m) id)) [
      | inl here ↦
          let same : Path (Option (ℕ × List ℕ)) (some (m, pending)) (some (found, others)) =
            rw here at (h) in
          let first : m ≡ found = cc in
          let rest : pending ≡ others = cc in rw (← first, ← rest) (refl, here)
      | inr other ↦ elim (Option-cases (take_pending id pending)) [
        | inl absent ↦
            let nowhere : Path (Option (ℕ × List ℕ)) none (some (found, others)) =
              rw (other, absent) at (h) in
            cc
        | inr ((found', others'), there) ↦
            let same : Path (Option (ℕ × List ℕ)) (some (found', m ∷ others'))
                (some (found, others)) =
              rw (other, there) at (h) in
            let first : found' ≡ found = cc in
            let rest : (m ∷ others') ≡ others = cc in
            let below = take_pending-count n id pending there in
            rw (← first, ← rest) (omega (arith, below.0), below.1)
      ]
    ]

complete-Conserves :
    (n : ℕ) (id : Text) (c : Client) (found : Option (ℕ × List ℕ))
    (result : Result SigningError Answer)
    → take_pending id c.pending ≡ found
    → Conserves n c (complete c found result)
complete-Conserves n id c none result h = omega arith
complete-Conserves n id c (some (found, others)) result h =
    omega (arith, (take_pending-count n id c.pending h).0)

settle_line-Conserves : (n : ℕ) (line : ReplyLine) (c : Client) → Conserves n c (settle_line line c)
unfolding settle_line close
settle_line-Conserves n unreadable c = lose-Conserves n (record c { closed = true })
settle_line-Conserves n (readable (refusal_reply code none)) c =
    lose-Conserves n (record c { closed = true })
settle_line-Conserves n (readable (refusal_reply code (some id))) c =
    complete-Conserves n id c (take_pending id c.pending) _ refl
settle_line-Conserves n (readable (ok_reply id answer)) c =
    complete-Conserves n id c (take_pending id c.pending) _ refl

open_client-Conserves : (n : ℕ) (a : Announcement) (c : Client) → Conserves n c (open_client a c)
unfolding open_client
open_client-Conserves n unreachable c = omega arith
open_client-Conserves n unanswered c = omega (arith, issued-suc n c.last_id)
open_client-Conserves n garbled c = omega (arith, issued-suc n c.last_id)
open_client-Conserves n (malformed key_id) c = omega (arith, issued-suc n c.last_id)
open_client-Conserves n (announced given) c =
    elim (Bool-cases (is_same_key c.identity given.key_id)) [
      | inl same ↦ rw same (omega (arith, issued-suc n c.last_id))
      | inr other ↦ rw other (omega (arith, issued-suc n c.last_id))
    ]

send-Conserves : (n : ℕ) (c : Client) → Conserves n c (send c, [])
unfolding send
send-Conserves n c = elim (Bool-cases (not c.connected || c.closed)) [
  | inl down ↦ rw down (omega arith)
  | inr up ↦ rw up (omega (arith, issued-suc n c.last_id))
]

-- What both branches have.
pub both_branches {ℓ κ} :
    {A : Type ℓ} (P : A → Type κ) (test : Bool) (x y : A) → P x → P y → P (if test then x else y)
both_branches P true x y hx hy = hx
both_branches P false x y hx hy = hy

request-Conserves : (n : ℕ) (a : Announcement) (c : Client) → Conserves n c (request a c)
unfolding request
request-Conserves n a c =
    let opened = open_client a c in
    both_branches (Conserves n c) c.closed (c, []) _ (omega arith)
      (both_branches (Conserves n c) c.connected (send c, []) (send opened.0, opened.1)
        (send-Conserves n c)
        (omega (arith, open_client-Conserves n a c, send-Conserves n opened.0)))

handle-Conserves : (n : ℕ) (event : Event) (c : Client) → Conserves n c (handle event c)
unfolding handle receive time_out close
handle-Conserves n (asked a) c = request-Conserves n a c
handle-Conserves n (arrived line) c =
    both_branches (Conserves n c) c.connected (settle_line line c) (c, [])
      (settle_line-Conserves n line c) (omega arith)
handle-Conserves n (deadline id) c =
    complete-Conserves n (number_text id) c (take_pending (number_text id) c.pending) _ refl
handle-Conserves n connection_lost c = lose-Conserves n c
handle-Conserves n closed_by_owner c = lose-Conserves n (record c { closed = true })

handle_all-Conserves :
    (n : ℕ) (events : List Event) (c : Client) → Conserves n c (handle_all events c)
unfolding handle_all
handle_all-Conserves n [] c = omega arith
handle_all-Conserves n (event ∷ events) c =
    let (c', done) = handle event c in
    let (c'', more) = handle_all events c' in
    omega (
      arith,
      handle-Conserves n event c,
      handle_all-Conserves n events c',
      count_done-append n done more,
    )

-- Whatever requests are asked for, replies arrive, deadlines pass and connections are lost, in any order:
-- of the requests that a new client has sent, numbered from 1 to `last_id`, each either waits or has been
-- completed, exactly once, and no other request waits or is completed.
pub completed_once :
    (n : ℕ) (events : List Event)
    → let (c, done) = handle_all events new_client in
      count n c.pending + count_done n done ≡ issued n c.last_id
completed_once n events = ground (arith, handle_all-Conserves n events new_client)
