-- ===== src/Anchoring.antt =====
-- packages/core/src/anchoring.ts: what the attested times of the checkpoints prove of the receipts. A time
-- is its milliseconds, and the texts of the problems are left out.
pub mod Earliest
pub mod Timely
pub mod Sorted
pub mod Attested
pub mod InOrder
pub mod Forward
pub mod Accepted
use sigillo.Common.{
  ℕ, ◌+◌, ◌-◌, ◌*◌, ◌/◌, ◌%◌, min, max, Bool, true, false, ◌&&◌, Option, none, some, List, [], ◌∷◌,
  ◌++◌, length, ltb, leb, ◌==◌, if◌then◌else◌,
}
use sigillo.Text.{Text, codes}
use sigillo.Verifier.Indices.{number_text}

-- `AnchoredCheckpoint`.
pub record CheckpointTimes : Type 0 where
  pub line : ℕ
  pub tree_size : ℕ
  pub ts : Text
  pub gen_times : List Text

-- `CheckpointProof`, whose time may be missing, and one whose time is there.
pub record Proven : Type 0 where
  pub line : ℕ
  pub tree_size : ℕ
  pub proven_at : ℕ
  pub late : Bool

-- The time between two times, which is negative where they go backwards.
pub record Gap : Type 0 where
  pub from : ℕ
  pub to : ℕ

-- `delayMs` goes from the checkpoint's own time to the proven one, and is NaN where the former is.
pub record CheckpointProof : Type 0 where
  pub line : ℕ
  pub tree_size : ℕ
  pub ts : Text
  pub proven_at : Option ℕ
  pub delay : Option Gap
  pub late : Bool

pub record ReceiptTime : Type 0 where
  pub seq : ℕ
  pub received : ℕ

-- From `from_seq` to before `end`.
pub record Range : Type 0 where
  pub from_seq : ℕ
  pub end : ℕ
  pub existed_by : ℕ

pub data Problem : Type 0 where
  anchor_time : (index seq : ℕ) (existed_by : ℕ) → Problem
  anchor_order : (line : ℕ) → Problem
  anchor_delay : (line : ℕ) → Problem

pub record Unproven : Type 0 where
  pub from_seq : ℕ
  pub end : ℕ

pub record AnchorTimes : Type 0 where
  pub checkpoints : List CheckpointProof
  pub ranges : List Range
  pub errors : List Problem
  pub warnings : List Problem
  pub late : ℕ
  pub longest_gap : Option Gap
  pub unproven : Option Unproven

abbrev minute : ℕ
minute = 60000

abbrev hour : ℕ
hour = 60 * 60000

abbrev day : ℕ
day = 24 * hour

abbrev unless_zero : ℕ → Text → Text
unless_zero n unit = if ltb 0 n then codes " " ++ number_text n ++ unit else []

unfoldable pub format_duration : ℕ → Text
format_duration ms =
    let days = ms / day in
    let hours = ms % day / hour in
    let minutes = ms % hour / minute in
    if ltb 0 days
    then number_text days
      ++ codes " day"
      ++ (if days == 1 then [] else codes "s")
      ++ unless_zero hours (codes " h")
    else if ltb 0 hours
    then number_text hours ++ codes " h" ++ unless_zero minutes (codes " min")
    else if ltb 0 minutes
    then number_text minutes ++ codes " min"
    else number_text (ms / 1000) ++ codes " s"

-- `sort` by the size of the tree, which is stable.
unfoldable pub insert_by_size : CheckpointTimes → List CheckpointTimes → List CheckpointTimes
insert_by_size c [] = c ∷ []
insert_by_size c (other ∷ others) =
    let rest = insert_by_size c others in
    if ltb other.tree_size c.tree_size then other ∷ rest else c ∷ other ∷ others

unfoldable pub sort_by_size : List CheckpointTimes → List CheckpointTimes
unfolding insert_by_size
sort_by_size [] = []
sort_by_size (c ∷ checkpoints) = insert_by_size c (sort_by_size checkpoints)

abbrev pub least : Option ℕ → Option ℕ → Option ℕ
least none b = b
least (some a) none = some a
least (some a) (some b) = some (if ltb b a then b else a)

-- `parse` is `Date.parse`, where `none` is NaN.
module _ (parse : Text → Option ℕ) where
  -- `Math.min` of the times that can be read.
  unfoldable pub earliest_time : List Text → Option ℕ
  earliest_time [] = none
  earliest_time (time ∷ times) = least (parse time) (earliest_time times)

  -- Later by more than the delay allowed; no comparison with NaN holds.
  abbrev pub is_late : Option ℕ → ℕ → ℕ → Bool
  is_late none max_delay proven = false
  is_late (some declared) max_delay proven = ltb (declared + max_delay) proven

  abbrev pub delay_from : Option ℕ → ℕ → Option Gap
  delay_from none proven = none
  delay_from (some declared) proven = some (record { from = declared; to = proven })

  abbrev pub proof_at : ℕ → CheckpointTimes → Option ℕ → CheckpointProof
  proof_at max_delay c none = record {
    line = c.line;
    tree_size = c.tree_size;
    ts = c.ts;
    proven_at = none;
    delay = none;
    late = false;
  }
  proof_at max_delay c (some proven) = record {
    line = c.line;
    tree_size = c.tree_size;
    ts = c.ts;
    proven_at = some proven;
    delay = delay_from (parse c.ts) proven;
    late = is_late (parse c.ts) max_delay proven;
  }

  unfoldable pub proofs_of : ℕ → List CheckpointTimes → List CheckpointProof
  unfolding earliest_time
  proofs_of max_delay [] = []
  proofs_of max_delay (c ∷ checkpoints) =
      proof_at max_delay c (earliest_time c.gen_times) ∷ proofs_of max_delay checkpoints

abbrev pub if_proven : CheckpointProof → Option ℕ → List Proven → List Proven
if_proven proof none others = others
if_proven proof (some at) others =
    record { line = proof.line; tree_size = proof.tree_size; proven_at = at; late = proof.late }
    ∷ others

unfoldable pub proven_of : List CheckpointProof → List Proven
proven_of [] = []
proven_of (proof ∷ proofs) = if_proven proof proof.proven_at (proven_of proofs)

unfoldable pub delay_warnings : List Proven → List Problem
delay_warnings [] = []
delay_warnings (entry ∷ entries) =
    let rest = delay_warnings entries in if entry.late then anchor_delay entry.line ∷ rest else rest

-- `anchor-order`: the first argument is the time of `latest`, if there is one.
unfoldable pub order_errors : Option ℕ → List Proven → List Problem
order_errors latest [] = []
order_errors none (entry ∷ entries) = order_errors (some entry.proven_at) entries
order_errors (some latest) (entry ∷ entries) =
    let kept = order_errors (some latest) entries in
    let moved = order_errors (some entry.proven_at) entries in
    if ltb entry.proven_at latest then anchor_order entry.line ∷ kept else moved

-- `findIndex`: the first receipt of the range received after the limit.
unfoldable pub first_after : ℕ → ℕ → ℕ → ℕ → List ReceiptTime → Option (ℕ × ReceiptTime)
first_after from end limit index [] = none
first_after from end limit index (r ∷ receipts) =
    let rest = first_after from end limit (index + 1) receipts in
    if leb from r.seq && ltb r.seq end && ltb limit r.received then some (index, r) else rest

abbrev pub time_error : ℕ → Option (ℕ × ReceiptTime) → List Problem
time_error existed_by none = []
time_error existed_by (some (index, r)) = anchor_time (index + 1) r.seq existed_by ∷ []

-- The walk from the largest tree down: the earliest time so far, with the ranges and the errors in the
-- order of their numbers. The numbers of the receipts are from `first` to before `last`.
pub record Walked : Type 0 where
  pub earliest : Option ℕ
  pub ranges : List Range
  pub errors : List Problem

abbrev pub sooner : ℕ → Option ℕ → ℕ
sooner at none = at
sooner at (some earliest) = if ltb at earliest then at else earliest

module _ (receipts : List ReceiptTime) (tolerance first last : ℕ) where
  -- One round, after those of the larger trees: `before` is the size of the tree before it.
  abbrev pub round : ℕ → Proven → Walked → Walked
  round before entry w =
      let earliest = sooner entry.proven_at w.earliest in
      let from = max first before in
      let end = min last entry.tree_size in
      if leb end from then record w { earliest = some earliest } else record {
        earliest = some earliest;
        ranges = record { from_seq = from; end = end; existed_by = earliest } ∷ w.ranges;
        errors =
            time_error earliest (first_after from end (earliest + tolerance) 0 receipts)
            ++ w.errors;
      }

  unfoldable pub walk_down : ℕ → List Proven → Walked
  walk_down before [] = record { earliest = none; ranges = []; errors = [] }
  walk_down before (entry ∷ entries) = round before entry (walk_down entry.tree_size entries)

-- `longer` than the longest so far, if there is one.
abbrev pub longer : Option Gap → Gap → Option Gap
longer none gap = some gap
longer (some longest) gap =
    if ltb (longest.to + gap.from) (gap.to + longest.from) then some gap else some longest

unfoldable pub longest_gap : Option Gap → List Proven → Option Gap
longest_gap longest [] = longest
longest_gap longest (entry ∷ []) = longest
longest_gap longest (entry ∷ next ∷ entries) =
    longest_gap (longer longest (record { from = entry.proven_at; to = next.proven_at }))
      (next ∷ entries)

abbrev pub first_of : List ReceiptTime → ℕ
first_of [] = 0
first_of (r ∷ receipts) = r.seq

-- The number after the last one.
unfoldable pub end_of : List ReceiptTime → ℕ
end_of [] = 0
end_of (r ∷ []) = r.seq + 1
end_of (r ∷ next ∷ receipts) = end_of (next ∷ receipts)

unfoldable pub covered_end : ℕ → List Range → ℕ
covered_end first [] = first
covered_end first (range ∷ ranges) = covered_end range.end ranges

unfoldable pub count_late : List Proven → ℕ
count_late [] = 0
count_late (entry ∷ entries) =
    let rest = count_late entries in if entry.late then rest + 1 else rest

unfoldable pub anchor_times :
    (Text → Option ℕ) → List ReceiptTime → List CheckpointTimes → ℕ → ℕ → AnchorTimes
unfolding sort_by_size proofs_of proven_of delay_warnings order_errors walk_down longest_gap end_of
    covered_end count_late
anchor_times parse receipts checkpoints tolerance max_delay =
    let proofs = proofs_of parse max_delay (sort_by_size checkpoints) in
    let proven = proven_of proofs in
    let last = end_of receipts in
    let walked = walk_down receipts tolerance (first_of receipts) last 0 proven in
    let covered = covered_end (first_of receipts) walked.ranges in
    record {
      checkpoints = proofs;
      ranges = walked.ranges;
      errors = walked.errors ++ order_errors none proven;
      warnings = delay_warnings proven;
      late = count_late proven;
      longest_gap = longest_gap none proven;
      unproven =
          if leb last covered then none else some (record { from_seq = covered; end = last });
    }
