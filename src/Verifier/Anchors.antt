-- ===== src/Verifier/Anchors.antt =====
-- `compareAnchorsWithPrevious`: the checkpoints and time stamps of an earlier export, looked for in a
-- later one. The value `null` of the source is `ok`.
use sigillo.Common.{
  ℕ, ◌≡◌, ◌⊎◌, ◌≤◌, refl, Bool, true, false, ◌&&◌, ◌||◌, Option, none, some, List, [], ◌∷◌,
  if◌then◌else◌, ◌==◌, leb, Result, ok, err, ◌>>◌, >>=-eq-ok, guard-eq-ok, arith, All, leb→le, inl,
  inr, ap, ◌∙◌, ==_iff, Bool-cases, Option-cases,
}
use mathlib.Core.List.{Memᴰ}
use sigillo.Crypto.{Bytes}
use sigillo.Text.{Text, text_eq, text_eq_iff}
use sigillo.Verifier.{
  VerifierError, failed, require, CheckpointEntry, ExportTimestamp, checkpoints_file,
  previous_export,
}

-- `tokens`: the time stamp tokens of an export, by file name.
abbrev pub TokenMap : Type 0
TokenMap = List (Text × Bytes)

unfoldable pub token_get : Text → TokenMap → Option Bytes
token_get file [] = none
token_get file ((other, bytes) ∷ tokens) =
    if text_eq other file then some bytes else token_get file tokens

pub record AnchorSet : Type 0 where
  pub checkpoints : List CheckpointEntry
  pub tokens : TokenMap

-- `sameBytes`, which `text_eq` computes on lists of bytes as well.
abbrev pub same_bytes : Option Bytes → Bytes → Bool
same_bytes none wanted = false
same_bytes (some bytes) wanted = text_eq bytes wanted

unfoldable pub find_checkpoint : ℕ → List CheckpointEntry → Option CheckpointEntry
find_checkpoint size [] = none
find_checkpoint size (entry ∷ entries) =
    if entry.checkpoint.tree_size == size then some entry else find_checkpoint size entries

unfoldable pub is_kept : Text → Bytes → TokenMap → List ExportTimestamp → Bool
is_kept tsa_url wanted tokens [] = false
is_kept tsa_url wanted tokens (candidate ∷ candidates) =
    text_eq candidate.tsa_url tsa_url && same_bytes (token_get candidate.file tokens) wanted
    || is_kept tsa_url wanted tokens candidates

abbrev pub token_kept : Option Bytes → Text → TokenMap → List ExportTimestamp → Bool
token_kept none tsa_url tokens now = true
token_kept (some wanted) tsa_url tokens now = is_kept tsa_url wanted tokens now

unfoldable pub check_stamps :
    TokenMap
    → TokenMap
    → List ExportTimestamp
    → List ExportTimestamp
    → Result VerifierError (Unit {0})
check_stamps tokens_before tokens_now now [] = ok tt
check_stamps tokens_before tokens_now now (stamp ∷ stamps) = do
  require (token_kept (token_get stamp.file tokens_before) stamp.tsa_url tokens_now now)
      previous_export checkpoints_file
  check_stamps tokens_before tokens_now now stamps

unfoldable pub check_anchor :
    TokenMap → TokenMap → CheckpointEntry → Option CheckpointEntry → Result VerifierError (Unit {0})
check_anchor tokens_before tokens_now before none = err (failed previous_export checkpoints_file)
check_anchor tokens_before tokens_now before (some now) = do
  require
      (text_eq now.checkpoint.root_hash before.checkpoint.root_hash
        && text_eq now.checkpoint.sig before.checkpoint.sig)
      previous_export checkpoints_file
  check_stamps tokens_before tokens_now now.timestamps before.timestamps

-- A checkpoint that lies wholly before the first receipt is not asked for.
abbrev pub check_unless :
    Bool → AnchorSet → TokenMap → CheckpointEntry → Result VerifierError (Unit {0})
check_unless true current tokens_before before = ok tt
check_unless false current tokens_before before =
    check_anchor tokens_before current.tokens before
      (find_checkpoint before.checkpoint.tree_size current.checkpoints)

unfoldable pub check_anchors :
    AnchorSet → TokenMap → ℕ → List CheckpointEntry → Result VerifierError (Unit {0})
check_anchors current tokens_before first_seq [] = ok tt
check_anchors current tokens_before first_seq (before ∷ entries) = do
  check_unless (leb before.checkpoint.tree_size first_seq) current tokens_before before
  check_anchors current tokens_before first_seq entries

unfoldable pub compare_anchors_with_previous :
    AnchorSet → AnchorSet → ℕ → Result VerifierError (Unit {0})
compare_anchors_with_previous current previous first_seq =
    check_anchors current previous.tokens first_seq previous.checkpoints

-- The token of a stamp, where its export holds one, is on the later checkpoint: under a stamp of the
-- same authority, whose file holds the same bytes.
abbrev pub KeepsToken : TokenMap → TokenMap → List ExportTimestamp → ExportTimestamp → Type 0
KeepsToken tokens_before tokens_now now stamp =
    (token_get stamp.file tokens_before ≡ none)
    ⊎ (bytes : Bytes) × (candidate : ExportTimestamp) × (token_get stamp.file tokens_before
        ≡ some bytes)
      × Memᴰ candidate now
      × (candidate.tsa_url ≡ stamp.tsa_url)
      × (token_get candidate.file tokens_now ≡ some bytes)

-- The checkpoint is still there, unchanged, with each of its tokens.
abbrev pub IsKept : AnchorSet → TokenMap → CheckpointEntry → Type 0
IsKept current tokens_before before =
    (now : CheckpointEntry) × Memᴰ now current.checkpoints
    × (now.checkpoint.tree_size ≡ before.checkpoint.tree_size)
    × (now.checkpoint.root_hash ≡ before.checkpoint.root_hash)
    × (now.checkpoint.sig ≡ before.checkpoint.sig)
    × All (KeepsToken tokens_before current.tokens now.timestamps) before.timestamps

find_checkpoint-Memᴰ :
    (size : ℕ) (entries : List CheckpointEntry) {found : CheckpointEntry}
    → find_checkpoint size entries ≡ some found
    → Memᴰ found entries × (found.checkpoint.tree_size ≡ size)
unfolding find_checkpoint
find_checkpoint-Memᴰ size [] h = cc
find_checkpoint-Memᴰ size (entry ∷ entries) {found} h =
    elim (Bool-cases (entry.checkpoint.tree_size == size)) [
      | inl here ↦
          let is_found : some entry ≡ some found = rw here at (h) in
          let same : found ≡ entry = cc in
          (
            Memᴰ.head same,
            ap (λ (e : CheckpointEntry). e.checkpoint.tree_size) same
                ∙ (==_iff entry.checkpoint.tree_size size).0 here,
          )
      | inr other ↦
          let later = find_checkpoint-Memᴰ size entries (rw other at (h)) in
          (Memᴰ.tail later.0, later.1)
    ]

same_bytes-eq-some :
    (found : Option Bytes) (wanted : Bytes) → same_bytes found wanted ≡ true → found ≡ some wanted
same_bytes-eq-some none wanted h = cc
same_bytes-eq-some (some bytes) wanted h = ap some ((text_eq_iff bytes wanted).0 h)

is_kept-Memᴰ :
    (tsa_url : Text) (wanted : Bytes) (tokens : TokenMap) (candidates : List ExportTimestamp)
    → is_kept tsa_url wanted tokens candidates ≡ true
    → (candidate : ExportTimestamp) × Memᴰ candidate candidates
      × (candidate.tsa_url ≡ tsa_url)
      × (token_get candidate.file tokens ≡ some wanted)
unfolding is_kept
is_kept-Memᴰ tsa_url wanted tokens [] h = cc
is_kept-Memᴰ tsa_url wanted tokens (candidate ∷ candidates) h =
    let found = token_get candidate.file tokens in
    elim (Bool-cases (text_eq candidate.tsa_url tsa_url && same_bytes found wanted)) [
      | inl here ↦ (
        candidate,
        Memᴰ.head refl,
        (text_eq_iff candidate.tsa_url tsa_url).0 (ground (arith, here)),
        same_bytes-eq-some found wanted (ground (arith, here)),
      )
      | inr other ↦
          let later = is_kept-Memᴰ tsa_url wanted tokens candidates (rw other at (h)) in
          (later.0, Memᴰ.tail later.1, later.2, later.3)
    ]

token_kept-KeepsToken :
    (tokens_before tokens_now : TokenMap) (now : List ExportTimestamp) (stamp : ExportTimestamp)
    → token_kept (token_get stamp.file tokens_before) stamp.tsa_url tokens_now now ≡ true
    → KeepsToken tokens_before tokens_now now stamp
token_kept-KeepsToken tokens_before tokens_now now stamp h =
    elim (Option-cases (token_get stamp.file tokens_before)) [
      | inl absent ↦ inl absent
      | inr (bytes, there) ↦
          let kept = is_kept-Memᴰ stamp.tsa_url bytes tokens_now now (rw there at (h)) in
          inr (bytes, kept.0, there, kept.1, kept.2, kept.3)
    ]

check_stamps-kept :
    (tokens_before tokens_now : TokenMap) (now stamps : List ExportTimestamp)
    → check_stamps tokens_before tokens_now now stamps ≡ ok tt
    → All (KeepsToken tokens_before tokens_now now) stamps
unfolding check_stamps
check_stamps-kept tokens_before tokens_now now [] h = tt
check_stamps-kept tokens_before tokens_now now (stamp ∷ stamps) h =
    let (kept, more) =
      guard-eq-ok (token_kept (token_get stamp.file tokens_before) stamp.tsa_url tokens_now now)
        (failed previous_export checkpoints_file) _ h in
    (
      token_kept-KeepsToken tokens_before tokens_now now stamp kept,
      check_stamps-kept tokens_before tokens_now now stamps more,
    )

check_anchor-IsKept :
    (current : AnchorSet) (tokens_before : TokenMap) (before : CheckpointEntry)
    (found : Option CheckpointEntry)
    → find_checkpoint before.checkpoint.tree_size current.checkpoints ≡ found
    → check_anchor tokens_before current.tokens before found ≡ ok tt
    → IsKept current tokens_before before
unfolding check_anchor
check_anchor-IsKept current tokens_before before none e h = cc
check_anchor-IsKept current tokens_before before (some now) e h =
    let (same, stamps) =
      guard-eq-ok
        (text_eq now.checkpoint.root_hash before.checkpoint.root_hash
          && text_eq now.checkpoint.sig before.checkpoint.sig)
        (failed previous_export checkpoints_file) _ h in
    let root : text_eq now.checkpoint.root_hash before.checkpoint.root_hash ≡ true = ground arith in
    let sig : text_eq now.checkpoint.sig before.checkpoint.sig ≡ true = ground arith in
    let found = find_checkpoint-Memᴰ before.checkpoint.tree_size current.checkpoints e in
    (
      now,
      found.0,
      found.1,
      (text_eq_iff now.checkpoint.root_hash before.checkpoint.root_hash).0 root,
      (text_eq_iff now.checkpoint.sig before.checkpoint.sig).0 sig,
      check_stamps-kept tokens_before current.tokens now.timestamps before.timestamps stamps,
    )

check_unless-IsKept :
    (past : Bool) (current : AnchorSet) (tokens_before : TokenMap) (before : CheckpointEntry)
    → check_unless past current tokens_before before ≡ ok tt
    → (past ≡ true) ⊎ IsKept current tokens_before before
check_unless-IsKept true current tokens_before before h = inl refl
check_unless-IsKept false current tokens_before before h = inr (
    check_anchor-IsKept current tokens_before before
      (find_checkpoint before.checkpoint.tree_size current.checkpoints) refl h)

check_anchors-IsKept :
    (current : AnchorSet) (tokens_before : TokenMap) (first_seq : ℕ)
    (entries : List CheckpointEntry)
    → check_anchors current tokens_before first_seq entries ≡ ok tt
    → All
        (λ (before : CheckpointEntry).
          (before.checkpoint.tree_size ≤ first_seq) ⊎ IsKept current tokens_before before)
        entries
unfolding check_anchors
check_anchors-IsKept current tokens_before first_seq [] h = tt
check_anchors-IsKept current tokens_before first_seq (before ∷ entries) h =
    let past = leb before.checkpoint.tree_size first_seq in
    let (_, first, more) = >>=-eq-ok (check_unless past current tokens_before before) _ h in
    (
      elim (check_unless-IsKept past current tokens_before before first) [
        | inl skipped ↦ inl (leb→le before.checkpoint.tree_size first_seq skipped)
        | inr kept ↦ inr kept
      ],
      check_anchors-IsKept current tokens_before first_seq entries more,
    )

-- When `compareAnchorsWithPrevious` finds nothing, for each checkpoint of the earlier export that
-- reaches past the first receipt the later one holds a checkpoint with its size, root and signature,
-- and each time stamp token that the earlier export holds of it is on that checkpoint, from the same
-- authority and with the same bytes.
pub compare_anchors_with_previous-IsKept :
    (current previous : AnchorSet) (first_seq : ℕ)
    → compare_anchors_with_previous current previous first_seq ≡ ok tt
    → All
        (λ (before : CheckpointEntry).
          (before.checkpoint.tree_size ≤ first_seq) ⊎ IsKept current previous.tokens before)
        previous.checkpoints
unfolding compare_anchors_with_previous
compare_anchors_with_previous-IsKept current previous first_seq h =
    check_anchors-IsKept current previous.tokens first_seq previous.checkpoints h
