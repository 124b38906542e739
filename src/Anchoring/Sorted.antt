-- ===== src/Anchoring/Sorted.antt =====
-- `anchorTimes` as a whole: the checkpoints come in any order, and those without a time count for nothing.
use sigillo.Common.{
  ℕ, ◌≤◌, ◌<◌, ◌≡◌, refl, ap, ◌∙◌, Option, none, some, List, [], ◌∷◌, ltb, if◌then◌else◌, arith,
  Bool-cases, Option-cases, inl, inr,
}
use sigillo.Text.{Text}
use sigillo.Anchoring.{
  CheckpointTimes, Proven, ReceiptTime, least, insert_by_size, sort_by_size, proofs_of,
  earliest_time, proven_of, first_of, end_of, anchor_times,
}
use sigillo.Anchoring.Earliest.{IsSorted, existed_by, earliest_holding, walk_down-existed_by}

-- The earliest of all the times attested to a checkpoint whose tree includes the receipt.
unfoldable pub earliest_proof : (Text → Option ℕ) → ℕ → List CheckpointTimes → Option ℕ
earliest_proof parse seq [] = none
earliest_proof parse seq (c ∷ checkpoints) =
    let rest = earliest_proof parse seq checkpoints in
    if ltb seq c.tree_size then least (earliest_time parse c.gen_times) rest else rest

abbrev pub IsBySize : ℕ → List CheckpointTimes → Type 0
IsBySize before [] = Unit
IsBySize before (c ∷ checkpoints) = (before ≤ c.tree_size) × IsBySize c.tree_size checkpoints

insert_by_size-IsBySize :
    (before : ℕ) (c : CheckpointTimes) (checkpoints : List CheckpointTimes)
    → IsBySize before checkpoints
    → before ≤ c.tree_size
    → IsBySize before (insert_by_size c checkpoints)
unfolding insert_by_size
insert_by_size-IsBySize before c [] sorted lo = (lo, tt)
insert_by_size-IsBySize before c (other ∷ others) sorted lo =
    elim (Bool-cases (ltb other.tree_size c.tree_size)) [
      | inl smaller ↦ rw smaller (
        sorted.0,
        insert_by_size-IsBySize other.tree_size c others sorted.1 (ground (arith, smaller)),
      )
      | inr larger ↦ rw larger (lo, (ground (arith, larger), sorted.1))
    ]

pub sort_by_size-IsBySize :
    (checkpoints : List CheckpointTimes) → IsBySize 0 (sort_by_size checkpoints)
unfolding sort_by_size
sort_by_size-IsBySize [] = tt
sort_by_size-IsBySize (c ∷ checkpoints) =
    insert_by_size-IsBySize 0 c (sort_by_size checkpoints) (sort_by_size-IsBySize checkpoints)
      (omega arith)

IsSorted-from :
    (before after : ℕ) (entries : List Proven)
    → IsSorted after entries
    → before ≤ after
    → IsSorted before entries
IsSorted-from before after [] sorted lo = tt
IsSorted-from before after (entry ∷ entries) sorted lo = (omega (arith, lo, sorted.0), sorted.1)

least_swap : (a b c : Option ℕ) → least a (least b c) ≡ least b (least a c)
least_swap none b c = refl
least_swap (some a) none c = refl
least_swap (some a) (some b) none = ground arith
least_swap (some a) (some b) (some c) = ground arith

module _ (parse : Text → Option ℕ) where
  proven_of-IsSorted :
      (max_delay before : ℕ) (checkpoints : List CheckpointTimes)
      → IsBySize before checkpoints
      → IsSorted before (proven_of (proofs_of parse max_delay checkpoints))
  unfolding proven_of proofs_of
  proven_of-IsSorted max_delay before [] sorted = tt
  proven_of-IsSorted max_delay before (c ∷ checkpoints) sorted =
      let rest = proven_of-IsSorted max_delay c.tree_size checkpoints sorted.1 in
      elim (Option-cases (earliest_time parse c.gen_times)) [
        | inl absent ↦ rw absent (IsSorted-from before c.tree_size _ rest sorted.0)
        | inr (at, there) ↦ rw there (sorted.0, rest)
      ]

  proven_of-earliest :
      (max_delay seq : ℕ) (checkpoints : List CheckpointTimes)
      → earliest_holding seq (proven_of (proofs_of parse max_delay checkpoints))
        ≡ earliest_proof parse seq checkpoints
  unfolding proven_of proofs_of earliest_holding earliest_proof
  proven_of-earliest max_delay seq [] = refl
  proven_of-earliest max_delay seq (c ∷ checkpoints) =
      let rest = proven_of-earliest max_delay seq checkpoints in
      elim (Option-cases (earliest_time parse c.gen_times)) [
        | inl absent ↦ elim (Bool-cases (ltb seq c.tree_size)) [
          | inl inside ↦ rw (absent, inside) rest
          | inr outside ↦ rw (absent, outside) rest
        ]
        | inr (at, there) ↦ elim (Bool-cases (ltb seq c.tree_size)) [
          | inl inside ↦ rw (there, inside) (ap (least (some at)) rest)
          | inr outside ↦ rw (there, outside) rest
        ]
      ]

  insert_by_size-earliest_proof :
      (seq : ℕ) (c : CheckpointTimes) (checkpoints : List CheckpointTimes)
      → earliest_proof parse seq (insert_by_size c checkpoints)
        ≡ earliest_proof parse seq (c ∷ checkpoints)
  unfolding insert_by_size earliest_proof
  insert_by_size-earliest_proof seq c [] = refl
  insert_by_size-earliest_proof seq c (other ∷ others) =
      let rest = insert_by_size-earliest_proof seq c others in
      let at = earliest_time parse c.gen_times in
      let at' = earliest_time parse other.gen_times in
      elim (Bool-cases (ltb other.tree_size c.tree_size)) [
        | inr larger ↦ rw larger refl
        | inl smaller ↦ elim (Bool-cases (ltb seq c.tree_size)) [
          | inl inside ↦ elim (Bool-cases (ltb seq other.tree_size)) [
            | inl inside' ↦
                let rest' = rw inside at (rest) in
                rw (smaller, inside, inside')
                  (ap (least at') rest' ∙ least_swap at' at (earliest_proof parse seq others))
            | inr outside' ↦ rw (smaller, inside, outside') (rw inside at (rest))
          ]
          | inr outside ↦ elim (Bool-cases (ltb seq other.tree_size)) [
            | inl inside' ↦ rw (smaller, outside, inside') (ap (least at') (rw outside at (rest)))
            | inr outside' ↦ rw (smaller, outside, outside') (rw outside at (rest))
          ]
        ]
      ]

  sort_by_size-earliest_proof :
      (seq : ℕ) (checkpoints : List CheckpointTimes)
      → earliest_proof parse seq (sort_by_size checkpoints) ≡ earliest_proof parse seq checkpoints
  unfolding sort_by_size earliest_proof
  sort_by_size-earliest_proof seq [] = refl
  sort_by_size-earliest_proof seq (c ∷ checkpoints) =
      let rest = sort_by_size-earliest_proof seq checkpoints in
      insert_by_size-earliest_proof seq c (sort_by_size checkpoints)
      ∙ ap
          (λ found.
            if ltb seq c.tree_size then least (earliest_time parse c.gen_times) found else found)
          rest

  pub ordered_proofs-IsSorted :
      (max_delay : ℕ) (checkpoints : List CheckpointTimes)
      → IsSorted 0 (proven_of (proofs_of parse max_delay (sort_by_size checkpoints)))
  ordered_proofs-IsSorted max_delay checkpoints =
      proven_of-IsSorted max_delay 0 (sort_by_size checkpoints) (sort_by_size-IsBySize checkpoints)

  pub ordered_proofs-earliest :
      (max_delay : ℕ) (checkpoints : List CheckpointTimes) (seq : ℕ)
      → earliest_holding seq (proven_of (proofs_of parse max_delay (sort_by_size checkpoints)))
        ≡ earliest_proof parse seq checkpoints
  ordered_proofs-earliest max_delay checkpoints seq =
      proven_of-earliest max_delay seq (sort_by_size checkpoints)
      ∙ sort_by_size-earliest_proof seq checkpoints

  -- Whatever the order of the checkpoints and whichever of them have times that can be read: the ranges
  -- give each receipt of the export the earliest time attested to a checkpoint whose tree includes it, and
  -- no time where there is none.
  pub anchor_times-existed_by :
      (receipts : List ReceiptTime) (checkpoints : List CheckpointTimes)
      (tolerance max_delay seq : ℕ)
      → first_of receipts ≤ seq
      → seq < end_of receipts
      → existed_by seq (anchor_times parse receipts checkpoints tolerance max_delay).ranges
        ≡ earliest_proof parse seq checkpoints
  unfolding anchor_times
  anchor_times-existed_by receipts checkpoints tolerance max_delay seq lo hi =
      let proven = proven_of (proofs_of parse max_delay (sort_by_size checkpoints)) in
      walk_down-existed_by receipts tolerance (first_of receipts) (end_of receipts) 0 seq proven
        (ordered_proofs-IsSorted max_delay checkpoints) (omega arith) lo hi
      ∙ ordered_proofs-earliest max_delay checkpoints seq
