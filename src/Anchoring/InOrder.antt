-- ===== src/Anchoring/InOrder.antt =====
-- Checkpoints whose earliest times follow their sizes, whatever the order they are listed in.
use mathlib.Core.Path.{subst}
use sigillo.Common.{
  ℕ, ◌≤◌, ◌<◌, ◌≡◌, ◌↔◌, Option, some, List, [], ◌∷◌, ltb, arith, All, All-weaken, Bool-cases, inl,
  inr,
}
use sigillo.Text.{Text}
use sigillo.Anchoring.{CheckpointTimes, earliest_time, insert_by_size, sort_by_size}
use sigillo.Anchoring.Sorted.{IsBySize}
use sigillo.Anchoring.Attested.{IsEarliest, IsEarliest-unique, HasTime, earliest_time-IsEarliest}

All-both {ℓ} :
    {A : Type ℓ} (P Q R : A → Type 0) (xs : List A)
    → ((x : A) → P x → Q x → R x)
    → All P xs
    → All Q xs
    → All R xs
All-both P Q R [] f h k = tt
All-both P Q R (x ∷ xs) f h k = (f x h.0 k.0, All-both P Q R xs f h.1 k.1)

insert_by_size-All :
    (P : CheckpointTimes → Type 0) (c : CheckpointTimes) (checkpoints : List CheckpointTimes)
    → All P (insert_by_size c checkpoints) ↔ All P (c ∷ checkpoints)
unfolding insert_by_size
insert_by_size-All P c [] = (λ h. h, λ h. h)
insert_by_size-All P c (other ∷ others) =
    let rest = insert_by_size-All P c others in
    elim (Bool-cases (ltb other.tree_size c.tree_size)) [
      | inl smaller ↦
          rw smaller
            (λ h. ((rest.0 h.1).0, (h.0, (rest.0 h.1).1)), λ h. (h.1.0, rest.1 (h.0, h.1.1)))
      | inr larger ↦ rw larger (λ h. h, λ h. h)
    ]

sort_by_size-All :
    (P : CheckpointTimes → Type 0) (checkpoints : List CheckpointTimes)
    → All P (sort_by_size checkpoints) ↔ All P checkpoints
unfolding sort_by_size
sort_by_size-All P [] = (λ h. h, λ h. h)
sort_by_size-All P (c ∷ checkpoints) =
    let rest = sort_by_size-All P checkpoints in
    let here = insert_by_size-All P c (sort_by_size checkpoints) in
    (λ h. ((here.0 h).0, rest.0 (here.0 h).1), λ h. here.1 (h.0, rest.1 h.1))

module _ (parse : Text → Option ℕ) where
  -- Where both have a time, the earliest of the first is not after the earliest of the second.
  abbrev pub IsNotAfter : CheckpointTimes → CheckpointTimes → Type 0
  IsNotAfter c d =
      (m n : ℕ)
      → IsEarliest (HasTime parse c.gen_times) (some m)
      → IsEarliest (HasTime parse d.gen_times) (some n)
      → m ≤ n

  -- Of two checkpoints, the first one listed before the other: the one with the smaller tree, or the
  -- first where they are of one size, is not after the other.
  abbrev pub IsInOrder : CheckpointTimes → CheckpointTimes → Type 0
  IsInOrder c d =
      (c.tree_size ≤ d.tree_size → IsNotAfter c d) × (d.tree_size < c.tree_size → IsNotAfter d c)

  abbrev pub AreInOrder : List CheckpointTimes → Type 0
  AreInOrder [] = Unit
  AreInOrder (c ∷ checkpoints) = All (IsInOrder c) checkpoints × AreInOrder checkpoints

  insert_by_size-AreInOrder :
      (c : CheckpointTimes) (checkpoints : List CheckpointTimes)
      → AreInOrder (insert_by_size c checkpoints) ↔ AreInOrder (c ∷ checkpoints)
  unfolding insert_by_size
  insert_by_size-AreInOrder c [] = (λ h. h, λ h. h)
  insert_by_size-AreInOrder c (other ∷ others) =
      let rest = insert_by_size-AreInOrder c others in
      let around = insert_by_size-All (IsInOrder other) c others in
      elim (Bool-cases (ltb other.tree_size c.tree_size)) [
        | inl smaller ↦ rw smaller (
          λ h.
              let this = (around.0 h.0).0 in
              let swapped : IsInOrder c other =
                (λ le. absurd (ground (arith, smaller, le)), λ lt. this.0 (omega (arith, lt))) in
              ((swapped, (rest.0 h.1).0), ((around.0 h.0).1, (rest.0 h.1).1)),
          λ h.
              let this = h.0.0 in
              let swapped : IsInOrder other c = (
                λ le. this.1 (ground (arith, smaller)),
                λ lt. absurd (ground (arith, smaller, lt)),
              ) in
              (around.1 (swapped, h.1.0), rest.1 (h.0.1, h.1.1)),
        )
        | inr larger ↦ rw larger (λ h. h, λ h. h)
      ]

  pub sort_by_size-AreInOrder :
      (checkpoints : List CheckpointTimes)
      → AreInOrder (sort_by_size checkpoints) ↔ AreInOrder checkpoints
  unfolding sort_by_size
  sort_by_size-AreInOrder [] = (λ h. h, λ h. h)
  sort_by_size-AreInOrder (c ∷ checkpoints) =
      let rest = sort_by_size-AreInOrder checkpoints in
      let all = sort_by_size-All (IsInOrder c) checkpoints in
      let here = insert_by_size-AreInOrder c (sort_by_size checkpoints) in
      (λ h. (all.0 (here.0 h).0, rest.0 (here.0 h).1), λ h. here.1 (all.1 h.0, rest.1 h.1))

  -- The same, of the times that the code computes.
  abbrev pub IsComputedBefore : CheckpointTimes → CheckpointTimes → Type 0
  IsComputedBefore c d =
      (m n : ℕ)
      → earliest_time parse c.gen_times ≡ some m
      → earliest_time parse d.gen_times ≡ some n
      → m ≤ n

  IsComputedBefore-IsNotAfter : (c d : CheckpointTimes) → IsComputedBefore c d ↔ IsNotAfter c d
  IsComputedBefore-IsNotAfter c d =
      let of_c = earliest_time-IsEarliest parse c.gen_times in
      let of_d = earliest_time-IsEarliest parse d.gen_times in
      (
        λ h m n first second.
            h m n (IsEarliest-unique (HasTime parse c.gen_times) _ (some m) of_c first)
              (IsEarliest-unique (HasTime parse d.gen_times) _ (some n) of_d second),
        λ h m n first second.
            h m n (subst (IsEarliest (HasTime parse c.gen_times)) first of_c)
              (subst (IsEarliest (HasTime parse d.gen_times)) second of_d),
      )

  abbrev pub AreComputedInOrder : List CheckpointTimes → Type 0
  AreComputedInOrder [] = Unit
  AreComputedInOrder (c ∷ checkpoints) =
      All (IsComputedBefore c) checkpoints × AreComputedInOrder checkpoints

  IsBySize-All :
      (before : ℕ) (checkpoints : List CheckpointTimes)
      → IsBySize before checkpoints
      → All (λ (d : CheckpointTimes). before ≤ d.tree_size) checkpoints
  IsBySize-All before [] sorted = tt
  IsBySize-All before (c ∷ checkpoints) sorted = (
    sorted.0,
    All-weaken (λ (d : CheckpointTimes). c.tree_size ≤ d.tree_size)
        (λ (d : CheckpointTimes). before ≤ d.tree_size) checkpoints
        (λ d le. omega (arith, le, sorted.0)) (IsBySize-All c.tree_size checkpoints sorted.1),
  )

  pub IsBySize-AreInOrder :
      (before : ℕ) (checkpoints : List CheckpointTimes)
      → IsBySize before checkpoints
      → AreComputedInOrder checkpoints ↔ AreInOrder checkpoints
  IsBySize-AreInOrder before [] sorted = (λ h. tt, λ h. tt)
  IsBySize-AreInOrder before (c ∷ checkpoints) sorted =
      let rest = IsBySize-AreInOrder c.tree_size checkpoints sorted.1 in
      let sizes = IsBySize-All c.tree_size checkpoints sorted.1 in
      (
        λ h. (
          All-both (λ (d : CheckpointTimes). c.tree_size ≤ d.tree_size) (IsComputedBefore c)
              (IsInOrder c) checkpoints
              (λ d le k. (
                λ fits. (IsComputedBefore-IsNotAfter c d).0 k,
                λ lt. absurd (omega (arith, le, lt)),
              ))
              sizes h.0,
          rest.0 h.1,
        ),
        λ h. (
          All-both (λ (d : CheckpointTimes). c.tree_size ≤ d.tree_size) (IsInOrder c)
              (IsComputedBefore c) checkpoints
              (λ d le k. (IsComputedBefore-IsNotAfter c d).1 (k.0 le)) sizes h.0,
          rest.1 h.1,
        ),
      )
