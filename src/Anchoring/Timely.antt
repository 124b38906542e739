-- ===== src/Anchoring/Timely.antt =====
-- The check anchor-time finds nothing exactly when no receipt was received after the time of a tree that
-- includes it.
use mathlib.Core.List.{Memᴰ}
use mathlib.Core.List.Memᴰ
use sigillo.Common.{
  ℕ, ◌+◌, ◌≤◌, ◌<◌, ◌≡◌, ◌↔◌, refl, sym, ap, ◌∙◌, min, max, true, false, ◌&&◌, Option, none, some,
  List, [], ◌∷◌, ◌++◌, ltb, leb, arith, Bool-cases, inl, inr,
}
use sigillo.Anchoring.{
  Proven, ReceiptTime, Problem, least, first_after, time_error, sooner, Walked, round, walk_down,
}
use sigillo.Anchoring.Earliest.{IsSorted, earliest_holding, walk_down-earliest, sooner-least}

-- Of these receipts, those of the range were received by the limit.
abbrev AllBefore : ℕ → ℕ → ℕ → List ReceiptTime → Type 0
AllBefore from end limit receipts =
    (r : ReceiptTime) → Memᴰ r receipts → from ≤ r.seq → r.seq < end → r.received ≤ limit

first_after-none :
    (from end limit index : ℕ) (receipts : List ReceiptTime)
    → (first_after from end limit index receipts ≡ none) ↔ AllBefore from end limit receipts
unfolding first_after
first_after-none from end limit index [] = (λ h r m. elim m [ ], λ all. refl)
first_after-none from end limit index (q ∷ receipts) =
    let rest = first_after-none from end limit (index + 1) receipts in
    elim (Bool-cases (leb from q.seq && ltb q.seq end && ltb limit q.received)) [
      | inl late ↦ rw late (
        λ h. cc,
        λ all.
            let on_time = all q (Memᴰ.head refl) (ground (arith, late)) (ground (arith, late)) in
            absurd (ground (arith, late, on_time)),
      )
      | inr fine ↦ rw fine (
        λ h r m lo hi. elim (Memᴰ.cases_cons m) [
          | inl same ↦ rw (same) (in_time q fine (rw same at (lo)) (rw same at (hi)))
          | inr older ↦ rest.0 h r older lo hi
        ],
        λ all. rest.1 (λ r m. all r (Memᴰ.tail m)),
      )
    ]
  where
    in_time :
        (x : ReceiptTime)
        → (leb from x.seq && ltb x.seq end && ltb limit x.received) ≡ false
        → from ≤ x.seq
        → x.seq < end
        → x.received ≤ limit
    in_time x h lo hi = ground (arith, h)

pub append-empty : (xs ys : List Problem) → (xs ++ ys ≡ []) ↔ ((xs ≡ []) × (ys ≡ []))
append-empty [] ys = (λ h. (refl, h), λ h. h.1)
append-empty (x ∷ xs) ys = (λ h. cc, λ h. cc)

time_error-empty :
    (existed_by : ℕ) (found : Option (ℕ × ReceiptTime))
    → (time_error existed_by found ≡ []) ↔ (found ≡ none)
time_error-empty existed_by none = (λ h. refl, λ h. refl)
time_error-empty existed_by (some (index, r)) = (λ h. cc, λ h. cc)

module _ (receipts : List ReceiptTime) (tolerance first last : ℕ) where
  -- The receipts from `before` on were received before every tree that includes them was attested.
  abbrev pub AllTimely : ℕ → List Proven → Type 0
  AllTimely before entries =
      (r : ReceiptTime)
      → Memᴰ r receipts
      → before ≤ r.seq
      → first ≤ r.seq
      → r.seq < last
      → (at : ℕ) → earliest_holding r.seq entries ≡ some at
      → r.received ≤ at + tolerance

  -- What one round adds to the errors.
  round-errors :
      (before : ℕ) (entry : Proven) (w : Walked)
      → ((round receipts tolerance first last before entry w).errors ≡ []) ↔ (
          AllBefore
            (max first before)
            (min last entry.tree_size)
            (sooner entry.proven_at w.earliest + tolerance)
            receipts
          × (w.errors ≡ []))
  round-errors before entry w =
      let at = sooner entry.proven_at w.earliest in
      let found =
        first_after (max first before) (min last entry.tree_size) (at + tolerance) 0 receipts in
      elim (Bool-cases (leb (min last entry.tree_size) (max first before))) [
        | inl empty ↦
            rw empty (λ h. (λ r m lo hi. absurd (ground (arith, empty)), h), λ both. both.1)
        | inr holds ↦
            let joined = append-empty (time_error at found) w.errors in
            let error = time_error-empty at found in
            let late =
              first_after-none (max first before) (min last entry.tree_size) (at + tolerance) 0
                receipts in
            rw holds (
              λ h. (late.0 (error.0 (joined.0 h).0), (joined.0 h).1),
              λ both. joined.1 (error.1 (late.1 both.0), both.1),
            )
      ]

  pub walk_down-errors :
      (before : ℕ) (entries : List Proven)
      → IsSorted before entries
      → ((walk_down receipts tolerance first last before entries).errors ≡ [])
        ↔ AllTimely before entries
  unfolding walk_down earliest_holding
  walk_down-errors before [] sorted = (λ h r m above lo hi at there. cc, λ all. refl)
  walk_down-errors before (entry ∷ entries) sorted =
      let w = walk_down receipts tolerance first last entry.tree_size entries in
      let here = round-errors before entry w in
      let rest = walk_down-errors entry.tree_size entries sorted.1 in
      let time : (r : ReceiptTime)
          → r.seq < entry.tree_size
          → some (sooner entry.proven_at w.earliest) ≡ earliest_holding r.seq (entry ∷ entries) =
        λ r below.
          let inside : ltb r.seq entry.tree_size ≡ true = ground (arith, below) in
          rw (earliest_holding, inside)
            (sooner-least entry.proven_at w.earliest
              ∙ ap (λ found. least (some entry.proven_at) found)
                  (walk_down-earliest receipts tolerance first last entry.tree_size r.seq entries
                    sorted.1 below)) in
      (
        λ h r m above lo hi at there. elim (Bool-cases (ltb r.seq entry.tree_size)) [
          | inl inside ↦
              let below : r.seq < entry.tree_size = ground (arith, inside) in
              let same : some (sooner entry.proven_at w.earliest) ≡ some at =
                time r below ∙ there in
              let soonest : sooner entry.proven_at w.earliest ≡ at = cc in
              rw (← soonest)
                ((here.0 h).0 r m (ground (arith, above, lo)) (ground (arith, below, hi)))
          | inr outside ↦
              rest.0 (here.0 h).1 r m (ground (arith, outside)) lo hi at (rw outside at (there))
        ],
        λ all. here.1 (
          λ r m lo hi.
              all r m (ground (arith, lo)) (ground (arith, lo)) (ground (arith, hi))
                (sooner entry.proven_at w.earliest) (sym (time r (ground (arith, hi)))),
          rest.1 (λ r m above lo hi at there.
              let outside : ltb r.seq entry.tree_size ≡ false = ground (arith, above) in
              all r m (omega (arith, above, sorted.0)) lo hi at
                (rw (earliest_holding, outside) there)),
        ),
      )
