-- ===== src/Anchoring/Earliest.antt =====
-- What a range says of a receipt is the earliest attested time of a tree that holds it.
use sigillo.Common.{
  ℕ, ◌≤◌, ◌<◌, ◌≡◌, refl, ◌∙◌, min, max, true, false, ◌&&◌, Option, none, some, List, [], ◌∷◌, ltb,
  leb, if◌then◌else◌, arith, Bool-cases, inl, inr,
}
use sigillo.Anchoring.{Proven, ReceiptTime, Range, least, sooner, Walked, round, walk_down}

-- The time the ranges give a receipt, if one of them holds it.
unfoldable pub existed_by : ℕ → List Range → Option ℕ
existed_by seq [] = none
existed_by seq (range ∷ ranges) =
    let rest = existed_by seq ranges in
    if leb range.from_seq seq && ltb seq range.end then some range.existed_by else rest

-- The earliest time of a tree that includes the receipt with this number.
unfoldable pub earliest_holding : ℕ → List Proven → Option ℕ
earliest_holding seq [] = none
earliest_holding seq (entry ∷ entries) =
    let rest = earliest_holding seq entries in
    if ltb seq entry.tree_size then least (some entry.proven_at) rest else rest

-- By size, from a size on.
abbrev pub IsSorted : ℕ → List Proven → Type 0
IsSorted before [] = Unit
IsSorted before (entry ∷ entries) = (before ≤ entry.tree_size) × IsSorted entry.tree_size entries

pub sooner-least : (at : ℕ) (other : Option ℕ) → some (sooner at other) ≡ least (some at) other
sooner-least at none = refl
sooner-least at (some other) = ground arith

module _ (receipts : List ReceiptTime) (tolerance first last : ℕ) where
  round-earliest :
      (before : ℕ) (entry : Proven) (w : Walked)
      → (round receipts tolerance first last before entry w).earliest
        ≡ some (sooner entry.proven_at w.earliest)
  round-earliest before entry w =
      elim (Bool-cases (leb (min last entry.tree_size) (max first before))) [
        | inl empty ↦ rw empty refl
        | inr holds ↦ rw holds refl
      ]

  round-existed_by :
      (before seq : ℕ) (entry : Proven) (w : Walked)
      → existed_by seq (round receipts tolerance first last before entry w).ranges ≡ (
          if leb (max first before) seq && ltb seq (min last entry.tree_size)
          then some (sooner entry.proven_at w.earliest)
          else existed_by seq w.ranges)
  unfolding existed_by
  round-existed_by before seq entry w =
      elim (Bool-cases (leb (min last entry.tree_size) (max first before))) [
        | inl empty ↦
            let outside : (leb (max first before) seq && ltb seq (min last entry.tree_size))
                ≡ false =
              ground (arith, empty) in
            rw (empty, outside) refl
        | inr holds ↦ rw holds refl
      ]

  -- Where every tree holds the receipt, the walk has the earliest time of all.
  pub walk_down-earliest :
      (before seq : ℕ) (entries : List Proven)
      → IsSorted before entries
      → seq < before
      → (walk_down receipts tolerance first last before entries).earliest
        ≡ earliest_holding seq entries
  unfolding walk_down earliest_holding
  walk_down-earliest before seq [] sorted below = refl
  walk_down-earliest before seq (entry ∷ entries) sorted below =
      let inside : ltb seq entry.tree_size ≡ true = ground (arith, sorted.0) in
      let rest =
        walk_down-earliest entry.tree_size seq entries sorted.1 (omega (arith, sorted.0)) in
      let w = walk_down receipts tolerance first last entry.tree_size entries in
      rw (inside, ← rest) (round-earliest before entry w ∙ sooner-least entry.proven_at w.earliest)

  -- The ranges give each receipt from `before` on the earliest time of a tree that holds it.
  pub walk_down-existed_by :
      (before seq : ℕ) (entries : List Proven)
      → IsSorted before entries
      → before ≤ seq
      → first ≤ seq
      → seq < last
      → existed_by seq (walk_down receipts tolerance first last before entries).ranges
        ≡ earliest_holding seq entries
  unfolding walk_down existed_by earliest_holding
  walk_down-existed_by before seq [] sorted above lo hi = refl
  walk_down-existed_by before seq (entry ∷ entries) sorted above lo hi =
      let w = walk_down receipts tolerance first last entry.tree_size entries in
      let here = round-existed_by before seq entry w in
      elim (Bool-cases (ltb seq entry.tree_size)) [
        | inl inside ↦
            let holds : (leb (max first before) seq && ltb seq (min last entry.tree_size)) ≡ true =
              ground (arith, inside) in
            let rest =
              walk_down-earliest entry.tree_size seq entries sorted.1 (ground (arith, inside)) in
            rw (inside, ← rest) (rw holds at (here) ∙ sooner-least entry.proven_at w.earliest)
        | inr outside ↦
            let past : (leb (max first before) seq && ltb seq (min last entry.tree_size)) ≡ false =
              ground (arith, outside) in
            rw outside (
              rw past at (here)
              ∙ walk_down-existed_by entry.tree_size seq entries sorted.1 (ground (arith, outside))
                  lo hi)
      ]
