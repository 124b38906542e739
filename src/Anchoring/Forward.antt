-- ===== src/Anchoring/Forward.antt =====
-- The check anchor-order finds nothing exactly when no two checkpoints have times that go backwards.
use mathlib.Core.Path.{subst}
use sigillo.Common.{
  ℕ, ◌≤◌, ◌≡◌, ◌↔◌, refl, sym, ◌∙◌, Option, none, some, List, [], ◌∷◌, ltb, arith, All, All-weaken,
  Bool-cases, Option-cases, inl, inr,
}
use sigillo.Text.{Text}
use sigillo.Anchoring.{
  CheckpointTimes, Proven, earliest_time, sort_by_size, proof_at, proofs_of, if_proven, proven_of,
  order_errors,
}
use sigillo.Anchoring.Sorted.{sort_by_size-IsBySize}
use sigillo.Anchoring.InOrder.{
  AreInOrder, sort_by_size-AreInOrder, IsComputedBefore, AreComputedInOrder, IsBySize-AreInOrder,
}

-- Each time is not before the one before it.
abbrev IsForward : Option ℕ → List Proven → Type 0
IsForward latest [] = Unit
IsForward none (entry ∷ entries) = IsForward (some entry.proven_at) entries
IsForward (some latest) (entry ∷ entries) =
    (latest ≤ entry.proven_at) × IsForward (some entry.proven_at) entries

order_errors-IsForward :
    (latest : Option ℕ) (entries : List Proven)
    → (order_errors latest entries ≡ []) ↔ IsForward latest entries
unfolding order_errors
order_errors-IsForward none [] = (λ h. tt, λ h. refl)
order_errors-IsForward (some latest) [] = (λ h. tt, λ h. refl)
order_errors-IsForward none (entry ∷ entries) =
    order_errors-IsForward (some entry.proven_at) entries
order_errors-IsForward (some latest) (entry ∷ entries) =
    let rest = order_errors-IsForward (some entry.proven_at) entries in
    elim (Bool-cases (ltb entry.proven_at latest)) [
      | inl backwards ↦ rw backwards (λ h. cc, λ both. absurd (ground (arith, backwards, both.0)))
      | inr forward ↦ rw forward (λ h. (ground (arith, forward), rest.0 h), λ both. rest.1 both.1)
    ]

-- No time is after a later one.
abbrev IsMonotone : List Proven → Type 0
IsMonotone [] = Unit
IsMonotone (entry ∷ entries) =
    All (λ (d : Proven). entry.proven_at ≤ d.proven_at) entries × IsMonotone entries

IsForward-IsMonotone :
    (latest : ℕ) (entries : List Proven)
    → IsForward (some latest) entries
    → All (λ (d : Proven). latest ≤ d.proven_at) entries × IsMonotone entries
IsForward-IsMonotone latest [] h = (tt, tt)
IsForward-IsMonotone latest (entry ∷ entries) h =
    let rest = IsForward-IsMonotone entry.proven_at entries h.1 in
    let above =
      All-weaken (λ (d : Proven). entry.proven_at ≤ d.proven_at)
        (λ (d : Proven). latest ≤ d.proven_at) entries (λ d le. omega (arith, le, h.0)) rest.0 in
    ((h.0, above), rest)

IsMonotone-IsForward :
    (latest : ℕ) (entries : List Proven)
    → All (λ (d : Proven). latest ≤ d.proven_at) entries
    → IsMonotone entries
    → IsForward (some latest) entries
IsMonotone-IsForward latest [] all h = tt
IsMonotone-IsForward latest (entry ∷ entries) all h =
    (all.0, IsMonotone-IsForward entry.proven_at entries h.0 h.1)

order_errors-IsMonotone :
    (entries : List Proven) → (order_errors none entries ≡ []) ↔ IsMonotone entries
order_errors-IsMonotone [] =
    let empty = order_errors-IsForward none [] in (λ h. tt, λ h. empty.1 tt)
order_errors-IsMonotone (entry ∷ entries) =
    let found = order_errors-IsForward none (entry ∷ entries) in
    (
      λ h. IsForward-IsMonotone entry.proven_at entries (found.0 h),
      λ h. found.1 (IsMonotone-IsForward entry.proven_at entries h.0 h.1),
    )

All-any {ℓ} : {A : Type ℓ} (P : A → Type 0) (xs : List A) → ((x : A) → P x) → All P xs
All-any P [] f = tt
All-any P (x ∷ xs) f = (f x, All-any P xs f)

module _ (parse : Text → Option ℕ) (max_delay : ℕ) where
  proven_of-absent :
      (c : CheckpointTimes) (checkpoints : List CheckpointTimes)
      → earliest_time parse c.gen_times ≡ none
      → proven_of (proofs_of parse max_delay (c ∷ checkpoints))
        ≡ proven_of (proofs_of parse max_delay checkpoints)
  unfolding proofs_of proven_of
  proven_of-absent c checkpoints absent = rw absent refl

  proven_of-there :
      (c : CheckpointTimes) (checkpoints : List CheckpointTimes) (at : ℕ)
      → earliest_time parse c.gen_times ≡ some at
      → proven_of (proofs_of parse max_delay (c ∷ checkpoints))
        ≡ if_proven
            (proof_at parse max_delay c (some at))
            (some at)
            (proven_of (proofs_of parse max_delay checkpoints))
  unfolding proofs_of proven_of
  proven_of-there c checkpoints at there = rw there refl

  -- None of the times computed is before this one.
  abbrev IsFrom : ℕ → CheckpointTimes → Type 0
  IsFrom m d = (n : ℕ) → earliest_time parse d.gen_times ≡ some n → m ≤ n

  proven_of-IsFrom :
      (m : ℕ) (checkpoints : List CheckpointTimes)
      → All (λ (d : Proven). m ≤ d.proven_at) (proven_of (proofs_of parse max_delay checkpoints))
        ↔ All (IsFrom m) checkpoints
  unfolding proofs_of proven_of
  proven_of-IsFrom m [] = (λ h. tt, λ h. tt)
  proven_of-IsFrom m (c ∷ checkpoints) =
      let rest = proven_of-IsFrom m checkpoints in
      elim (Option-cases (earliest_time parse c.gen_times)) [
        | inl absent ↦
            let same = proven_of-absent c checkpoints absent in
            (
              λ h. (
                λ n e. let clash : none ≡ some n = sym absent ∙ e in cc,
                rest.0 (subst (All (λ (d : Proven). m ≤ d.proven_at)) same h),
              ),
              λ h. subst (All (λ (d : Proven). m ≤ d.proven_at)) (sym same) (rest.1 h.1),
            )
        | inr (at, there) ↦
            let same = proven_of-there c checkpoints at there in
            (
              λ h.
                  let all = subst (All (λ (d : Proven). m ≤ d.proven_at)) same h in
                  (
                    λ n e.
                        let both : some at ≡ some n = sym there ∙ e in
                        let one : at ≡ n = cc in omega (arith, one, all.0),
                    rest.0 all.1,
                  ),
              λ h.
                  subst (All (λ (d : Proven). m ≤ d.proven_at)) (sym same)
                    (h.0 at there, rest.1 h.1),
            )
      ]

  proven_of-AreComputedInOrder :
      (checkpoints : List CheckpointTimes)
      → IsMonotone (proven_of (proofs_of parse max_delay checkpoints))
        ↔ AreComputedInOrder parse checkpoints
  unfolding proofs_of proven_of
  proven_of-AreComputedInOrder [] = (λ h. tt, λ h. tt)
  proven_of-AreComputedInOrder (c ∷ checkpoints) =
      let rest = proven_of-AreComputedInOrder checkpoints in
      elim (Option-cases (earliest_time parse c.gen_times)) [
        | inl absent ↦
            let same = proven_of-absent c checkpoints absent in
            (
              λ h. (
                All-any (IsComputedBefore parse c) checkpoints
                    (λ d m n first second. let clash : none ≡ some m = sym absent ∙ first in cc),
                rest.0 (subst IsMonotone same h),
              ),
              λ h. subst IsMonotone (sym same) (rest.1 h.1),
            )
        | inr (at, there) ↦
            let same = proven_of-there c checkpoints at there in
            let later = proven_of-IsFrom at checkpoints in
            (
              λ h.
                  let all = subst IsMonotone same h in
                  (
                    All-weaken (IsFrom at) (IsComputedBefore parse c) checkpoints
                        (λ d from m n first second.
                          let both : some at ≡ some m = sym there ∙ first in
                          let one : at ≡ m = cc in let le = from n second in omega (arith, one, le))
                        (later.0 all.0),
                    rest.0 all.1,
                  ),
              λ h. subst IsMonotone (sym same) (
                later.1 (
                    All-weaken (IsComputedBefore parse c) (IsFrom at) checkpoints
                      (λ d before n second. before at n there second) h.0),
                rest.1 h.1,
              ),
            )
      ]

  pub order_errors-AreInOrder :
      (checkpoints : List CheckpointTimes)
      → (order_errors none (proven_of (proofs_of parse max_delay (sort_by_size checkpoints))) ≡ [])
        ↔ AreInOrder parse checkpoints
  order_errors-AreInOrder checkpoints =
      let sorted = sort_by_size checkpoints in
      let none_found = order_errors-IsMonotone (proven_of (proofs_of parse max_delay sorted)) in
      let computed = proven_of-AreComputedInOrder sorted in
      let by_size = IsBySize-AreInOrder parse 0 sorted (sort_by_size-IsBySize checkpoints) in
      let listed = sort_by_size-AreInOrder parse checkpoints in
      (
        λ h. listed.0 (by_size.0 (computed.0 (none_found.0 h))),
        λ h. none_found.1 (computed.1 (by_size.1 (listed.1 h))),
      )
