-- ===== src/Anchoring/Attested.antt =====
-- What the attested times of checkpoints are, whatever the order in which the code looks at them.
use mathlib.Core.Path.{subst}
use mathlib.Core.List.{Memᴰ}
use mathlib.Core.List.Memᴰ
use sigillo.Common.{
  ℕ, ◌≤◌, ◌<◌, ◌≡◌, ◌⊎◌, refl, sym, ap, ◌∙◌, Option, none, some, List, [], ◌∷◌, ltb, arith,
  Bool-cases, Option-cases, inl, inr,
}
use sigillo.Text.{Text}
use sigillo.Anchoring.{CheckpointTimes, least, earliest_time}
use sigillo.Anchoring.Sorted.{earliest_proof}

-- The least number with a property, or none where no number has it.
abbrev pub IsEarliest : (ℕ → Type 0) → Option ℕ → Type 0
IsEarliest P none = (at : ℕ) → ¬ P at
IsEarliest P (some first) = P first × ((at : ℕ) → P at → first ≤ at)

pub IsEarliest-unique : (P : ℕ → Type 0) (a b : Option ℕ) → IsEarliest P a → IsEarliest P b → a ≡ b
IsEarliest-unique P none none h k = refl
IsEarliest-unique P none (some n) h k = absurd (h n k.0)
IsEarliest-unique P (some m) none h k = absurd (k m h.0)
IsEarliest-unique P (some m) (some n) h k =
    let same : m ≡ n = omega (arith, h.1 n k.0, k.1 m h.0) in ap some same

pub IsEarliest-same :
    (P Q : ℕ → Type 0) (a : Option ℕ)
    → ((at : ℕ) → P at → Q at)
    → ((at : ℕ) → Q at → P at)
    → IsEarliest P a
    → IsEarliest Q a
IsEarliest-same P Q none to from h = λ at q. h at (from at q)
IsEarliest-same P Q (some m) to from h = (to m h.0, λ at q. h.1 at (from at q))

-- The earlier of two earliest numbers is the earliest that has one property or the other.
least-IsEarliest :
    (P Q R : ℕ → Type 0) (a b : Option ℕ)
    → ((at : ℕ) → P at → R at)
    → ((at : ℕ) → Q at → R at)
    → ((at : ℕ) → R at → P at ⊎ Q at)
    → IsEarliest P a
    → IsEarliest Q b
    → IsEarliest R (least a b)
least-IsEarliest P Q R none none left right split h k =
    λ at r. elim (split at r) [ inl p ↦ h at p | inr q ↦ k at q ]
least-IsEarliest P Q R none (some n) left right split h k =
    (right n k.0, λ at r. elim (split at r) [ inl p ↦ absurd (h at p) | inr q ↦ k.1 at q ])
least-IsEarliest P Q R (some m) none left right split h k =
    (left m h.0, λ at r. elim (split at r) [ inl p ↦ h.1 at p | inr q ↦ absurd (k at q) ])
least-IsEarliest P Q R (some m) (some n) left right split h k = elim (Bool-cases (ltb n m)) [
  | inl sooner ↦ rw sooner (
    right n k.0,
    λ at r. elim (split at r) [
      | inl p ↦ let after = h.1 at p in ground (arith, sooner, after)
      | inr q ↦ k.1 at q
    ],
  )
  | inr not_sooner ↦ rw not_sooner (
    left m h.0,
    λ at r. elim (split at r) [
      | inl p ↦ h.1 at p
      | inr q ↦ let after = k.1 at q in ground (arith, not_sooner, after)
    ],
  )
]

option-IsEarliest : (a : Option ℕ) → IsEarliest (λ at. a ≡ some at) a
option-IsEarliest none = λ at e. cc
option-IsEarliest (some m) = (refl, λ at e. let same : m ≡ at = cc in omega (arith, same))

module _ (parse : Text → Option ℕ) where
  -- One of these texts is this time.
  pub record HasTime (times : List Text) (at : ℕ) : Type 0 where
    pub time : Text
    pub among : Memᴰ time times
    pub reads : parse time ≡ some at

  pub earliest_time-IsEarliest :
      (times : List Text) → IsEarliest (HasTime times) (earliest_time parse times)
  unfolding earliest_time
  earliest_time-IsEarliest [] = λ at h. elim h.among [ ]
  earliest_time-IsEarliest (time ∷ times) =
      least-IsEarliest (λ at. parse time ≡ some at) (HasTime times) (HasTime (time ∷ times))
        (parse time) (earliest_time parse times)
        (λ at e. record { time = time; among = Memᴰ.head refl; reads = e })
        (λ at h. record { time = h.time; among = Memᴰ.tail h.among; reads = h.reads })
        (λ at h. elim (Memᴰ.cases_cons h.among) [
          | inl same ↦ inl (ap parse (sym same) ∙ h.reads)
          | inr older ↦ inr (record { time = h.time; among = older; reads = h.reads })
        ])
        (option-IsEarliest (parse time)) (earliest_time-IsEarliest times)

  -- One of these checkpoints has this time and a tree that includes the receipt with this number.
  pub record Attests (seq : ℕ) (checkpoints : List CheckpointTimes) (at : ℕ) : Type 0 where
    pub checkpoint : CheckpointTimes
    pub listed : Memᴰ checkpoint checkpoints
    pub includes : seq < checkpoint.tree_size
    pub dated : HasTime checkpoint.gen_times at

  Attests-tail :
      (seq : ℕ) (c : CheckpointTimes) (checkpoints : List CheckpointTimes) (at : ℕ)
      → Attests seq checkpoints at
      → Attests seq (c ∷ checkpoints) at
  Attests-tail seq c checkpoints at h = record {
    checkpoint = h.checkpoint;
    listed = Memᴰ.tail h.listed;
    includes = h.includes;
    dated = h.dated;
  }

  Attests-cons :
      (seq : ℕ) (c : CheckpointTimes) (checkpoints : List CheckpointTimes) (at : ℕ)
      → Attests seq (c ∷ checkpoints) at
      → ((seq < c.tree_size) × HasTime c.gen_times at) ⊎ Attests seq checkpoints at
  Attests-cons seq c checkpoints at h = elim (Memᴰ.cases_cons h.listed) [
    | inl same ↦ inl (rw (← same) (h.includes, h.dated))
    | inr older ↦ inr (record {
      checkpoint = h.checkpoint;
      listed = older;
      includes = h.includes;
      dated = h.dated;
    })
  ]

  pub earliest_proof-IsEarliest :
      (seq : ℕ) (checkpoints : List CheckpointTimes)
      → IsEarliest (Attests seq checkpoints) (earliest_proof parse seq checkpoints)
  unfolding earliest_proof
  earliest_proof-IsEarliest seq [] = λ at h. elim h.listed [ ]
  earliest_proof-IsEarliest seq (c ∷ checkpoints) =
      let rest = earliest_proof-IsEarliest seq checkpoints in
      elim (Bool-cases (ltb seq c.tree_size)) [
        | inl inside ↦ rw inside (
            least-IsEarliest (HasTime c.gen_times) (Attests seq checkpoints)
              (Attests seq (c ∷ checkpoints)) (earliest_time parse c.gen_times)
              (earliest_proof parse seq checkpoints)
              (λ at h. record {
                checkpoint = c;
                listed = Memᴰ.head refl;
                includes = ground (arith, inside);
                dated = h;
              })
              (Attests-tail seq c checkpoints)
              (λ at h. elim (Attests-cons seq c checkpoints at h) [
                | inl here ↦ inl here.1
                | inr later ↦ inr later
              ])
              (earliest_time-IsEarliest c.gen_times) rest)
        | inr outside ↦ rw outside (
            IsEarliest-same (Attests seq checkpoints) (Attests seq (c ∷ checkpoints))
              (earliest_proof parse seq checkpoints) (Attests-tail seq c checkpoints)
              (λ at h. elim (Attests-cons seq c checkpoints at h) [
                | inl here ↦ let below = here.0 in absurd (ground (arith, outside, below))
                | inr later ↦ later
              ])
              rest)
      ]

  pub earliest-Attests :
      (seq : ℕ) (checkpoints : List CheckpointTimes) (at : ℕ)
      → earliest_proof parse seq checkpoints ≡ some at
      → Attests seq checkpoints at
  earliest-Attests seq checkpoints at e =
      (subst (IsEarliest (Attests seq checkpoints)) e (earliest_proof-IsEarliest seq checkpoints)).0

  pub Attests-earliest :
      (seq : ℕ) (checkpoints : List CheckpointTimes) (at : ℕ)
      → Attests seq checkpoints at
      → (first : ℕ) × (earliest_proof parse seq checkpoints ≡ some first) × (first ≤ at)
  Attests-earliest seq checkpoints at h =
      let found = earliest_proof-IsEarliest seq checkpoints in
      elim (Option-cases (earliest_proof parse seq checkpoints)) [
        | inl absent ↦ absurd (subst (IsEarliest (Attests seq checkpoints)) absent found at h)
        | inr (first, there) ↦
            (first, there, (subst (IsEarliest (Attests seq checkpoints)) there found).1 at h)
      ]
