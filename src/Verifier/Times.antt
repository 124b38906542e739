-- ===== src/Verifier/Times.antt =====
-- verify.ts, `anchorTimesOf`: the attested times of an export that has verified.
use mathlib.Core.Path.{subst}
use mathlib.Core.List.{Memᴰ}
use mathlib.Core.List.Memᴰ
use sigillo.Anchoring.Attested.{IsEarliest, IsEarliest-same, Attests, earliest_proof-IsEarliest}
use sigillo.Common.{
  ℕ, ◌+◌, ◌≤◌, ◌<◌, ◌≡◌, ap, Option, some, List, [], ◌∷◌, ◌++◌, length, ok, arith, if◌then◌else◌,
  ◌≢◌, ◌⊎◌, ◌↔◌, inl, inr, sym, refl, ◌∙◌, map, true, false, Bool-cases,
}
use sigillo.Text.{Text, text_eq, text_eq_iff}
use sigillo.Platform.{Platform}
use sigillo.Receipt.{Receipt}
use sigillo.Anchoring.{CheckpointTimes, ReceiptTime, AnchorTimes, anchor_times, first_of, end_of}
use sigillo.Anchoring.Earliest.{existed_by}
use sigillo.Anchoring.Sorted.{earliest_proof, anchor_times-existed_by}
use sigillo.Verifier.{ExportTimestamp, CheckpointEntry, Bundle}
use sigillo.Verifier.Chain.Sound.{NumberedFrom}
use sigillo.Verifier.Verify.{Verified, verify_bundle, verify_bundle-IsVerified}

-- `genTimes.get(stamp.file) ?? []`
unfoldable pub gen_time_get : Text → List (Text × Text) → List Text
gen_time_get file [] = []
gen_time_get file ((other, time) ∷ gen_times) =
    if text_eq other file then time ∷ [] else gen_time_get file gen_times

unfoldable pub gen_times_of : List (Text × Text) → List ExportTimestamp → List Text
unfolding gen_time_get
gen_times_of gen_times [] = []
gen_times_of gen_times (stamp ∷ stamps) =
    gen_time_get stamp.file gen_times ++ gen_times_of gen_times stamps

unfoldable pub linked_times : List (Text × Text) → List (ℕ × CheckpointEntry) → List CheckpointTimes
unfolding gen_times_of
linked_times gen_times [] = []
linked_times gen_times ((line, entry) ∷ entries) =
    record {
      line = line;
      tree_size = entry.checkpoint.tree_size;
      ts = entry.checkpoint.ts;
      gen_times = gen_times_of gen_times entry.timestamps;
    }
    ∷ linked_times gen_times entries

-- The time that the table gives a file: the one beside its first mention.
abbrev pub IsTimeOf : Text → Text → List (Text × Text) → Type 0
IsTimeOf file time [] = ⊥
IsTimeOf file time ((other, found) ∷ gen_times) =
    ((other ≡ file) × (time ≡ found)) ⊎ ((other ≢ file) × IsTimeOf file time gen_times)

gen_time_get-IsTimeOf :
    (file time : Text) (gen_times : List (Text × Text))
    → Memᴰ time (gen_time_get file gen_times) ↔ IsTimeOf file time gen_times
unfolding gen_time_get
gen_time_get-IsTimeOf file time [] = (λ m. elim m [ ], λ h. absurd h)
gen_time_get-IsTimeOf file time ((other, found) ∷ gen_times) =
    let rest = gen_time_get-IsTimeOf file time gen_times in
    let named = text_eq_iff other file in
    elim (Bool-cases (text_eq other file)) [
      | inl here ↦ rw here (
        λ m. elim (Memᴰ.cases_cons m) [
          | inl same ↦ inl (named.0 here, same)
          | inr none_left ↦ elim none_left [ ]
        ],
        λ h. elim h [
          | inl this ↦ Memᴰ.head this.1
          | inr other_file ↦ absurd (other_file.0 (named.0 here))
        ],
      )
      | inr differs ↦
          let apart : other ≢ file =
            λ same. let clash : true ≡ false = sym (named.1 same) ∙ differs in cc in
          rw differs (
            λ m. inr (apart, rest.0 m),
            λ h. elim h [ inl this ↦ absurd (apart this.0) | inr later ↦ rest.1 later.1 ],
          )
    ]

-- A stamp among these whose file has this time in the table.
pub record IsStamped (gen_times : List (Text × Text)) (stamps : List ExportTimestamp) (time : Text)
    : Type 0 where
  pub stamp : ExportTimestamp
  pub attached : Memᴰ stamp stamps
  pub filed : IsTimeOf stamp.file time gen_times

gen_times_of-IsStamped :
    (gen_times : List (Text × Text)) (stamps : List ExportTimestamp) (time : Text)
    → Memᴰ time (gen_times_of gen_times stamps) ↔ IsStamped gen_times stamps time
unfolding gen_times_of
gen_times_of-IsStamped gen_times [] time = (λ m. elim m [ ], λ h. elim h.attached [ ])
gen_times_of-IsStamped gen_times (stamp ∷ stamps) time =
    let rest = gen_times_of-IsStamped gen_times stamps time in
    let here = gen_time_get-IsTimeOf stamp.file time gen_times in
    (
      λ m. elim (Memᴰ.append_cases (gen_time_get stamp.file gen_times) m) [
        | inl own ↦ record { stamp = stamp; attached = Memᴰ.head refl; filed = here.0 own }
        | inr later ↦
            let found = rest.0 later in
            record { stamp = found.stamp; attached = Memᴰ.tail found.attached; filed = found.filed }
      ],
      λ h. elim (Memᴰ.cases_cons h.attached) [
        | inl same ↦
            Memᴰ.append_left (gen_times_of gen_times stamps) (
              here.1 (subst (λ (s : ExportTimestamp). IsTimeOf s.file time gen_times) same h.filed))
        | inr older ↦
            let found : IsStamped gen_times stamps time = record {
              stamp = h.stamp;
              attached = older;
              filed = h.filed;
            } in
            Memᴰ.append_right (gen_time_get stamp.file gen_times) (rest.1 found)
      ],
    )

-- A checkpoint tied to the receipts whose tree includes the one with this number, and a stamp on it
-- whose token attests this time.
pub record IsAttested (parse : Text → Option ℕ) (gen_times : List (Text × Text))
    (linked : List (ℕ × CheckpointEntry)) (seq at : ℕ) : Type 0 where
  pub line : ℕ × CheckpointEntry
  pub tied : Memᴰ line linked
  pub includes : seq < (line.1).checkpoint.tree_size
  pub time : Text
  pub stamped : IsStamped gen_times (line.1).timestamps time
  pub reads : parse time ≡ some at

abbrev times_of : List (Text × Text) → (ℕ × CheckpointEntry) → CheckpointTimes
times_of gen_times line = record {
  line = line.0;
  tree_size = (line.1).checkpoint.tree_size;
  ts = (line.1).checkpoint.ts;
  gen_times = gen_times_of gen_times (line.1).timestamps;
}

linked_times-map :
    (gen_times : List (Text × Text)) (linked : List (ℕ × CheckpointEntry))
    → linked_times gen_times linked ≡ map (times_of gen_times) linked
unfolding linked_times
linked_times-map gen_times [] = refl
linked_times-map gen_times (line ∷ linked) =
    ap (λ more. times_of gen_times line ∷ more) (linked_times-map gen_times linked)

module _ (parse : Text → Option ℕ) (gen_times : List (Text × Text)) where
  Attests-IsAttested :
      (linked : List (ℕ × CheckpointEntry)) (seq at : ℕ)
      → Attests parse seq (linked_times gen_times linked) at
      → IsAttested parse gen_times linked seq at
  Attests-IsAttested linked seq at h =
      let listed : Memᴰ h.checkpoint (map (times_of gen_times) linked) =
        rw (← linked_times-map gen_times linked) (h.listed) in
      let found = Memᴰ.of_map (times_of gen_times) linked listed in
      let same : times_of gen_times found.0 ≡ h.checkpoint = found.2 in
      let among =
        subst (λ (c : CheckpointTimes). Memᴰ h.dated.time c.gen_times) (sym same) h.dated.among in
      record {
        line = found.0;
        tied = found.1;
        includes = subst (λ (c : CheckpointTimes). seq < c.tree_size) (sym same) h.includes;
        time = h.dated.time;
        stamped = (gen_times_of-IsStamped gen_times _ h.dated.time).0 among;
        reads = h.dated.reads;
      }

  IsAttested-Attests :
      (linked : List (ℕ × CheckpointEntry)) (seq at : ℕ)
      → IsAttested parse gen_times linked seq at
      → Attests parse seq (linked_times gen_times linked) at
  IsAttested-Attests linked seq at h =
      let listed : Memᴰ (times_of gen_times h.line) (linked_times gen_times linked) =
        rw (linked_times-map gen_times linked) (Memᴰ.map (times_of gen_times) h.tied) in
      record {
        checkpoint = times_of gen_times h.line;
        listed = listed;
        includes = h.includes;
        dated = record {
          time = h.time;
          among = (gen_times_of-IsStamped gen_times (h.line.1).timestamps h.time).1 h.stamped;
          reads = h.reads;
        };
      }

module _ (p : Platform) where
  abbrev pub receipt_times : List Receipt → List ReceiptTime
  receipt_times [] = []
  receipt_times (r ∷ receipts) =
      record { seq = r.seq; received = p.date_parse r.ts_received } ∷ receipt_times receipts

  unfoldable pub anchor_times_of :
      (Text → Option ℕ) → Verified → List (Text × Text) → ℕ → ℕ → AnchorTimes
  unfolding linked_times
  anchor_times_of parse v gen_times tolerance max_delay =
      anchor_times parse (receipt_times v.receipts) (linked_times gen_times v.linked_checkpoints)
        tolerance max_delay

  end_of-NumberedFrom :
      (n : ℕ) (r : Receipt) (receipts : List Receipt)
      → NumberedFrom n (r ∷ receipts)
      → end_of (receipt_times (r ∷ receipts)) ≡ n + length (r ∷ receipts)
  unfolding end_of
  end_of-NumberedFrom n r [] numbered = omega (arith, numbered.0)
  end_of-NumberedFrom n r (next ∷ receipts) numbered =
      omega (arith, end_of-NumberedFrom (n + 1) next receipts numbered.1)

  Memᴰ-bounds :
      (n : ℕ) (receipts : List Receipt) (r : Receipt)
      → NumberedFrom n receipts
      → Memᴰ r receipts
      → (n ≤ r.seq) × (r.seq < n + length receipts)
  Memᴰ-bounds n [] r numbered m = elim m [ ]
  Memᴰ-bounds n (x ∷ receipts) r numbered (Memᴰ.head e) =
      let same : r.seq ≡ x.seq = ap (λ (q : Receipt). q.seq) e in
      (omega (arith, same, numbered.0), omega (arith, same, numbered.0))
  Memᴰ-bounds n (x ∷ receipts) r numbered (Memᴰ.tail m) =
      let below = Memᴰ-bounds (n + 1) receipts r numbered.1 m in
      (omega (arith, below.0), omega (arith, below.1))

  module _ (trusted : Option (List Text)) where
    -- For every receipt of a bundle that verifyBundle accepts, the ranges of anchorTimesOf state a time
    -- that a stamp attests on a checkpoint tied to these receipts whose tree includes it, and no such
    -- stamp attests an earlier one; they state none exactly where no such stamp has a time.
    pub anchor_times_of-existed_by :
        (parse : Text → Option ℕ) (bundle : Bundle) {v : Verified} (gen_times : List (Text × Text))
        (tolerance max_delay : ℕ) (r : Receipt)
        → verify_bundle p trusted bundle ≡ ok v
        → Memᴰ r v.receipts
        → IsEarliest
            (IsAttested parse gen_times v.linked_checkpoints r.seq)
            (existed_by r.seq (anchor_times_of parse v gen_times tolerance max_delay).ranges)
    unfolding anchor_times_of
    anchor_times_of-existed_by parse bundle {v} gen_times tolerance max_delay r h m =
        let verified = verify_bundle-IsVerified p trusted bundle h in
        let whole = verified.same_receipts in
        let numbered = verified.chain.numbered in
        let bounds =
          Memᴰ-bounds verified.first.seq (verified.first ∷ verified.more) r numbered
            (rw whole at (m)) in
        let ends = end_of-NumberedFrom verified.first.seq verified.first verified.more numbered in
        let lo : first_of (receipt_times v.receipts) ≤ r.seq = rw whole (bounds.0) in
        let hi : r.seq < end_of (receipt_times v.receipts) =
          rw whole (omega (arith, bounds.1, ends)) in
        let entries = linked_times gen_times v.linked_checkpoints in
        let stated =
          anchor_times-existed_by parse (receipt_times v.receipts) entries tolerance max_delay r.seq
            lo hi in
        subst (IsEarliest (IsAttested parse gen_times v.linked_checkpoints r.seq)) (sym stated) (
          IsEarliest-same (Attests parse r.seq entries)
            (IsAttested parse gen_times v.linked_checkpoints r.seq)
            (earliest_proof parse r.seq entries)
            (Attests-IsAttested parse gen_times v.linked_checkpoints r.seq)
            (IsAttested-Attests parse gen_times v.linked_checkpoints r.seq)
            (earliest_proof-IsEarliest parse r.seq entries))
