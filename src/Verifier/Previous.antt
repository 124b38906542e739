-- ===== src/Verifier/Previous.antt =====
-- `compareWithPrevious`: an export against an earlier one of the same chain. The value `null` of the
-- source is `ok`.
use sigillo.Common.{
  ℕ, ◌+◌, ◌≡◌, ◌≢◌, ◌⊎◌, ◌≤◌, refl, sym, Bool, true, false, not, ◌||◌, Option, none, some, List, [],
  ◌∷◌, if◌then◌else◌, ◌==◌, leb, Result, ok, err, ◌>>◌, ==_iff, >>=-eq-ok, guard-eq-ok, arith, All,
  leb→le, Bool-cases, inl, inr, ◌<◌, ◌∙◌, All-weaken,
}
use sigillo.Text.{Text, text_eq, text_eq_iff}
use sigillo.Receipt.{Receipt}
use sigillo.Platform.{Platform}
use sigillo.Verifier.{
  VerifierError, failed, require, manifest_file, receipts_file, receipt_line, previous_export,
}
use sigillo.Verifier.Chain.Sound.{hash_hex, NumberedFrom}
use sigillo.Verifier.Chain.{last_of}

abbrev pub HashMap : Type 0
HashMap = List (ℕ × Text)

unfoldable pub hash_get : ℕ → HashMap → Option Text
hash_get seq [] = none
hash_get seq ((other, hash) ∷ before) = if other == seq then some hash else hash_get seq before

abbrev pub agrees : Option Text → Text → Bool
agrees none hash = true
agrees (some earlier) hash = text_eq earlier hash

abbrev pub is_hash : Option Text → Text → Bool
is_hash none text = false
is_hash (some hash) text = text_eq text hash

module _ (p : Platform) where
  -- `new Map(previous.map(…))`: the last entry for a number counts.
  unfoldable pub hash_map : HashMap → List Receipt → HashMap
  hash_map before [] = before
  hash_map before (r ∷ receipts) = hash_map ((r.seq, hash_hex p r) ∷ before) receipts

  unfoldable pub check_same : HashMap → ℕ → List Receipt → Result VerifierError (Unit {0})
  check_same before n [] = ok tt
  check_same before n (r ∷ receipts) = do
    require (agrees (hash_get r.seq before) (hash_hex p r)) previous_export (receipt_line n)
    check_same before (n + 1) receipts

  unfoldable pub compare_with_previous :
      List Receipt → List Receipt → Result VerifierError (Unit {0})
  compare_with_previous [] previous = err (failed previous_export receipts_file)
  compare_with_previous (_ ∷ _) [] = err (failed previous_export receipts_file)
  compare_with_previous (first_now ∷ more) (b ∷ bs) = do
    let last_now = last_of first_now more
    let last_before = last_of b bs
    let before = hash_map [] (b ∷ bs)
    require (text_eq first_now.system_id last_before.system_id) previous_export manifest_file
    check_same before 1 (first_now ∷ more)
    require (leb last_before.seq last_now.seq) previous_export manifest_file
    require (leb first_now.seq (last_before.seq + 1)) previous_export (receipt_line 1)
    require
        (not (first_now.seq == last_before.seq + 1)
          || is_hash (hash_get last_before.seq before) first_now.prev_hash)
        previous_export (receipt_line 1)

  -- The receipts of the earlier export are unknown at a number, or the same there.
  abbrev pub Agrees : HashMap → Receipt → Type 0
  Agrees before r = (hash_get r.seq before ≡ none) ⊎ (hash_get r.seq before ≡ some (hash_hex p r))

  agrees-lem :
      (found : Option Text) (hash : Text)
      → agrees found hash ≡ true
      → (found ≡ none) ⊎ (found ≡ some hash)
  agrees-lem none hash h = inl refl
  agrees-lem (some earlier) hash h = inr (rw ((text_eq_iff earlier hash).0 h) refl)

  is_hash-lem : (found : Option Text) (text : Text) → is_hash found text ≡ true → found ≡ some text
  is_hash-lem none text h = cc
  is_hash-lem (some hash) text h = rw (sym ((text_eq_iff text hash).0 h)) refl

  check_same-Agrees :
      (before : HashMap) (n : ℕ) (receipts : List Receipt)
      → check_same before n receipts ≡ ok tt
      → All (Agrees before) receipts
  unfolding check_same
  check_same-Agrees before n [] h = tt
  check_same-Agrees before n (r ∷ receipts) h =
      let (same, more) =
        guard-eq-ok (agrees (hash_get r.seq before) (hash_hex p r))
          (failed previous_export (receipt_line n)) _ h in
      (
        agrees-lem (hash_get r.seq before) (hash_hex p r) same,
        check_same-Agrees before (n + 1) receipts more,
      )

  hash_map-below :
      (n seq : ℕ) (before : HashMap) (receipts : List Receipt)
      → NumberedFrom n receipts
      → seq < n
      → hash_get seq (hash_map before receipts) ≡ hash_get seq before
  unfolding hash_get hash_map
  hash_map-below n seq before [] numbered below = refl
  hash_map-below n seq before (r ∷ receipts) numbered below =
      let other : (r.seq == seq) ≡ false = ground (arith, numbered.0) in
      hash_map-below (n + 1) seq ((r.seq, hash_hex p r) ∷ before) receipts numbered.1
        (omega (arith, below))
      ∙ rw (hash_get, other) refl

  -- The map holds each receipt's hash under its number, where no two share one.
  hash_map-All :
      (n : ℕ) (before : HashMap) (receipts : List Receipt)
      → NumberedFrom n receipts
      → All
          (λ (q : Receipt). hash_get q.seq (hash_map before receipts) ≡ some (hash_hex p q))
          receipts
  unfolding hash_get hash_map
  hash_map-All n before [] numbered = tt
  hash_map-All n before (r ∷ receipts) numbered =
      let itself : (r.seq == r.seq) ≡ true = ground arith in
      (
        hash_map-below (n + 1) r.seq ((r.seq, hash_hex p r) ∷ before) receipts numbered.1
              (omega (arith, numbered.0))
            ∙ rw (hash_get, itself) refl,
        hash_map-All (n + 1) ((r.seq, hash_hex p r) ∷ before) receipts numbered.1,
      )

  All-last_of {ℓ} :
      (P : Receipt → Type ℓ) (b : Receipt) (bs : List Receipt) → All P (b ∷ bs) → P (last_of b bs)
  All-last_of P b [] all = all.0
  All-last_of P b (c ∷ bs) all = All-last_of P c bs all.1

  -- Of one number, two receipts have one hash.
  abbrev pub AgreeOn : Receipt → Receipt → Type 0
  AgreeOn r q = (r.seq ≢ q.seq) ⊎ (hash_hex p r ≡ hash_hex p q)

  Agrees-AgreeOn :
      (before : HashMap) (r q : Receipt)
      → Agrees before r
      → hash_get q.seq before ≡ some (hash_hex p q)
      → AgreeOn r q
  Agrees-AgreeOn before r q agrees known = elim (Bool-cases (r.seq == q.seq)) [
    | inr other ↦ inl (ground (arith, ==_iff r.seq q.seq))
    | inl one ↦
        let same : r.seq ≡ q.seq = (==_iff r.seq q.seq).0 one in
        let found : hash_get r.seq before ≡ some (hash_hex p q) = rw same known in
        elim agrees [
          | inl absent ↦ let clash : none ≡ some (hash_hex p q) = sym absent ∙ found in cc
          | inr there ↦
              let both : some (hash_hex p r) ≡ some (hash_hex p q) = sym there ∙ found in inr (cc)
        ]
  ]

  -- What it means that an export continues an earlier one.
  pub record Continues (first_now : Receipt) (more : List Receipt) (b : Receipt) (bs : List Receipt)
      : Type 0 where
    pub one_system : first_now.system_id ≡ (last_of b bs).system_id
    pub agree : All (λ (r : Receipt). All (AgreeOn r) (b ∷ bs)) (first_now ∷ more)
    pub reaches : (last_of b bs).seq ≤ (last_of first_now more).seq
    pub meets : first_now.seq ≤ (last_of b bs).seq + 1
    pub joins :
        (first_now.seq ≢ (last_of b bs).seq + 1) ⊎ (first_now.prev_hash ≡ hash_hex p (last_of b bs))

  -- When `compareWithPrevious` finds nothing against an earlier export whose receipts are numbered
  -- without a gap, as those of an export that verified are, the two exports are of one system, any two
  -- receipts of them with one number have one hash, the new one reaches at least as far, leaves no gap
  -- after the earlier one, and, where it starts right after it, carries the hash of its last receipt.
  pub compare_with_previous-Continues :
      (n : ℕ) (first_now : Receipt) (more : List Receipt) (b : Receipt) (bs : List Receipt)
      → NumberedFrom n (b ∷ bs)
      → compare_with_previous (first_now ∷ more) (b ∷ bs) ≡ ok tt
      → Continues first_now more b bs
  unfolding compare_with_previous
  compare_with_previous-Continues n first_now more b bs numbered h =
      let last_now = last_of first_now more in
      let last_before = last_of b bs in
      let before = hash_map [] (b ∷ bs) in
      let known = hash_map-All n [] (b ∷ bs) numbered in
      let (one, h₁) =
        guard-eq-ok (text_eq first_now.system_id last_before.system_id)
          (failed previous_export manifest_file) _ h in
      let (_, agree, h₂) = >>=-eq-ok (check_same before 1 (first_now ∷ more)) _ h₁ in
      let (reach, h₃) =
        guard-eq-ok (leb last_before.seq last_now.seq) (failed previous_export manifest_file) _
          h₂ in
      let (meet, h₄) =
        guard-eq-ok (leb first_now.seq (last_before.seq + 1))
          (failed previous_export (receipt_line 1)) _ h₃ in
      let join : (not (first_now.seq == last_before.seq + 1)
            || is_hash (hash_get last_before.seq before) first_now.prev_hash)
          ≡ true =
        ground arith in
      record {
        one_system = (text_eq_iff first_now.system_id last_before.system_id).0 one;
        agree =
            All-weaken (Agrees before) (λ (r : Receipt). All (AgreeOn r) (b ∷ bs))
              (first_now ∷ more)
              (λ r agrees.
                All-weaken (λ (q : Receipt). hash_get q.seq before ≡ some (hash_hex p q))
                  (AgreeOn r) (b ∷ bs) (λ q there. Agrees-AgreeOn before r q agrees there) known)
              (check_same-Agrees before 1 (first_now ∷ more) agree);
        reaches = leb→le last_before.seq last_now.seq reach;
        meets = leb→le first_now.seq (last_before.seq + 1) meet;
        joins = elim (Bool-cases (first_now.seq == last_before.seq + 1)) [
          | inl next ↦
              let linked =
                is_hash-lem (hash_get last_before.seq before) first_now.prev_hash
                  (rw next at join) in
              let last =
                All-last_of (λ (q : Receipt). hash_get q.seq before ≡ some (hash_hex p q)) b bs
                  known in
              let both : some first_now.prev_hash ≡ some (hash_hex p last_before) =
                sym linked ∙ last in
              inr (cc)
          | inr other ↦ inl (ground (arith, ==_iff first_now.seq (last_before.seq + 1)))
        ];
      }
