-- ===== src/Signer/Recovery.antt =====
-- What the signer reads back from its journal, after any run: exactly what it signed, though crashes
-- left other lines there.
use mathlib.Core.List.{reverse-cons}
use sigillo.Common.{
  ℕ, zero, suc, ◌+◌, ◌≤◌, ◌<◌, ◌≡◌, refl, sym, ◌∙◌, false, Option, none, some, List, [], ◌∷◌, ◌++◌,
  length, leb, ltb, ◌==◌, Result, ok, err, arith, get_elem?, take, drop, reverse, length-reverse,
  Bool-cases, inl, inr, leb→le, drop-cons, drop-past, take-nil, ap, ==_iff, get_elem?-append,
  get_elem?-append-last,
}
use sigillo.Text.{Text, text_eq, text_eq_iff}
use sigillo.Receipt.{Receipt}
use sigillo.Platform.{Platform}
use sigillo.Signer.{
  StateDirectory, ChainState, SystemState, chain, retired, JournalLine, torn, entry, SignerKey,
  SignerError, refusal, fault, unknown_system, get_system, record_receipt,
}
use sigillo.Signer.Systems.{admit-IsAdmitted}
use sigillo.Signer.Log.{log_of, IsAdmitted-seq, TracksChain}
use sigillo.Signer.Invariant.{
  Reach, opened, signed, refused, torn_line, not_put, Reach-IsSound, Tracks, known_chain-Tracks,
  sign_receipt-Answer,
}
use sigillo.Signer.Journal.{
  SeqMap, seq_get, read_lines, collect, read_receipts, receipts, read_lines-append,
  seq_get-read_lines,
}

-- The line of the journal that the loop keeps for a number is that of the receipt signed with it.
abbrev IsKept : List JournalLine → List Receipt → Type 0
IsKept lines log =
    (id : Text) (from_seq last q : ℕ)
    → from_seq ≤ q
    → q ≤ last
    → q < length (log_of id log)
    → seq_get q (read_lines id from_seq last [] lines) ≡ get_elem? (reverse (log_of id log)) q

torn-IsKept :
    (lines : List JournalLine) (log : List Receipt)
    → IsKept lines log
    → IsKept (lines ++ torn ∷ []) log
unfolding read_lines
torn-IsKept lines log kept = λ id from_seq last q lo hi inside.
    rw (read_lines-append id from_seq last [] lines (torn ∷ []))
      (kept id from_seq last q lo hi inside)

-- A line with the next number changes nothing below it.
entry-IsKept :
    (lines : List JournalLine) (log : List Receipt) (r : Receipt)
    → r.seq ≡ length (log_of r.system_id log)
    → IsKept lines log
    → IsKept (lines ++ entry r ∷ []) log
entry-IsKept lines log r next kept = λ id from_seq last q lo hi inside.
    rw
      (
        read_lines-append id from_seq last [] lines (entry r ∷ []),
        seq_get-read_lines id from_seq last q (read_lines id from_seq last [] lines) r lo hi,
      )
      (elim (Bool-cases (text_eq r.system_id id)) [
        | inl mine ↦
            let same_id : r.system_id ≡ id = (text_eq_iff r.system_id id).0 mine in
            let next' : r.seq ≡ length (log_of id log) = rw (← same_id) next in
            let other : (r.seq == q) ≡ false = ground arith in
            rw (mine, other) (kept id from_seq last q lo hi inside)
        | inr other ↦ rw other (kept id from_seq last q lo hi inside)
      ])

signed-IsKept :
    (lines : List JournalLine) (log : List Receipt) (r : Receipt)
    → r.seq ≡ length (log_of r.system_id log)
    → IsKept lines log
    → IsKept (lines ++ entry r ∷ []) (r ∷ log)
signed-IsKept lines log r next kept = λ id from_seq last q lo hi inside.
    rw
      (
        read_lines-append id from_seq last [] lines (entry r ∷ []),
        seq_get-read_lines id from_seq last q (read_lines id from_seq last [] lines) r lo hi,
      )
      (elim (Bool-cases (text_eq r.system_id id)) [
        | inl mine ↦
            let same_id : r.system_id ≡ id = (text_eq_iff r.system_id id).0 mine in
            let next' : r.seq ≡ length (log_of id log) = rw (← same_id) next in
            let backwards = length-reverse (log_of id log) in
            let room : q < suc (length (log_of id log)) = rw mine at inside in
            elim (Bool-cases (r.seq == q)) [
              | inl newest ↦
                  let at_end : q ≡ length (reverse (log_of id log)) = ground arith in
                  rw (mine, newest, reverse-cons)
                    (sym (get_elem?-append-last (reverse (log_of id log)) r q at_end))
              | inr older ↦
                  let before : q < length (log_of id log) = ground arith in
                  rw (mine, older, reverse-cons)
                    (kept id from_seq last q lo hi before
                      ∙ sym (get_elem?-append (reverse (log_of id log)) (r ∷ []) q (omega arith)))
            ]
        | inr other ↦ rw other (kept id from_seq last q lo hi (rw other at inside))
      ])

collect-eq :
    (room seq last : ℕ) (by_seq : SeqMap) (xs : List Receipt)
    → last + 1 ≡ length xs
    → ((q : ℕ) → seq ≤ q → q ≤ last → seq_get q by_seq ≡ get_elem? xs q)
    → collect room seq last by_seq ≡ take room (drop seq xs)
unfolding collect
collect-eq zero seq last by_seq xs sized held = refl
collect-eq (suc room) seq last by_seq xs sized held = elim (Bool-cases (leb seq last)) [
  | inl inside ↦
      let bound = leb→le seq last inside in
      let (r, found, dropped) = drop-cons xs seq (omega arith) in
      let got : seq_get seq by_seq ≡ some r = held seq (omega arith) bound ∙ found in
      let next : suc seq ≡ seq + 1 = omega arith in
      rw (collect, inside, got, dropped, next)
        (ap (λ rest. r ∷ rest)
          (collect-eq room (seq + 1) last by_seq xs sized (λ q lo hi. held q (omega arith) hi)))
  | inr past ↦ rw (collect, past, drop-past xs seq (ground arith)) refl
]

module _ (p : Platform) (key : SignerKey) (tolerance : ℕ) where
  Reach-IsKept :
      {s : StateDirectory} {log : List Receipt} → Reach p key tolerance s log → IsKept s.journal log
  unfolding record_receipt
  Reach-IsKept (opened systems h) = λ id from_seq last q lo hi inside. absurd (omega arith)
  Reach-IsKept (torn_line {s} {log} before) = torn-IsKept s.journal log (Reach-IsKept before)
  Reach-IsKept (not_put {s} {log} now r sig {known} before e) =
      let a = admit-IsAdmitted p key tolerance now r s e in
      let tracked =
        known_chain-Tracks p key tolerance (get_system r.system_id s.systems)
          (log_of r.system_id log) a.is_known (Reach-IsSound p key tolerance before r.system_id) in
      entry-IsKept s.journal log (record { unsigned = r; sig = sig })
        (IsAdmitted-seq p key tolerance r known (log_of r.system_id log) a tracked)
        (Reach-IsKept before)
  Reach-IsKept (refused {s} {s'} {log} now r (refusal code) before e) =
      let unchanged =
        rw e at (
          sign_receipt-Answer p key tolerance now r s log (Reach-IsSound p key tolerance before)) in
      rw unchanged (Reach-IsKept before)
  Reach-IsKept (refused {s} {s'} {log} now r (fault f) before e) = absurd (
      rw e at
        (sign_receipt-Answer p key tolerance now r s log (Reach-IsSound p key tolerance before)))
  Reach-IsKept (signed {s} {s'} {log} now r sig hash before e) =
      let answer =
        rw e at (
          sign_receipt-Answer p key tolerance now r s log (Reach-IsSound p key tolerance before)) in
      rw (answer.3) (
        signed-IsKept s.journal log (record { unsigned = r; sig = sig }) answer.2
          (Reach-IsKept before))

  -- What `receipts` answers for a system, by the system's log.
  abbrev pub ReceiptsAnswer : List Receipt → ℕ → ℕ → Result SignerError (List Receipt) → Type 0
  ReceiptsAnswer mine from_seq limit (err e) = (e ≡ refusal unknown_system) × (mine ≡ [])
  ReceiptsAnswer mine from_seq limit (ok found) = found ≡ take limit (drop from_seq (reverse mine))

  chain_receipts-eq :
      (id : Text) (from_seq limit : ℕ) (s : StateDirectory) (log : List Receipt) (c : ChainState)
      → TracksChain p c (log_of id log)
      → IsKept s.journal log
      → get_system id s.systems ≡ some (chain c)
      → read_receipts id from_seq limit s ≡ take limit (drop from_seq (reverse (log_of id log)))
  unfolding read_receipts seq_get
  chain_receipts-eq id from_seq limit s log c t kept e =
      let counted = t.counted in
      let sized = length-reverse (log_of id log) in
      let whole : length (log_of id log) ≡ c.seq + 1 = rw (t.newest) (omega arith) in
      let headed : get_elem? (reverse (log_of id log)) c.seq ≡ some c.head =
        rw (t.newest, reverse-cons)
          (get_elem?-append-last (reverse t.older) c.head c.seq
            (omega (arith, length-reverse t.older))) in
      elim (Bool-cases (ltb c.seq from_seq)) [
        | inl past ↦
            let nothing = drop-past (reverse (log_of id log)) from_seq (ground arith) in
            rw (read_receipts, e, past, nothing) (sym (take-nil limit))
        | inr inside ↦
            rw (read_receipts, e, inside)
              (collect-eq limit from_seq c.seq
                ((c.seq, c.head) ∷ read_lines id from_seq c.seq [] s.journal)
                (reverse (log_of id log)) (omega arith)
                (λ q lo hi. elim (Bool-cases (c.seq == q)) [
                  | inl newest ↦
                      let same : c.seq ≡ q = (==_iff c.seq q).0 newest in
                      rw newest (rw (← same) (sym headed))
                  | inr older ↦ rw older (kept id from_seq c.seq q lo hi (omega arith))
                ]))
      ]

  receipts-Tracks :
      (id : Text) (from_seq limit : ℕ) (s : StateDirectory) (log : List Receipt)
      (found : Option SystemState)
      → get_system id s.systems ≡ found
      → Tracks p key tolerance found (log_of id log)
      → IsKept s.journal log
      → ReceiptsAnswer (log_of id log) from_seq limit (receipts id from_seq limit s)
  unfolding receipts
  receipts-Tracks id from_seq limit s log none e t kept = rw (receipts, e) (refl, t)
  receipts-Tracks id from_seq limit s log (some (retired _ _)) e t kept = rw (receipts, e) (refl, t)
  receipts-Tracks id from_seq limit s log (some (chain c)) e t kept =
      rw (receipts, e) (chain_receipts-eq id from_seq limit s log c t kept e)

  -- For a signer opened with retired systems only, so that every chain began with the journal: after
  -- any run, crashes included, `receipts` returns exactly what the signer signed for the system from
  -- `from_seq` on, in order, at most `limit` of them; a system with no receipts signed is refused as
  -- unknown.
  pub receipts-Reach :
      (id : Text) (from_seq limit : ℕ) {s : StateDirectory} {log : List Receipt}
      → Reach p key tolerance s log
      → ReceiptsAnswer (log_of id log) from_seq limit (receipts id from_seq limit s)
  receipts-Reach id from_seq limit {s} {log} reach =
      receipts-Tracks id from_seq limit s log (get_system id s.systems) refl
        (Reach-IsSound p key tolerance reach id) (Reach-IsKept reach)
