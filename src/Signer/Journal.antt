-- ===== src/Signer/Journal.antt =====
-- state.ts and signer.ts: reading receipts back from the journal. The journal files of the systems
-- are one sequence of lines here; the source reads the file of one system, and skips the lines that
-- name another.
use sigillo.Common.{
  ℕ, zero, suc, ◌+◌, ◌≤◌, ◌≡◌, refl, true, false, ◌&&◌, Option, none, some, List, [], ◌∷◌, ◌++◌,
  leb, ltb, ◌==◌, if◌then◌else◌, Result, ok, err, Bool-cases, inl, inr, arith,
}
use sigillo.Text.{Text, text_eq}
use sigillo.Receipt.{Receipt}
use sigillo.Signer.{
  StateDirectory, chain, retired, JournalLine, torn, entry, SignerError, refusal, unknown_system,
  get_system,
}

-- `bySeq`: `set` puts in front, and `get` takes the first.
abbrev pub SeqMap : Type 0
SeqMap = List (ℕ × Receipt)

unfoldable pub seq_get : ℕ → SeqMap → Option Receipt
seq_get seq [] = none
seq_get seq ((other, r) ∷ by_seq) = if other == seq then some r else seq_get seq by_seq

-- The loop over the lines of the file.
unfoldable pub read_lines : Text → ℕ → ℕ → SeqMap → List JournalLine → SeqMap
read_lines id from_seq last by_seq [] = by_seq
read_lines id from_seq last by_seq (torn ∷ lines) = read_lines id from_seq last by_seq lines
read_lines id from_seq last by_seq (entry r ∷ lines) =
    elim (text_eq r.system_id id && leb from_seq r.seq && leb r.seq last) [
      | true ↦ read_lines id from_seq last ((r.seq, r) ∷ by_seq) lines
      | false ↦ read_lines id from_seq last by_seq lines
    ]

-- The loop that fills `found`; the first argument is the room left in it.
unfoldable pub collect : ℕ → ℕ → ℕ → SeqMap → List Receipt
collect zero seq last by_seq = []
collect (suc room) seq last by_seq = elim (leb seq last) [
  | true ↦ elim (seq_get seq by_seq) [ none ↦ [] | some r ↦ r ∷ collect room (seq + 1) last by_seq ]
  | false ↦ []
]

-- `StateDirectory.receipts`
unfoldable pub read_receipts : Text → ℕ → ℕ → StateDirectory → List Receipt
read_receipts id from_seq limit s = elim (get_system id s.systems) [
  | none ↦ []
  | some state ↦ elim state [
    | retired _ _ ↦ []
    | chain known ↦ elim (ltb known.seq from_seq) [
      | true ↦ []
      | false ↦
          collect limit from_seq known.seq
            ((known.seq, known.head) ∷ read_lines id from_seq known.seq [] s.journal)
    ]
  ]
]

-- `Signer.receipts`
unfoldable pub receipts : Text → ℕ → ℕ → StateDirectory → Result SignerError (List Receipt)
receipts id from_seq limit s = elim (get_system id s.systems) [
  | none ↦ err (refusal unknown_system)
  | some state ↦ elim state [
    | retired _ _ ↦ err (refusal unknown_system)
    | chain _ ↦ ok (read_receipts id from_seq limit s)
  ]
]

-- `Signer.head`
unfoldable pub head : Text → StateDirectory → Option Receipt
head id s = elim (get_system id s.systems) [
  | none ↦ none
  | some state ↦ elim state [ retired _ _ ↦ none | chain known ↦ some known.head ]
]

-- One more line is read over the map of the lines before it.
pub read_lines-append :
    (id : Text) (from_seq last : ℕ) (by_seq : SeqMap) (lines more : List JournalLine)
    → read_lines id from_seq last by_seq (lines ++ more)
      ≡ read_lines id from_seq last (read_lines id from_seq last by_seq lines) more
unfolding read_lines
read_lines-append id from_seq last by_seq [] more = refl
read_lines-append id from_seq last by_seq (torn ∷ lines) more =
    read_lines-append id from_seq last by_seq lines more
read_lines-append id from_seq last by_seq (entry r ∷ lines) more =
    elim (Bool-cases (text_eq r.system_id id && leb from_seq r.seq && leb r.seq last)) [
      | inl here ↦
          rw (read_lines, here)
            (read_lines-append id from_seq last ((r.seq, r) ∷ by_seq) lines more)
      | inr elsewhere ↦
          rw (read_lines, elsewhere) (read_lines-append id from_seq last by_seq lines more)
    ]

-- The line read last is the one kept for its number.
pub seq_get-read_lines :
    (id : Text) (from_seq last q : ℕ) (by_seq : SeqMap) (r : Receipt)
    → from_seq ≤ q
    → q ≤ last
    → seq_get q (read_lines id from_seq last by_seq (entry r ∷ []))
      ≡ (if text_eq r.system_id id && r.seq == q then some r else seq_get q by_seq)
unfolding read_lines seq_get
seq_get-read_lines id from_seq last q by_seq r lo hi = ground arith
