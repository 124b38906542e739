-- ===== src/Store/Ordered.antt =====
-- `ORDER BY seq` over a chain of the database: the rows come in the order they were written, and read
-- in that order they are numbered, linked and signed as a verifier wants them.
use mathlib.Core.List.{reverse-cons}
use sigillo.Common.{
  reverse, ℕ, ◌+◌, ◌≤◌, ◌≡◌, refl, sym, ap, ◌∙◌, true, false, none, some, List, [], ◌∷◌, ◌++◌, map,
  length, ltb, le→ltb, length-map, arith, Bool-cases, Option-cases, inl, inr,
}
use sigillo.Crypto.{Bytes}
use sigillo.Text.{Text}
use sigillo.Platform.{Platform}
use sigillo.Signing.{verify_receipt_signature}
use sigillo.Receipt.{Receipt}
use sigillo.Signer.{genesis_prev_hash}
use sigillo.Verifier.Chain.{KeyMap, key_get, is_trusted}
use sigillo.Verifier.Chain.Sound.{OfSystem, NumberedFrom, LinkedFrom, SignedBy}
use sigillo.Store.{StoredRow, KeyRow, insert_by_seq, in_order, row_receipt, public_key_for}
use sigillo.Store.Insert.{hash_hex}
use sigillo.Store.Judge.{next_prev}
use sigillo.Store.Chain.{newest, is_signed, IsChain}

abbrev pub receipts_of : List StoredRow → List Receipt
receipts_of rows = map row_receipt rows

receipts_of-append :
    (rows more : List StoredRow) → receipts_of (rows ++ more) ≡ receipts_of rows ++ receipts_of more
receipts_of-append [] more = refl
receipts_of-append (row ∷ rows) more =
    ap (λ found. row.receipt ∷ found) (receipts_of-append rows more)

-- A row with the greatest number goes last.
insert_by_seq-last :
    (n : ℕ) (new : StoredRow) (rows : List StoredRow)
    → NumberedFrom n (receipts_of rows)
    → n + length rows ≤ new.receipt.seq
    → insert_by_seq new rows ≡ rows ++ new ∷ []
insert_by_seq-last n new [] numbered above = refl
insert_by_seq-last n new (row ∷ rows) numbered above =
    let after : ltb new.receipt.seq row.receipt.seq ≡ false =
      le→ltb new.receipt.seq row.receipt.seq (omega (arith, numbered.0, above)) in
    rw after (
      ap (λ found. row ∷ found)
        (insert_by_seq-last (n + 1) new rows numbered.1 (omega (arith, above))))

NumberedFrom-append :
    (n : ℕ) (receipts : List Receipt) (r : Receipt)
    → NumberedFrom n receipts
    → r.seq ≡ n + length receipts
    → NumberedFrom n (receipts ++ r ∷ [])
NumberedFrom-append n [] r numbered last = (omega (arith, last), tt)
NumberedFrom-append n (q ∷ receipts) r numbered last =
    (numbered.0, NumberedFrom-append (n + 1) receipts r numbered.1 (omega (arith, last)))

OfSystem-append :
    (id : Text) (receipts : List Receipt) (r : Receipt)
    → OfSystem id receipts
    → r.system_id ≡ id
    → OfSystem id (receipts ++ r ∷ [])
OfSystem-append id [] r own last = (last, tt)
OfSystem-append id (q ∷ receipts) r own last = (own.0, OfSystem-append id receipts r own.1 last)

-- The rows of a system, oldest first.
in_order-append :
    (row : StoredRow) (rows : List StoredRow)
    → NumberedFrom 0 (receipts_of (in_order rows))
    → length (in_order rows) ≡ row.receipt.seq
    → receipts_of (in_order (row ∷ rows)) ≡ receipts_of (in_order rows) ++ row.receipt ∷ []
in_order-append row rows numbered last =
    ap receipts_of (insert_by_seq-last 0 row (in_order rows) numbered (omega (arith, last)))
    ∙ receipts_of-append (in_order rows) (row ∷ [])

length-insert_by_seq :
    (row : StoredRow) (rows : List StoredRow) → length (insert_by_seq row rows) ≡ length rows + 1
length-insert_by_seq row [] = refl
length-insert_by_seq row (other ∷ rows) =
    elim (Bool-cases (ltb row.receipt.seq other.receipt.seq)) [
      | inl before ↦ rw before (omega arith)
      | inr after ↦ rw after (omega (arith, length-insert_by_seq row rows))
    ]

pub length-in_order : (rows : List StoredRow) → length (in_order rows) ≡ length rows
length-in_order [] = refl
length-in_order (row ∷ rows) =
    omega (arith, length-insert_by_seq row (in_order rows), length-in_order rows)

length-receipts_of : (rows : List StoredRow) → length (receipts_of (in_order rows)) ≡ length rows
length-receipts_of rows = length-map (in_order rows) row_receipt ∙ length-in_order rows

module _ (p : Platform) (keys : List KeyRow) where
  pub in_order-NumberedFrom :
      (rows : List StoredRow) → IsChain p keys rows → NumberedFrom 0 (receipts_of (in_order rows))
  in_order-NumberedFrom [] c = tt
  in_order-NumberedFrom (row ∷ rows) c =
      let before = in_order-NumberedFrom rows c.4 in
      rw (in_order-append row rows before (length-in_order rows ∙ sym c.0)) (
        NumberedFrom-append 0 (receipts_of (in_order rows)) row.receipt before
          (omega (arith, c.0, length-receipts_of rows)))

  -- A chain is stored newest first and read oldest first.
  pub in_order-reverse :
      (rows : List StoredRow) → IsChain p keys rows → in_order rows ≡ reverse rows
  in_order-reverse [] c = refl
  in_order-reverse (row ∷ rows) c =
      let last : 0 + length (in_order rows) ≤ row.receipt.seq =
        omega (arith, c.0, length-in_order rows) in
      insert_by_seq-last 0 row (in_order rows) (in_order-NumberedFrom rows c.4) last
      ∙ rw reverse-cons (ap (λ found. found ++ row ∷ []) (in_order-reverse rows c.4))

  -- The newest row of a chain is read last.
  in_order-IsChain :
      (row : StoredRow) (rows : List StoredRow)
      → IsChain p keys (row ∷ rows)
      → receipts_of (in_order (row ∷ rows)) ≡ receipts_of (in_order rows) ++ row.receipt ∷ []
  in_order-IsChain row rows c =
      in_order-append row rows (in_order-NumberedFrom rows c.4) (length-in_order rows ∙ sym c.0)

  pub in_order-OfSystem :
      (id : Text) (rows : List StoredRow)
      → IsChain p keys rows
      → OfSystem id (receipts_of rows)
      → OfSystem id (receipts_of (in_order rows))
  in_order-OfSystem id [] c own = tt
  in_order-OfSystem id (row ∷ rows) c own = rw (in_order-IsChain row rows c) (
      OfSystem-append id (receipts_of (in_order rows)) row.receipt
        (in_order-OfSystem id rows c.4 own.1) own.0)

  -- Linked, from the hash before the first receipt on.
  abbrev pub LinkedAfter : Text → List Receipt → Type 0
  LinkedAfter previous [] = Unit
  LinkedAfter previous (r ∷ receipts) =
      (r.prev_hash ≡ previous) × LinkedAfter (hash_hex p r) receipts

  abbrev last_hash : Text → List Receipt → Text
  last_hash previous [] = previous
  last_hash previous (r ∷ receipts) = last_hash (hash_hex p r) receipts

  LinkedAfter-append :
      (previous : Text) (receipts : List Receipt) (r : Receipt)
      → LinkedAfter previous receipts
      → r.prev_hash ≡ last_hash previous receipts
      → LinkedAfter previous (receipts ++ r ∷ [])
  LinkedAfter-append previous [] r linked link = (link, tt)
  LinkedAfter-append previous (q ∷ receipts) r linked link =
      (linked.0, LinkedAfter-append (hash_hex p q) receipts r linked.1 link)

  last_hash-append :
      (previous : Text) (receipts : List Receipt) (r : Receipt)
      → last_hash previous (receipts ++ r ∷ []) ≡ hash_hex p r
  last_hash-append previous [] r = refl
  last_hash-append previous (q ∷ receipts) r = last_hash-append (hash_hex p q) receipts r

  in_order-last_hash :
      (rows : List StoredRow)
      → IsChain p keys rows
      → last_hash genesis_prev_hash (receipts_of (in_order rows)) ≡ next_prev (newest rows)
  in_order-last_hash [] c = refl
  in_order-last_hash (row ∷ rows) c =
      ap (last_hash genesis_prev_hash) (in_order-IsChain row rows c)
      ∙ last_hash-append genesis_prev_hash (receipts_of (in_order rows)) row.receipt
      ∙ sym c.2

  pub in_order-LinkedAfter :
      (rows : List StoredRow)
      → IsChain p keys rows
      → LinkedAfter genesis_prev_hash (receipts_of (in_order rows))
  in_order-LinkedAfter [] c = tt
  in_order-LinkedAfter (row ∷ rows) c = rw (in_order-IsChain row rows c) (
      LinkedAfter-append genesis_prev_hash (receipts_of (in_order rows)) row.receipt
        (in_order-LinkedAfter rows c.4) (c.1 ∙ sym (in_order-last_hash rows c.4)))

  pub LinkedFrom-LinkedAfter :
      (previous : Receipt) (receipts : List Receipt)
      → LinkedAfter (hash_hex p previous) receipts
      → LinkedFrom p previous receipts
  LinkedFrom-LinkedAfter previous [] linked = tt
  LinkedFrom-LinkedAfter previous (r ∷ receipts) linked =
      (linked.0, LinkedFrom-LinkedAfter r receipts linked.1)

  -- A manifest that publishes the keys on file.
  abbrev pub Publishes : KeyMap → Type 0
  Publishes published =
      (key_id : Text) (raw : Bytes)
      → public_key_for key_id keys ≡ some raw
      → key_get key_id published ≡ some raw

  module _ (published : KeyMap) (all : Publishes published) where
    abbrev IsSignedBy : Receipt → Type 0
    IsSignedBy r =
        (raw : Bytes) × (key_get r.key_id published ≡ some raw)
        × (is_trusted r.key_id none ≡ true)
        × (verify_receipt_signature p r raw ≡ true)

    is_signed-IsSignedBy : (r : Receipt) → is_signed p keys r ≡ true → IsSignedBy r
    is_signed-IsSignedBy r signed = elim (Option-cases (public_key_for r.key_id keys)) [
      | inl absent ↦ let unsigned : false ≡ true = rw absent at (signed) in ground (arith, unsigned)
      | inr (raw, found) ↦ (raw, all r.key_id raw found, refl, rw found at (signed))
    ]

    SignedBy-append :
        (receipts : List Receipt) (r : Receipt)
        → SignedBy p none published receipts
        → IsSignedBy r
        → SignedBy p none published (receipts ++ r ∷ [])
    SignedBy-append [] r signed last = (last, tt)
    SignedBy-append (q ∷ receipts) r signed last =
        (signed.0, SignedBy-append receipts r signed.1 last)

    pub in_order-SignedBy :
        (rows : List StoredRow)
        → IsChain p keys rows
        → SignedBy p none published (receipts_of (in_order rows))
    in_order-SignedBy [] c = tt
    in_order-SignedBy (row ∷ rows) c = rw (in_order-IsChain row rows c) (
        SignedBy-append (receipts_of (in_order rows)) row.receipt (in_order-SignedBy rows c.4)
          (is_signed-IsSignedBy row.receipt c.3))
