-- ===== src/Store/Chain.antt =====
-- The chains of the database: what every row of a system must be, and what a row inserted after the
-- tip keeps.
use sigillo.Common.{
  ◌≡◌, refl, sym, ap, ◌∙◌, Bool, true, Option, none, some, List, [], ◌∷◌, ◌++◌, length, le→ltb,
  Bool-cases, inl, inr, ok, arith, append_assoc, guard-eq-ok, ok-injective,
}
use sigillo.Crypto.{Bytes}
use sigillo.Text.{Text, text_eq, text_eq_iff}
use sigillo.Platform.{Platform}
use sigillo.Receipt.{Receipt}
use sigillo.Store.{
  StoredRow, Prepared, Database, KeyRow, chain_of, later, highest, tip_of, public_key_for,
}
use sigillo.Store.Insert.{hash_hex, insert_row}
use sigillo.Store.Judge.{next_seq, next_prev, signed_under}

abbrev pub newest : List StoredRow → Option StoredRow
newest [] = none
newest (row ∷ rows) = some row

-- Rows are only added.
pub record Extends (before after : Database) : Type 0 where
  pub added : List StoredRow
  pub kept : after.receipts ≡ added ++ before.receipts

pub Extends-refl : (db : Database) → Extends db db
Extends-refl db = record { added = []; kept = refl }

pub Extends-trans : {a b c : Database} → Extends a b → Extends b c → Extends a c
Extends-trans e f = record {
  added = f.added ++ e.added;
  kept = f.kept ∙ ap (λ rows. f.added ++ rows) e.kept ∙ sym (append_assoc f.added e.added _);
}

abbrev pub row_of : Platform → Receipt → StoredRow
row_of p r = record { receipt = r; hash = hash_hex p r }

module _ (p : Platform) (keys : List KeyRow) where
  -- Under the key on file under the receipt's `key_id`.
  abbrev pub is_signed : Receipt → Bool
  is_signed r = signed_under p r (public_key_for r.key_id keys)

  -- Newest first: numbered from 0 without a gap, each receipt carrying the hash of the one before it,
  -- the column `hash` the receipt's own hash, and every signature one of the key on file.
  abbrev pub IsChain : List StoredRow → Type 0
  IsChain [] = Unit
  IsChain (row ∷ rows) =
      (row.receipt.seq ≡ length rows)
      × (row.receipt.prev_hash ≡ next_prev (newest rows))
      × (row.hash ≡ hash_hex p row.receipt)
      × (is_signed row.receipt ≡ true)
      × IsChain rows

  pub highest-IsChain : (rows : List StoredRow) → IsChain rows → highest rows ≡ newest rows
  unfolding highest
  highest-IsChain [] c = refl
  highest-IsChain (row ∷ []) c = refl
  highest-IsChain (row ∷ prev ∷ rows) c =
      let first : later row (some prev) ≡ row =
        rw (le→ltb row.receipt.seq prev.receipt.seq (omega (arith, c.0, c.4.0))) refl in
      ap (λ (o : Option StoredRow). some (later row o)) (highest-IsChain (prev ∷ rows) c.4)
      ∙ ap some first

  pub next_seq-newest :
      (rows : List StoredRow) → IsChain rows → next_seq (newest rows) ≡ length rows
  next_seq-newest [] c = refl
  next_seq-newest (row ∷ rows) c = omega (arith, c.0)

module _ (p : Platform) (own_id : Text) (own : Bytes) (keys : List KeyRow) where
  -- The service's key is on file, no key has changed, and the rows of every system are a chain.
  pub record IsWellFormed (db : Database) : Type 0 where
    pub known : public_key_for own_id keys ≡ some own
    pub keys_kept : db.signing_keys ≡ keys
    pub chained : (id : Text) → IsChain p keys (chain_of id db.receipts)

  pub tip_of-IsWellFormed :
      (id : Text) {db : Database}
      → IsWellFormed db
      → tip_of id db ≡ newest (chain_of id db.receipts)
  unfolding tip_of
  tip_of-IsWellFormed id {db} w = highest-IsChain p keys (chain_of id db.receipts) (w.chained id)

  -- The receipt stands where the tip says.
  pub record IsNext (r : Receipt) (db : Database) : Type 0 where
    pub numbered : r.seq ≡ next_seq (tip_of r.system_id db)
    pub linked : r.prev_hash ≡ next_prev (tip_of r.system_id db)
    pub signed : is_signed p keys r ≡ true

  IsChain-cons :
      (id : Text) (r : Receipt) {db : Database}
      → IsWellFormed db
      → IsNext r db
      → IsChain p keys (chain_of id (row_of p r ∷ db.receipts))
  IsChain-cons id r {db} w n = elim (Bool-cases (text_eq r.system_id id)) [
    | inr h ↦ rw h (w.chained id)
    | inl h ↦
        let same : r.system_id ≡ id = (text_eq_iff r.system_id id).0 h in
        let tip : tip_of r.system_id db ≡ newest (chain_of id db.receipts) =
          rw same (tip_of-IsWellFormed id w) in
        let count : next_seq (newest (chain_of id db.receipts)) ≡ length (chain_of id db.receipts) =
          next_seq-newest p keys (chain_of id db.receipts) (w.chained id) in
        rw h (
          n.numbered ∙ ap next_seq tip ∙ count,
          n.linked ∙ ap next_prev tip,
          refl,
          n.signed,
          w.chained id,
        )
  ]

  pub insert_row-receipts :
      (r : Receipt) (digests : Option Prepared) (db : Database) {end : Database}
      → insert_row p r digests db ≡ ok end
      → (end.receipts ≡ row_of p r ∷ db.receipts) × (end.signing_keys ≡ db.signing_keys)
  unfolding insert_row
  insert_row-receipts r digests db {end} h =
      let done = guard-eq-ok _ _ _ h in
      let same = ok-injective done.1 in
      (
        ap (λ (d : Database). d.receipts) (sym same),
        ap (λ (d : Database). d.signing_keys) (sym same),
      )

  -- A row that is next to the tip keeps every chain.
  pub insert_row-IsWellFormed :
      (r : Receipt) (digests : Option Prepared) (db : Database) {end : Database}
      → IsWellFormed db
      → IsNext r db
      → insert_row p r digests db ≡ ok end
      → IsWellFormed end × Extends db end
  insert_row-IsWellFormed r digests db w n h =
      let rows = insert_row-receipts r digests db h in
      (
        record {
          known = w.known;
          keys_kept = rows.1 ∙ w.keys_kept;
          chained = λ id. rw rows.0 (IsChain-cons id r w n);
        },
        record { added = row_of p r ∷ []; kept = rows.0 },
      )
