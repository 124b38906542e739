-- ===== src/Custody/Older.antt =====
-- A chain of the database whose receipts are all in the service's log is the older part of that log.
use mathlib.Core.List.{Memᴰ}
use mathlib.Core.Path.{subst}
use sigillo.Common.{
  ◌+◌, ◌<◌, ◌≡◌, true, append-nil, length-append, length-map, sym, ap, ◌∙◌, List, [], ◌∷◌, ◌++◌,
  length, arith, Bool-cases, inl, inr,
}
use sigillo.Text.{Text, text_eq, text_eq_iff}
use sigillo.Platform.{Platform}
use sigillo.Receipt.{Receipt}
use sigillo.Signer.Log.{log_of, IsLinked}
use sigillo.Store.{StoredRow, KeyRow, chain_of, row_receipt}
use sigillo.Store.Chain.{IsChain}
use sigillo.Store.Ordered.{receipts_of}
use sigillo.Custody.{IsIn, Stored}

-- The receipts are the last of the log: what is missing is newer than all of them.
pub record IsOlder (mine log : List Receipt) : Type 0 where
  pub missing : List Receipt
  pub whole : log ≡ missing ++ mine

log_of-IsIn :
    (id : Text) (log : List Receipt) (r : Receipt)
    → r.system_id ≡ id
    → IsIn log r
    → IsIn (log_of id log) r
log_of-IsIn id [] r own m = elim m [ ]
log_of-IsIn id (x ∷ log) r own (Memᴰ.head e) =
    let test : text_eq x.system_id id ≡ true =
      (text_eq_iff x.system_id id).1 (ap (λ (q : Receipt). q.system_id) (sym e) ∙ own) in
    rw test (Memᴰ.head e)
log_of-IsIn id (x ∷ log) r own (Memᴰ.tail m) = elim (Bool-cases (text_eq x.system_id id)) [
  | inl mine ↦ rw mine (Memᴰ.tail (log_of-IsIn id log r own m))
  | inr other ↦ rw other (log_of-IsIn id log r own m)
]

pub chain_of-Stored :
    (id : Text) (log : List Receipt) (rows : List StoredRow)
    → Stored log rows
    → Stored (log_of id log) (chain_of id rows)
chain_of-Stored id log [] all = tt
chain_of-Stored id log (row ∷ rows) all = elim (Bool-cases (text_eq row.receipt.system_id id)) [
  | inl own ↦ rw own (
    log_of-IsIn id log row.receipt ((text_eq_iff row.receipt.system_id id).0 own) all.0,
    chain_of-Stored id log rows all.1,
  )
  | inr other ↦ rw other (chain_of-Stored id log rows all.1)
]

module _ (p : Platform) where
  -- The newest receipt of a linked log has the number of the receipts before it.
  pub IsLinked-newest :
      (r : Receipt) (log : List Receipt)
      → IsLinked p (r ∷ log)
      → (r.seq ≡ length log) × IsLinked p log
  IsLinked-newest r [] linked = (linked.0, tt)
  IsLinked-newest r (prev ∷ log) linked =
      let before = IsLinked-newest prev log linked.4 in
      (linked.0 ∙ ap (λ n. n + 1) before.0 ∙ omega arith, linked.4)

  IsIn-below : (log : List Receipt) (r : Receipt) → IsLinked p log → IsIn log r → r.seq < length log
  IsIn-below [] r linked m = elim m [ ]
  IsIn-below (x ∷ log) r linked (Memᴰ.head e) =
      let same : r.seq ≡ x.seq = ap (λ (q : Receipt). q.seq) e in
      omega (arith, same, (IsLinked-newest x log linked).0)
  IsIn-below (x ∷ log) r linked (Memᴰ.tail m) =
      omega (arith, IsIn-below log r (IsLinked-newest x log linked).1 m)

  -- A receipt of the log whose number is the next of an older part belongs to the older part.
  IsOlder-cons :
      (missing mine : List Receipt) (r : Receipt)
      → IsLinked p (missing ++ mine)
      → IsIn (missing ++ mine) r
      → r.seq ≡ length mine
      → IsOlder (r ∷ mine) (missing ++ mine)
  IsOlder-cons [] mine r linked m next = absurd (omega (arith, IsIn-below mine r linked m))
  IsOlder-cons (x ∷ []) mine r linked (Memᴰ.head e) next = record {
    missing = [];
    whole = ap (λ q. q ∷ mine) (sym e);
  }
  IsOlder-cons (x ∷ y ∷ missing) mine r linked (Memᴰ.head e) next =
      let same : r.seq ≡ x.seq = ap (λ (q : Receipt). q.seq) e in
      absurd (
        omega (
          arith,
          same,
          length-append (y ∷ missing) mine,
          (IsLinked-newest x (y ∷ missing ++ mine) linked).0,
        ))
  IsOlder-cons (x ∷ missing) mine r linked (Memᴰ.tail m) next =
      let older =
        IsOlder-cons missing mine r (IsLinked-newest x (missing ++ mine) linked).1 m next in
      record { missing = x ∷ older.missing; whole = ap (λ found. x ∷ found) older.whole }

  -- A chain all of whose receipts are in a linked log is the older part of it.
  pub IsChain-IsOlder :
      (keys : List KeyRow) (rows : List StoredRow) (log : List Receipt)
      → IsLinked p log
      → IsChain p keys rows
      → Stored log rows
      → IsOlder (receipts_of rows) log
  IsChain-IsOlder keys [] log linked chained all = record {
    missing = log;
    whole = sym (append-nil log);
  }
  IsChain-IsOlder keys (row ∷ rows) log linked chained all =
      let older = IsChain-IsOlder keys rows log linked chained.4 all.1 in
      let counted = length-map rows row_receipt in
      subst (λ found. IsOlder (row.receipt ∷ receipts_of rows) found) (sym older.whole)
        (IsOlder-cons older.missing (receipts_of rows) row.receipt
          (subst (IsLinked p) older.whole linked)
          (subst (λ found. IsIn found row.receipt) older.whole all.0) (chained.0 ∙ sym counted))
