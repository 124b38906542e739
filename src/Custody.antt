-- ===== src/Custody.antt =====
-- The store of store.ts before a service that keeps to a log of what it has signed, as the signer does:
-- the interface between the two, and what an operation of the store may do to the rows.
pub mod Insert
pub mod Pages
pub mod Reconcile
pub mod Older
pub mod Level
pub mod Runs
use mathlib.Core.List.{Memᴰ}
use mathlib.Core.List.Memᴰ
use sigillo.Common.{
  Bool-cases, inl, inr, refl, ℕ, ◌≡◌, List, [], ◌∷◌, ◌++◌, Option, none, some, Result, ok, err, All,
  All-weaken,
}
use sigillo.Text.{Text, text_eq}
use sigillo.Platform.{Platform}
use sigillo.Receipt.{Receipt, UnsignedReceipt}
use sigillo.Checkpoint.{Checkpoint}
use sigillo.Signer.Log.{log_of, IsLinked}
use sigillo.Store.{StoredRow}
use sigillo.Store.Service.{SigningService, SigningError, StoreState}

abbrev pub IsIn : List Receipt → Receipt → Type 0
IsIn log r = Memᴰ r log

-- A log of which another is the older part.
abbrev pub Longer : {σ : Type 0} → (σ → List Receipt → Type 0) → List Receipt → σ → Type 0
Longer Logged log s = (more : List Receipt) × Logged s (more ++ log)

-- What a call may answer: a signature, whose receipt is then the newest of the log; or an error, after
-- which the log may have grown all the same, since the answer can be lost.
abbrev pub Signed :
    {σ : Type 0}
    → (σ → List Receipt → Type 0)
    → List Receipt
    → UnsignedReceipt
    → Result SigningError Text × σ
    → Type 0
Signed Logged log r (ok sig, s) = Logged s (record { unsigned = r; sig = sig } ∷ log)
Signed Logged log r (err e, s) = Longer Logged log s

-- A head is the newest receipt of the system in the log, and there is none where the log has none.
abbrev pub IsHead : Text → List Receipt → Option Receipt → Type 0
IsHead id log none = log_of id log ≡ []
IsHead id log (some r) = (older : List Receipt) × (log_of id log ≡ r ∷ older)

abbrev pub Headed :
    {σ : Type 0}
    → (σ → List Receipt → Type 0)
    → Text
    → List Receipt
    → Result SigningError (Option Receipt) × σ
    → Type 0
Headed Logged id log (ok found, s) = IsHead id log found × Logged s log
Headed Logged id log (err e, s) = Logged s log

abbrev pub Listed :
    {σ : Type 0}
    → (σ → List Receipt → Type 0)
    → List Receipt
    → Result SigningError (List Receipt) × σ
    → Type 0
Listed Logged log (ok receipts, s) = All (IsIn log) receipts × Logged s log
Listed Logged log (err e, s) = Logged s log

-- `Logged` relates a state of the service to the receipts it has signed, newest first; every answer
-- of the service, and every change of it that no call makes, keeps it.
pub record IsCustodian (p : Platform) {σ : Type 0} (svc : SigningService σ) : Type 1 where
  pub Logged : σ → List Receipt → Type 0
  pub Moves : σ → σ → Type 0
  pub signs :
      (r : UnsignedReceipt) (s : σ) (log : List Receipt)
      → Logged s log
      → Signed Logged log r (svc.sign_receipt r s)
  pub heads :
      (id : Text) (s : σ) (log : List Receipt) → Logged s log → Headed Logged id log (svc.head id s)
  pub lists :
      (id : Text) (first limit : ℕ) (s : σ) (log : List Receipt)
      → Logged s log
      → Listed Logged log (svc.receipts id first limit s)
  pub checks :
      (id : Text) (s : σ) (log : List Receipt) → Logged s log → Logged (svc.checkpoint id s).1 log
  pub moves : {s s' : σ} {log : List Receipt} → Moves s s' → Logged s log → Logged s' log
  pub links : {s : σ} {log : List Receipt} (id : Text) → Logged s log → IsLinked p (log_of id log)

pub log_of-older :
    (id : Text) (log : List Receipt) (r : Receipt) → IsIn (log_of id log) r → IsIn log r
log_of-older id [] r m = m
log_of-older id (x ∷ log) r m = elim (Bool-cases (text_eq x.system_id id)) [
  | inr other ↦ Memᴰ.tail (log_of-older id log r (rw other at (m)))
  | inl mine ↦ elim (Memᴰ.cases_cons (rw mine at (m))) [
    | inl newest ↦ Memᴰ.head newest
    | inr older ↦ Memᴰ.tail (log_of-older id log r older)
  ]
]

pub IsHead-IsIn :
    (id : Text) (log : List Receipt) (found : Option Receipt) {r : Receipt}
    → IsHead id log found
    → found ≡ some r
    → IsIn log r
IsHead-IsIn id log none headed h = cc
IsHead-IsIn id log (some head) {r} (older, whole) h =
    let one : head ≡ r = cc in rw (← one) (log_of-older id log head (rw whole (Memᴰ.head refl)))

-- Every row holds a receipt of the log.
abbrev pub Stored : List Receipt → List StoredRow → Type 0
Stored log rows = All (λ (row : StoredRow). IsIn log row.receipt) rows

pub Stored-append :
    (more log : List Receipt) (rows : List StoredRow) → Stored log rows → Stored (more ++ log) rows
Stored-append more log rows all =
    All-weaken _ _ rows (λ row found. Memᴰ.append_right more found) all

module _ (p : Platform) {σ : Type 0} {svc : SigningService σ} (c : IsCustodian p svc) where
  -- The service is at a log that holds every row of the database.
  pub record KeptAt (log : List Receipt) (s : StoreState σ) : Type 0 where
    pub logged : c.Logged s.service log
    pub stored : Stored log s.db.receipts

  pub record Kept (s : StoreState σ) : Type 0 where
    pub log : List Receipt
    pub kept : KeptAt log s

  -- An operation keeps the rows inside the log.
  abbrev pub Keeping : StoreState σ → StoreState σ → Type 0
  Keeping before after = Kept before → Kept after
