-- ===== src/Custody/Pages.antt =====
-- `reconcileNow`, reading the journal of a service that keeps a log: every page is of the log.
use sigillo.Common.{
  ℕ, zero, suc, ◌+◌, ◌-◌, ◌≡◌, ltb, length, Option, none, some, List, [], ◌∷◌, ◌++◌, ok, err,
  Result, Bool-cases, inl, inr, All, All-append,
}
use sigillo.Text.{Text}
use sigillo.Platform.{Platform}
use sigillo.Receipt.{Receipt}
use sigillo.Store.Service.{SigningService, SigningError}
use sigillo.Store.Reconcile.{fetch_journal, read_pages, recovery_page}
use sigillo.Custody.{IsCustodian, IsIn, Listed}

-- What was read of the journal, and where the service is then.
unfoldable pub Read :
    {σ : Type 0} → (σ → List Receipt → Type 0) → List Receipt → Option (List Receipt) × σ → Type 0
Read Logged log (none, s) = Logged s log
Read Logged log (some receipts, s) = All (IsIn log) receipts × Logged s log

module _ (p : Platform) {σ : Type 0} {svc : SigningService σ} (c : IsCustodian p svc) where
  -- One page, and what follows a page that is not empty.
  page-Read :
      (rounds : ℕ) (id : Text) (first wanted : ℕ) (journal : List Receipt) (log : List Receipt)
      (answer : Result SigningError (List Receipt) × σ)
      → All (IsIn log) journal
      → Listed c.Logged log answer
      → ((longer : List Receipt) (s : σ)
          → All (IsIn log) longer
          → c.Logged s log
          → Read c.Logged log (read_pages p svc rounds id first wanted longer s))
      → Read c.Logged log (elim answer.0 [
        | err _ ↦ (none, answer.1)
        | ok receipts ↦ elim receipts [
          | [] ↦ (some journal, answer.1)
          | r ∷ more ↦ read_pages p svc rounds id first wanted (journal ++ r ∷ more) answer.1
        ]
      ])
  unfolding Read
  page-Read rounds id first wanted journal log (err e, s) all listed next = listed
  page-Read rounds id first wanted journal log (ok [], s) all listed next = (all, listed.1)
  page-Read rounds id first wanted journal log (ok (r ∷ more), s) all listed next =
      next (journal ++ r ∷ more) s (All-append (IsIn log) journal (r ∷ more) all listed.0) listed.1

  read_pages-Read :
      (rounds : ℕ) (id : Text) (first wanted : ℕ) (journal : List Receipt) (s : σ)
      (log : List Receipt)
      → All (IsIn log) journal
      → c.Logged s log
      → Read c.Logged log (read_pages p svc rounds id first wanted journal s)
  unfolding read_pages Read
  read_pages-Read zero id first wanted journal s log all logged = (all, logged)
  read_pages-Read (suc rounds) id first wanted journal s log all logged =
      elim (Bool-cases (ltb (length journal) wanted)) [
        | inr enough ↦ rw (read_pages, enough) (all, logged)
        | inl short ↦
            rw (read_pages, short)
              (page-Read rounds id first wanted journal log
                (svc.receipts id (first + length journal) recovery_page s) all
                (c.lists id (first + length journal) recovery_page s log logged)
                (λ longer s' all' logged'.
                  read_pages-Read rounds id first wanted longer s' log all' logged'))
      ]

  pub fetch_journal-Read :
      (id : Text) (head : Option Receipt) (first : ℕ) (s : σ) (log : List Receipt)
      → c.Logged s log
      → Read c.Logged log (fetch_journal p svc id head first s)
  unfolding Read
  fetch_journal-Read id none first s log logged = logged
  fetch_journal-Read id (some head) first s log logged = elim (Bool-cases (ltb first head.seq)) [
    | inr near ↦ rw near logged
    | inl far ↦
        rw far (
          read_pages-Read (head.seq + 1 - first) id first (head.seq + 1 - first) [] s log tt logged)
  ]

  pub Read-Logged :
      (log : List Receipt) (found : Option (List Receipt) × σ)
      → Read c.Logged log found
      → c.Logged found.1 log
  unfolding Read
  Read-Logged log (none, s) read = read
  Read-Logged log (some receipts, s) read = read.1

  pub Read-All :
      (log : List Receipt) (found : Option (List Receipt) × σ) (receipts : List Receipt)
      → Read c.Logged log found
      → found.0 ≡ some receipts
      → All (IsIn log) receipts
  unfolding Read
  Read-All log (none, s) receipts read h = cc
  Read-All log (some found, s) receipts read h =
      let same : found ≡ receipts = cc in rw (← same) (read.0)
