-- ===== src/Store/Verified.antt =====
-- The store against the verifier: a chain read out of the database passes the verifier's checks.
use mathlib.Core.Path.{subst}
use sigillo.Common.{◌≡◌, ◌↔◌, true, none, List, [], ◌∷◌, ok, Bool-cases, inl, inr, sym, ◌∙◌}
use sigillo.Text.{Text, text_eq, text_eq_iff}
use sigillo.Platform.{Platform}
use sigillo.Receipt.{Receipt}
use sigillo.Signer.{is_genesis}
use sigillo.Verifier.{Manifest}
use sigillo.Verifier.Chain.{KeyMap, check_chain}
use sigillo.Verifier.Chain.Sound.{OfSystem, NumberedFrom, check_chain-IsChain}
use sigillo.Store.{StoredRow, KeyRow, Database, chain_of, read_chain, public_key_for}
use sigillo.Store.Chain
use sigillo.Store.Service.{SigningService, StoreState, open_store}
use sigillo.Store.Runs.{Run, chains_kept}
use sigillo.Store.Ordered.{
  receipts_of, in_order-NumberedFrom, in_order-OfSystem, in_order-LinkedAfter,
  LinkedFrom-LinkedAfter, Publishes, in_order-SignedBy,
}

chain_of-OfSystem :
    (id : Text) (rows : List StoredRow) → OfSystem id (receipts_of (chain_of id rows))
chain_of-OfSystem id [] = tt
chain_of-OfSystem id (row ∷ rows) = elim (Bool-cases (text_eq row.receipt.system_id id)) [
  | inl own ↦ rw own ((text_eq_iff row.receipt.system_id id).0 own, chain_of-OfSystem id rows)
  | inr other ↦ rw other (chain_of-OfSystem id rows)
]

module _ (p : Platform) (keys : List KeyRow) where
  -- What `readChain` returns of a system whose rows are a chain, published whole under a manifest that
  -- names the system, the number 0 and every key on file, passes the verifier's checks of the chain
  -- exactly when its first receipt is a genesis of the system.
  read_chain-check_chain :
      (id : Text) (db : Database) (m : Manifest) (published : KeyMap) (first : Receipt)
      (receipts : List Receipt)
      → Chain.IsChain p keys (chain_of id db.receipts)
      → Publishes p keys published
      → m.system_id ≡ id
      → m.from_seq ≡ 0
      → read_chain id db ≡ first ∷ receipts
      → (check_chain p none m published first receipts ≡ ok tt)
        ↔ ((is_genesis first.action.kind ≡ true) × (first.action.name ≡ id))
  unfolding read_chain
  read_chain-check_chain id db m published first receipts c all named from h =
      let rows = chain_of id db.receipts in
      let numbered = rw h at (in_order-NumberedFrom p keys rows c) in
      let own = rw h at (in_order-OfSystem p keys id rows c (chain_of-OfSystem id db.receipts)) in
      let linked = rw h at (in_order-LinkedAfter p keys rows c) in
      let signed = rw h at (in_order-SignedBy p keys published all rows c) in
      let sound = check_chain-IsChain p none published m first receipts in
      (
        λ h₁. elim (sound.0 h₁).opening [
          | inl later ↦ elim (later numbered.0) [ ]
          | inr opening ↦ (opening.0, opening.1 ∙ own.0)
        ],
        λ opening. sound.1 (record {
          own_system = subst (λ system_id. OfSystem system_id (first ∷ receipts)) (sym named) own;
          starts = numbered.0 ∙ sym from;
          numbered = subst (λ n. NumberedFrom n (first ∷ receipts)) (sym numbered.0) numbered;
          opening = inr (opening.0, opening.1 ∙ sym own.0, linked.0);
          linked = LinkedFrom-LinkedAfter p keys first receipts linked.1;
          signed = signed;
        }),
      )

module _ (p : Platform) {σ : Type 0} (svc : SigningService σ) where
  -- Take a store opened on a database without receipts, for a key not on file, and any run of
  -- creations, appends, reconciliations, checkpoints and restarts before a service that may answer
  -- anything. What `readChain` then returns of a system, published whole under a manifest that names the
  -- system, the number 0 and every key on file, passes the verifier's checks of the chain exactly when
  -- its first receipt is a genesis of the system.
  pub stored_chain_verifies :
      (id : Text) (db : Database) {s s' : StoreState σ} (m : Manifest) (published : KeyMap)
      (first : Receipt) (receipts : List Receipt)
      → db.receipts ≡ []
      → public_key_for svc.key_id db.signing_keys ≡ none
      → open_store p svc db ≡ ok s.db
      → Run p svc s s'
      → Publishes p s.db.signing_keys published
      → m.system_id ≡ id
      → m.from_seq ≡ 0
      → read_chain id s'.db ≡ first ∷ receipts
      → (check_chain p none m published first receipts ≡ ok tt)
        ↔ ((is_genesis first.action.kind ≡ true) × (first.action.name ≡ id))
  stored_chain_verifies id db {s} {s'} m published first receipts empty new opened run all named
        from h =
      read_chain-check_chain p s.db.signing_keys id s'.db m published first receipts
        (chains_kept p svc db empty new opened run id) all named from h
