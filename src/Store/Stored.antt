-- ===== src/Store/Stored.antt =====
-- What `writeCheckpoint` stores: a checkpoint over the tree of the receipts that the database holds.
use sigillo.Common.{
  ◌≡◌, refl, sym, ap, true, some, ◌∷◌, length, ok, err, Result, List, [], map, reverse, All,
  All-reverse, length-reverse, length-map, ◌∙◌, >>=-eq-ok, ok-injective,
}
use sigillo.Text.{Text}
use sigillo.Platform.{Platform}
use sigillo.Checkpoint.{Checkpoint, verify_checkpoint_signature}
use sigillo.Crypto.{Bytes, CoreError}
use sigillo.Hex.{to_hex}
use sigillo.Hex.RoundTrip.{from_hex-to_hex}
use sigillo.Merkle.{merkle_root}
use sigillo.Platform.{receipt_hash}
use sigillo.Signing.{receipt_hash-IsBytes}
use sigillo.Store.Insert.{hash_hex}
use sigillo.Store.Chain.{IsChain, IsWellFormed}
use sigillo.Store.Ordered.{in_order-reverse}
use sigillo.Store.Runs.{Run-Advances, start, next, checkpointed}
use sigillo.Store.{StoredRow, row_hash, KeyRow, chain_of, Database, read_receipt_hashes}
use sigillo.Store.Service.{SigningService, StoreState}
use sigillo.Store.CheckPoint.{in_core, from_hex_all, root_of, write_checkpoint}
use sigillo.Store.Covers.{Stores, write_checkpoint-Stores}

module _ (p : Platform) where
  abbrev pub leaf_of : StoredRow → Bytes
  leaf_of row = receipt_hash p row.receipt.unsigned

  abbrev IsUnderOwnHash : StoredRow → Type 0
  IsUnderOwnHash row = row.hash ≡ hash_hex p row.receipt

  IsChain-All :
      (keys : List KeyRow) (rows : List StoredRow) → IsChain p keys rows → All IsUnderOwnHash rows
  IsChain-All keys [] c = tt
  IsChain-All keys (row ∷ rows) c = (c.2, IsChain-All keys rows c.4)

  from_hex_all-leaves :
      (rows : List StoredRow)
      → All IsUnderOwnHash rows
      → from_hex_all (map row_hash rows) ≡ ok (map leaf_of rows)
  unfolding from_hex_all
  from_hex_all-leaves [] own = refl
  from_hex_all-leaves (row ∷ rows) own =
      rw
        (
          from_hex_all,
          own.0,
          from_hex-to_hex (leaf_of row) (receipt_hash-IsBytes p row.receipt.unsigned),
          from_hex_all-leaves rows own.1,
        )
        refl

  in_core-eq-ok {ℓ} : {A : Type ℓ} (m : Result CoreError A) {a : A} → in_core m ≡ ok a → m ≡ ok a
  in_core-eq-ok (ok a) h = cc
  in_core-eq-ok (err e) h = cc

  root_of-leaves :
      (rows : List StoredRow) {text : Text}
      → All IsUnderOwnHash rows
      → root_of p (map row_hash rows) ≡ ok text
      → (root : Bytes) × (merkle_root p.hash (map leaf_of rows) ≡ ok root) × (to_hex root ≡ text)
  unfolding root_of
  root_of-leaves rows own h =
      let (leaves, read, h₁) = >>=-eq-ok (in_core (from_hex_all (map row_hash rows))) _ h in
      let (root, built, h₂) = >>=-eq-ok (in_core (merkle_root p.hash leaves)) _ h₁ in
      let same : leaves ≡ map leaf_of rows = ok-injective (
        sym (in_core-eq-ok (from_hex_all (map row_hash rows)) read)
        ∙ from_hex_all-leaves rows own) in
      (root, rw (← same) (in_core-eq-ok (merkle_root p.hash leaves) built), ok-injective h₂)

module _ (p : Platform) {σ : Type 0} (svc : SigningService σ) (keys : List KeyRow) where
  -- A checkpoint over the receipts of the database that it is in, whose rows are newest first.
  pub record IsStored (id : Text) (c : Checkpoint) (db : Database) : Type 0 where
    pub own : c.system_id ≡ id
    pub counted : c.tree_size ≡ length (chain_of id db.receipts)
    pub root : Bytes
    pub built : merkle_root p.hash (map (leaf_of p) (reverse (chain_of id db.receipts))) ≡ ok root
    pub stated : to_hex root ≡ c.root_hash
    pub keyed : c.key_id ≡ svc.key_id
    pub signed : verify_checkpoint_signature p c svc.public_key ≡ true
    pub older : List Checkpoint
    pub kept : db.checkpoints ≡ c ∷ older

  read_receipt_hashes-reverse :
      (id : Text) (db : Database)
      → IsChain p keys (chain_of id db.receipts)
      → read_receipt_hashes id db ≡ map row_hash (reverse (chain_of id db.receipts))
  unfolding read_receipt_hashes
  read_receipt_hashes-reverse id db c =
      ap (λ rows. map row_hash rows) (in_order-reverse p keys (chain_of id db.receipts) c)

  Stores-IsStored :
      (id : Text) (c : Checkpoint) (db : Database)
      → IsChain p keys (chain_of id db.receipts)
      → Stores p svc id c db
      → IsStored id c db
  Stores-IsStored id c db chained stores =
      let rows = chain_of id db.receipts in
      let same = read_receipt_hashes-reverse id db chained in
      let own : All (IsUnderOwnHash p) (reverse rows) =
        All-reverse (IsUnderOwnHash p) rows (IsChain-All p keys rows chained) in
      let (root, built, stated) =
        root_of-leaves p (reverse rows) own (rw same at (stores.rooted)) in
      record {
        own = stores.own;
        counted =
            stores.counted
            ∙ ap length same
            ∙ length-map (reverse rows) row_hash
            ∙ length-reverse rows;
        root = root;
        built = built;
        stated = stated;
        keyed = stores.keyed;
        signed = stores.signed;
        older = stores.older;
        kept = stores.kept;
      }

  -- From a store whose rows are chains, whatever the signing service answers: a checkpoint that
  -- `writeCheckpoint` returns is of the system, counts the rows that the database then holds of it,
  -- states the Merkle root of the hashes of their receipts from the oldest to the newest, verifies
  -- under the service's key, and is the newest in the database.
  pub write_checkpoint-IsStored :
      (now id : Text) (s : StoreState σ) {c : Checkpoint}
      → IsWellFormed p svc.key_id svc.public_key keys s.db
      → (write_checkpoint p svc now id s).0 ≡ ok (some c)
      → IsStored id c (write_checkpoint p svc now id s).1.db
  write_checkpoint-IsStored now id s {c} w h =
      let end = (write_checkpoint p svc now id s).1 in
      let after = (Run-Advances p svc keys (next s end start (checkpointed now id)) w).0 in
      Stores-IsStored id c end.db (after.chained id) (write_checkpoint-Stores p svc now id s h)
