-- ===== src/SignerClient/Custodian.antt =====
-- The client's service keeps to the signer's log, whatever is lost on the way and however the signer
-- crashes: the store's runs before it are runs before a service that keeps a log.
use sigillo.Common.{ℕ, ◌+◌, ◌≡◌, refl, none, List, [], ok, All}
use sigillo.Text.{Text}
use sigillo.Platform.{Platform}
use sigillo.Receipt.{Receipt}
use sigillo.Signer.{SystemState, SignerKey, get_system, sign_receipt, checkpoint}
use sigillo.Signer.Log.{log_of}
use sigillo.Signer.Invariant.{Reach, IsRetired, opened, Reach-IsSound}
use sigillo.Signer.Chain.{Tracks-IsLinked}
use sigillo.Signer.Journal.{receipts, head}
use sigillo.Signer.Recovery.{receipts-Reach}
use sigillo.Signer.Daemon.{handle_line, reply, checkpoint_answer}
use sigillo.Verifier.Indices.{number_text}
use sigillo.Store.Service.{StoreState, open_store}
use sigillo.SignerClient.Answers.{
  Moves, Logged, Moves-Logged, sign-Signed, heard-directory, head-IsHead, head-Headed,
  receipts-Listed, receipts-All,
}
use sigillo.Custody.Older.{IsOlder}
use sigillo.Store.Reconcile.{reconcile_now}
use sigillo.Custody.Level.{IsAgreed}
use sigillo.Custody.Runs.{IsHonest, stored_behind, stored_level}
use sigillo.Store.{Database, chain_of, public_key_for}
use sigillo.Store.Ordered.{receipts_of}
use sigillo.Store.Runs.{Run}
use sigillo.Custody.{IsCustodian}
use sigillo.SignerClient.{Link, next_delivery, exchange, signer_client}

module _ (p : Platform) (key : SignerKey) (tolerance : ℕ) where
  -- The signer behind the client keeps to its log.
  unfoldable client_custodian : IsCustodian p (signer_client p key tolerance)
  unfolding exchange handle_line
  client_custodian = record {
    Logged = Logged p key tolerance;
    Moves = Moves p key tolerance;
    signs = λ r l log reach.
        sign-Signed p key tolerance (number_text (l.last_id + 1)) (next_delivery l.deliveries) l r
          log (sign_receipt p key tolerance l.now r l.directory).0 reach refl;
    heads = λ id l log reach.
        head-Headed p key tolerance (number_text (l.last_id + 1)) id (next_delivery l.deliveries) l
          log (head id l.directory) reach
          (head-IsHead p key tolerance id l.directory log (get_system id l.directory.systems) refl
            (Reach-IsSound p key tolerance reach id));
    lists = λ id first limit l log reach.
        receipts-Listed p key tolerance (number_text (l.last_id + 1)) (next_delivery l.deliveries) l
          log (receipts id first limit l.directory) reach
          (λ found done.
            receipts-All p key tolerance id first limit log (receipts id first limit l.directory)
              (receipts-Reach p key tolerance id first limit reach) done);
    checks = λ id l log reach.
        rw
          (heard-directory p key tolerance (number_text (l.last_id + 1))
            (next_delivery l.deliveries) l.directory
            (reply (number_text (l.last_id + 1)) checkpoint_answer
              (checkpoint p key tolerance l.now id l.directory)))
          reach;
    moves = Moves-Logged p key tolerance;
    links = λ {s} {log} id reach.
        Tracks-IsLinked p key tolerance (get_system id s.directory.systems) (log_of id log)
          (Reach-IsSound p key tolerance reach id);
  }

  -- Take a signer opened with no system but retired ones, and a store opened on a database without
  -- receipts, for the signer's key, not yet on file. Let creations, appends, batches, reconciliations,
  -- checkpoints and restarts follow one another, requests or replies be lost on the way, the signer's
  -- clock move, and the signer crash in the middle of a write. Then the rows of every system are the
  -- older part of the receipts that the signer has signed for it: the database holds nothing that the
  -- signer did not sign, and what it is missing is the newest of the signer's chain.
  pub stored_is_signed :
      (systems : List SystemState) (db : Database) {s s' : StoreState Link}
      → All IsRetired systems
      → s.service.directory ≡ record { systems = systems; journal = [] }
      → db.receipts ≡ []
      → public_key_for key.key_id db.signing_keys ≡ none
      → open_store p (signer_client p key tolerance) db ≡ ok s.db
      → (run : Run p (signer_client p key tolerance) s s')
      → IsHonest p (signer_client p key tolerance) (Moves p key tolerance) run
      → (log : List Receipt) × Reach p key tolerance s'.service.directory log
        × ((id : Text) → IsOlder (receipts_of (chain_of id s'.db.receipts)) (log_of id log))
  unfolding client_custodian
  stored_is_signed systems db none_active bare empty new started run honest =
      stored_behind p client_custodian db empty new started (rw bare (opened systems none_active))
        run honest

  -- After any such run, if a reconciliation of a system ends in agreement, whether it found both sides
  -- level or took receipts back, then the database holds of that system exactly the receipts that the
  -- signer has signed.
  pub reconciled_is_signed :
      (systems : List SystemState) (db : Database) {s s' : StoreState Link} (now id : Text)
      → All IsRetired systems
      → s.service.directory ≡ record { systems = systems; journal = [] }
      → db.receipts ≡ []
      → public_key_for key.key_id db.signing_keys ≡ none
      → open_store p (signer_client p key tolerance) db ≡ ok s.db
      → (run : Run p (signer_client p key tolerance) s s')
      → IsHonest p (signer_client p key tolerance) (Moves p key tolerance) run
      → IsAgreed (reconcile_now p (signer_client p key tolerance) now id s').0
      → (log : List Receipt) × Reach p key tolerance
          (reconcile_now p (signer_client p key tolerance) now id s').1.service.directory
          log
        × (receipts_of (
              chain_of id (reconcile_now p (signer_client p key tolerance) now id s').1.db.receipts)
            ≡ log_of id log)
  unfolding client_custodian
  reconciled_is_signed systems db now id none_active bare empty new started run honest agreed =
      stored_level p client_custodian db now id empty new started
        (rw bare (opened systems none_active)) run honest agreed
