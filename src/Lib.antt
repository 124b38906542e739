-- ===== src/Lib.antt =====
-- Sigillo records what AI systems do as a chain of signed receipts. Each receipt carries the hash of
-- the one before it; a signer process holds the key and signs a receipt only as the next one of its
-- chain; checkpoints state the Merkle root of a chain's receipts. The parts modelled here, with the
-- paths of their sources from the repository's root:
--
-- - Crypto, Text, Json, Base64, Platform: what the code takes from the JavaScript runtime and from
--   packages. SHA-256, Ed25519, the canonical JSON form and dates are not in the repository; they are
--   the fields of `HashFunction` and `Platform`, with the output length and the byte range of a
--   SHA-256 digest, and the form and acceptance of a signature, as documented. Text is a list of
--   UTF-16 code units.
-- - Hex: packages/core/src/canonical.ts, `toHex` and `fromHex`.
-- - Merkle: packages/core/src/merkle.ts, the RFC 6962 tree: roots, inclusion proofs and their check.
--   Merkle/Tree.antt is the reference: the tree by recursion on its height. An index is a natural number.
-- - Frontier: packages/core/src/merkle-frontier.ts, the tree's right edge, kept in place of the
--   chain; Frontier/Serial.antt its JSON form. The node list is the source's array reversed.
-- - Receipt, Signing, Checkpoint: packages/core/src/receipt.ts (fields and hashed form), signing.ts
--   and checkpoint.ts.
-- - Signer: apps/signer/src/signer.ts and state.ts. Signer.antt holds the rules and the state;
--   Signer/Journal.antt reads receipts back; Signer/Daemon.antt is handleLine and the handling of a
--   connection's lines (daemon.ts). Requests are handled one after the other, so each is a
--   function of the state; Signer/Invariant.antt has the relation of all runs, with refusals and
--   crashes, against the log of the receipts whose signatures were returned. The relation starts from a
--   directory with retired systems and an empty journal.
-- - Receipt/Schema, Checkpoint/Schema: the schemas of packages/core/src/receipt.ts and checkpoint.ts,
--   over members already read.
-- - Store: apps/server/src/storage/store.ts, the database and what writes receipts and checkpoints to
--   it; the tables are lists of rows, the newest first, and the constraints those of schema.ts.
--   Store/Service.antt is the signing service as the store sees it: a state and calls that may answer
--   anything. Store/Prepare.antt makes an event a receipt, Insert.antt is insertReceipt, Judge.antt and
--   Reconcile.antt are reconcileNow, Append.antt writeReceipt and the public operations, CheckPoint.antt
--   writeCheckpoint. Judged.antt
--   and Recovery.antt say what a judgment means. Chain.antt states what the rows of a system are, Runs.antt has the relation of all
--   runs, and Verified.antt joins the store to the verifier; Lost.antt, Again.antt, Covers.antt and
--   Stored.antt are about one operation each. Random bytes and the time are drawn by the caller.
-- - Custody: the store before a service that keeps to a log of what it signs. Custody.antt is the
--   interface, `IsCustodian`; Custody/Runs.antt has the theorems about the store's runs before any such
--   service, and Custody/Level.antt those about a reconciliation.
-- - SignerClient: apps/server/src/signer/client.ts and errors.ts. SignerClient.antt is the client as the
--   service of the store, its requests handled by the signer of Signer/Daemon.antt: a request or its reply
--   may be lost, as `deliveries` says. SignerClient/Custodian.antt shows that it keeps to the signer's log.
--   SignerClient/Pending.antt is the client's own state, the requests that wait and the connection, event
--   by event; a reconnection and its handshake are one event, since every request waits for them.
-- - Verifier: packages/verifier/src/verify.ts. A bundle stands as what JSON.parse and the schemas made
--   of each line. Verifier/Chain.antt has the checks of the receipts, Indices.antt those of documents,
--   nonces and identifiers, Checkpoints.antt those of checkpoints, Verify.antt the whole; Previous.antt
--   and Anchors.antt compare two exports; Times.antt is anchorTimesOf.
-- - GenTime: packages/core/src/gentime.ts, the walk over a time stamp token's DER bytes to the element
--   of its time. The loop of `children` runs on fuel, the number of bytes.
-- - Anchoring: packages/core/src/anchoring.ts, what the attested times of the checkpoints prove of the
--   receipts. Times are milliseconds from 1970 on, a range ends before its `end`, and the loop from the
--   largest tree down is the recursion of `walk_down`. Whether a text is a date is a parameter.
--   Anchoring/Attested.antt and InOrder.antt say what the times are without the order of the code.
-- - Zip: packages/core/src/zip.ts, the archive of an export; Zip/Write.antt is createZip and
--   Zip/Read.antt is readZip. zlib and UTF-8 are parameters; the exclusive or of 32 bits is written out,
--   and a number that does not fit the bytes it is written to is an error.
-- - DocumentText: packages/core/src/text.ts, the canonical text of a document. The decoding of UTF-8 and
--   the normal form NFC are parameters.
-- - Privacy: packages/core/src/privacy.ts, with `openDigest` of the verifier.
-- - Throttle: apps/server/src/auth/throttle.ts, the limit on failed sign-in attempts.
-- - Examples: concrete runs.
--
-- Fuel: `split_loop`, `root_rounds`, `proof_rounds`, `audit_path_rounds`, `skip_levels` and
-- `set_bits_from` take the number of entries, the index or the size as fuel. Each round at least
-- halves or shortens its argument, so the fuel is enough. `root_rounds` and `proof_rounds` report the
-- error `out_of_fuel` where it is not. `find_end_from` takes the number of
-- places from the last one back to the first it tries. `read_pages` takes the number of receipts wanted: each page that
-- does not end the loop adds one.
--
-- Not modelled: the files that the state directory writes and their durability calls (a state file
-- holds what the map holds; a crash is a step of its own), the chains that a signer began before it
-- kept a journal (`init-from-db`, and state files of an older signer), the refusal of an index that is
-- not an integer or is negative, the messages of errors, sockets and the command lines, the deletion
-- and administration of systems in the database, its migrations and triggers, the rest of the HTTP
-- server and its pages, the gateway, the SDKs, and the verifier's command line and its checks of time
-- stamp tokens.
pub mod DocumentText
pub mod GenTime
pub mod Anchoring
pub mod Zip
pub mod Common
pub mod Crypto
pub mod Text
pub mod Json
pub mod Merkle
pub mod Frontier
pub mod Hex
pub mod Receipt
pub mod Base64
pub mod Platform
pub mod Signing
pub mod Checkpoint
pub mod Signer
pub mod Verifier
pub mod Privacy
pub mod Throttle
pub mod Store
pub mod Custody
pub mod SignerClient
pub mod Examples
