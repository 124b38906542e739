-- ===== src/Crypto.antt =====
-- Byte strings, and the hash function that core calls through node:crypto (canonical.ts, `sha256`).
-- Its code is not in the repository, so it is a parameter with its documented output length.
use sigillo.Common.{ℕ, ◌<◌, List, length, ◌≡◌, All}

abbrev pub Bytes : Type 0
Bytes = List ℕ

-- A byte string in JavaScript holds bytes only.
abbrev pub IsBytes : Bytes → Type 0
IsBytes = All (λ b. b < 256)

abbrev pub hash_bytes : ℕ
hash_bytes = 32

pub record HashFunction : Type 0 where
  pub sha256 : Bytes → Bytes
  pub length-sha256 : (message : Bytes) → length (sha256 message) ≡ hash_bytes
  pub sha256-IsBytes : (message : Bytes) → IsBytes (sha256 message)

-- The errors that core throws, one for each message. `out_of_fuel` is the model's own: no theorem
-- leaves it possible.
pub data CoreError : Type 0 where
  not_hash not_in_tree wrong_length too_few_nodes not_frontier not_hex out_of_fuel : CoreError
