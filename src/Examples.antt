-- ===== src/Examples.antt =====
-- Concrete runs: a hash function and a platform that compute, with the documented behaviour, and
-- under each child the theorems at inputs where their hypotheses hold.
pub mod Trees
pub mod States
pub mod Signing
pub mod Export
pub mod Stores
pub mod Resends
pub mod Tokens
pub mod Checkpoints
pub mod Texts
pub mod Clients
pub mod Times
pub mod Archives
use sigillo.Common.{
  ℕ, zero, suc, ◌+◌, ◌*◌, ◌/◌, ◌%◌, ◌≡◌, Bool, true, List, [], ◌∷◌, ◌++◌, length, replicate, arith,
  All, refl, if◌then◌else◌,
}
use sigillo.Crypto.{Bytes, IsBytes, HashFunction}
use sigillo.Text.{Text, text_eq, text_eq_refl, codes}
use sigillo.Json.{
  Json, Number, whole, below_zero, fraction, Items, nil, cons, Members, end, member, null, boolean,
  number, str, arr, obj,
}
use sigillo.Base64.{is_signature_text, padded_twice, is_base64_char}
use sigillo.Platform.{Platform}

-- The digits of a number to base 256, the lowest first.
unfoldable pub digits : ℕ → ℕ → Bytes
digits zero n = []
digits (suc count) n = n % 256 ∷ digits count (n / 256)

pub length-digits : (count n : ℕ) → length (digits count n) ≡ count
unfolding digits
length-digits zero n = refl
length-digits (suc count) n = omega (arith, length-digits count (n / 256))

pub digits-IsBytes : (count n : ℕ) → IsBytes (digits count n)
unfolding digits
digits-IsBytes zero n = tt
digits-IsBytes (suc count) n = (omega arith, digits-IsBytes count (n / 256))

abbrev pub polynomial : Bytes → ℕ
polynomial [] = 7
polynomial (byte ∷ bytes) = (polynomial bytes * 263 + byte + 1) % 1000003

abbrev pub toy_hash : HashFunction
toy_hash = record {
  sha256 = λ message. digits 32 (polynomial message);
  length-sha256 = λ message. length-digits 32 (polynomial message);
  sha256-IsBytes = λ message. digits-IsBytes 32 (polynomial message);
}

-- A flat image of a JSON value.
abbrev mutual
  pub flat : Json → Bytes
  flat null = 1 ∷ []
  flat (boolean b) = (if b then 3 else 2) ∷ []
  flat (number (whole n)) = 4 ∷ digits 8 n
  flat (number (below_zero n)) = 5 ∷ digits 8 n
  flat (number (fraction n)) = 6 ∷ digits 8 n
  flat (str text) = 7 ∷ text
  flat (arr values) = 8 ∷ flat_items values
  flat (obj ms) = 9 ∷ flat_members ms

  pub flat_items : Items → Bytes
  flat_items nil = []
  flat_items (cons value values) = flat value ++ 10 ∷ flat_items values

  pub flat_members : Members → Bytes
  flat_members end = []
  flat_members (member name value ms) = name ++ flat value ++ 11 ∷ flat_members ms

-- The same signature for every message.
abbrev pub toy_signature : Text
toy_signature = replicate 86 b'A' ++ codes "=="

pub toy_signature-IsSignature : is_signature_text toy_signature ≡ true
unfolding is_signature_text padded_twice is_base64_char
toy_signature-IsSignature = refl

abbrev pub toy_platform : Platform
toy_platform = record {
  hash = toy_hash;
  canonical_bytes = flat;
  sign = λ private_key message. toy_signature;
  verify = λ message signature public_key. text_eq signature toy_signature;
  public_key = λ private_key. private_key;
  verify-sign = λ private_key message. text_eq_refl toy_signature;
  sign-IsSignature = λ private_key message. toy_signature-IsSignature;
  date_parse = λ text. length text;
  to_iso_string = λ time. replicate time b'0';
  reads_back = λ text. true;
  is_canonical_base64 = λ text. true;
  normalise = λ text. text;
}
