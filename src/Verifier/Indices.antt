-- ===== src/Verifier/Indices.antt =====
-- verifyBundle, steps 9, 9b and 9c: the index of the documents, the disclosed nonces and the
-- disclosed identifiers, against the receipts.
use sigillo.Common.{
  ℕ, zero, suc, ◌+◌, ◌/◌, ◌%◌, Bool, true, false, not, ◌&&◌, ◌||◌, Option, none, some, List, [],
  ◌∷◌, ◌++◌, if◌then◌else◌, ◌==◌, ltb, Result, ok, err, ◌>>=◌, ◌>>◌,
}
use sigillo.Text.{Text, text_eq, codes}
use sigillo.Receipt.{
  Receipt, Version, v1, v4, Artifact, ArtifactRole, input, output, ArtifactText, role_text,
  HashScheme, plain, salted,
}
use sigillo.Verifier.{
  VerifierError, failed, require, read_line, Line, ArtifactsIndexEntry, OpeningEntry,
  artifacts_file, artifacts_line, opening_line, subject_line, find_receipt, has, artifacts_index,
  openings, subjects,
}

-- `String(n)`
unfoldable pub decimal : ℕ → ℕ → Text → Text
decimal zero n digits = digits
decimal (suc fuel) n digits =
    let digits' = (b'0' + n % 10) ∷ digits in
    let rest = decimal fuel (n / 10) digits' in if ltb n 10 then digits' else rest

abbrev pub number_text : ℕ → Text
number_text n = decimal (n + 1) n []

-- `texts.join(separator)`
unfoldable pub join : Text → List Text → Text
join separator [] = []
join separator (text ∷ []) = text
join separator (text ∷ other ∷ texts) = text ++ separator ++ join separator (other ∷ texts)

-- `texts.sort()`: by code units.
unfoldable pub text_before : Text → Text → Bool
text_before [] t = true
text_before (a ∷ s) [] = false
text_before (a ∷ s) (b ∷ t) = ltb a b || a == b && text_before s t

unfoldable pub insert : Text → List Text → List Text
insert text [] = text ∷ []
insert text (other ∷ texts) =
    if text_before text other then text ∷ other ∷ texts else other ∷ insert text texts

unfoldable pub sort : List Text → List Text
sort [] = []
sort (text ∷ texts) = insert text (sort texts)

abbrev canon_text : Option ArtifactText → Text
canon_text none = []
canon_text (some text) = text.canon

abbrev sha_text : Option ArtifactText → Text
sha_text none = []
sha_text (some text) = text.sha256

unfoldable pub artifact_key : ℕ → ArtifactRole → Text → Text → Option ArtifactText → Text
artifact_key seq role label sha256 text =
    join (0 ∷ [])
      (number_text seq ∷ role_text role ∷ label ∷ sha256 ∷ canon_text text ∷ sha_text text ∷ [])

unfoldable pub artifact_keys : ℕ → List Artifact → List Text
artifact_keys seq [] = []
artifact_keys seq (a ∷ artifacts) =
    artifact_key seq a.role a.label a.sha256 a.text ∷ artifact_keys seq artifacts

abbrev is_v1 : Version → Bool
is_v1 v1 = true
is_v1 _ = false

abbrev pub is_v4 : Version → Bool
is_v4 v4 = true
is_v4 _ = false

abbrev declared_by : ℕ → Option (List Artifact) → List Text
declared_by seq none = []
declared_by seq (some artifacts) = artifact_keys seq artifacts

unfoldable pub declared_artifacts : List Receipt → List Text
declared_artifacts [] = []
declared_artifacts (r ∷ receipts) =
    if is_v1 r.v
    then declared_artifacts receipts
    else declared_by r.seq r.artifacts ++ declared_artifacts receipts

unfoldable pub indexed_artifacts :
    ℕ → List (Line ArtifactsIndexEntry) → Result VerifierError (List Text)
indexed_artifacts n [] = ok []
indexed_artifacts n (line ∷ lines) = do
  entry ← read_line artifacts_index artifacts_index (artifacts_line n) line
  rest ← indexed_artifacts (n + 1) lines
  ok (artifact_key entry.seq entry.role entry.label entry.sha256 entry.text ∷ rest)

unfoldable pub check_artifacts :
    List Receipt → List (Line ArtifactsIndexEntry) → Result VerifierError (Unit {0})
check_artifacts receipts lines = do
  indexed ← indexed_artifacts 1 lines
  require
      (text_eq (join (10 ∷ []) (sort (declared_artifacts receipts)))
        (join (10 ∷ []) (sort indexed)))
      artifacts_index artifacts_file

abbrev pub is_salted : Option HashScheme → Bool
is_salted none = false
is_salted (some plain) = false
is_salted (some salted) = true

-- `` receipt[`${role}_hash_scheme`] ``
abbrev pub scheme_of : ArtifactRole → Receipt → Option HashScheme
scheme_of input r = r.input_hash_scheme
scheme_of output r = r.output_hash_scheme

abbrev pub opened_receipt : ℕ → Option Receipt → Result VerifierError Receipt
opened_receipt n none = err (failed openings (opening_line n))
opened_receipt n (some r) = ok r

abbrev pub opening_key : OpeningEntry → Text
opening_key entry = number_text entry.seq ++ codes ":" ++ role_text entry.role

-- The result is the set of what was opened.
unfoldable pub check_openings :
    List Receipt → ℕ → List Text → List (Line OpeningEntry) → Result VerifierError (List Text)
check_openings receipts n opened [] = ok opened
check_openings receipts n opened (line ∷ lines) = do
  entry ← read_line openings openings (opening_line n) line
  r ← opened_receipt n (find_receipt entry.seq receipts)
  require (is_v4 r.v && is_salted (scheme_of entry.role r)) openings (opening_line n)
  require (not (has (opening_key entry) opened)) openings (opening_line n)
  check_openings receipts (n + 1) (opening_key entry ∷ opened) lines

abbrev token_of : Option Text → List Text
token_of none = []
token_of (some token) = token ∷ []

unfoldable pub tokens_used : List Receipt → List Text
tokens_used [] = []
tokens_used (r ∷ receipts) = token_of r.actor.on_behalf_of ++ tokens_used receipts

unfoldable pub check_subjects :
    List Text → ℕ → List Text → List (Line Text) → Result VerifierError (List Text)
check_subjects used n named [] = ok named
check_subjects used n named (line ∷ lines) = do
  token ← read_line subjects subjects (subject_line n) line
  require (has token used) subjects (subject_line n)
  require (not (has token named)) subjects (subject_line n)
  check_subjects used (n + 1) (token ∷ named) lines
