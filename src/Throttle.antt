-- ===== src/Throttle.antt =====
-- apps/server/src/auth/throttle.ts: how many failed attempts a client may make. The map is a list in
-- insertion order; times are milliseconds, and differences of times are written as sums.
use sigillo.Common.{
  ℕ, ◌+◌, ◌-◌, ◌*◌, ◌^◌, ◌≤◌, ◌<◌, ◌≡◌, refl, Bool, true, false, ◌&&◌, Option, none, some, List, [],
  ◌∷◌, ◌++◌, length, ltb, leb, min, if◌then◌else◌, arith, Bool-cases, Option-cases, inl, inr,
  length-append,
}
use sigillo.Text.{Text, text_eq}

pub record ThrottleOptions : Type 0 where
  pub max_failures : ℕ
  pub window_ms : ℕ
  pub lockout_ms : ℕ
  pub max_lockout_ms : ℕ
  pub forget_after_ms : ℕ
  pub max_entries : ℕ

pub record Entry : Type 0 where
  pub failures : List ℕ
  pub locked_until : ℕ
  pub lockouts : ℕ
  pub last_failure : ℕ

abbrev pub Entries : Type 0
Entries = List (Text × Entry)

unfoldable pub get_entry : Text → Entries → Option Entry
get_entry client [] = none
get_entry client ((other, e) ∷ entries) =
    if text_eq other client then some e else get_entry client entries

unfoldable pub delete_entry : Text → Entries → Entries
delete_entry client [] = []
delete_entry client ((other, e) ∷ entries) =
    if text_eq other client then entries else (other, e) ∷ delete_entry client entries

-- What a change of the fields of a client's entry does to the map.
unfoldable pub update_entry : Text → Entry → Entries → Entries
update_entry client e [] = []
update_entry client e ((other, old) ∷ entries) =
    if text_eq other client
    then (other, e) ∷ entries
    else (other, old) ∷ update_entry client e entries

unfoldable pub is_locked : Text → ℕ → Entries → Bool
is_locked client now entries = elim (get_entry client entries) [
  | none ↦ false
  | some e ↦ ltb now e.locked_until
]

unfoldable pub record_success : Text → Entries → Entries
record_success client entries = delete_entry client entries

module _ (options : ThrottleOptions) where
  unfoldable pub recent : ℕ → List ℕ → List ℕ
  recent now [] = []
  recent now (at_time ∷ failures) =
      if ltb now (at_time + options.window_ms)
      then at_time ∷ recent now failures
      else recent now failures

  abbrev pub lockout_of : ℕ → ℕ
  lockout_of lockouts = min (options.lockout_ms * 2 ^ min (lockouts - 1) 30) options.max_lockout_ms

  -- The entry after a failure that counts.
  unfoldable pub count_failure : ℕ → Entry → Entry
  count_failure now e =
      let failures = recent now e.failures ++ now ∷ [] in
      if leb options.max_failures (length failures)
      then record {
        failures = [];
        locked_until = now + lockout_of (e.lockouts + 1);
        lockouts = e.lockouts + 1;
        last_failure = now;
      }
      else record {
        failures = failures;
        locked_until = e.locked_until;
        lockouts = e.lockouts;
        last_failure = now;
      }

  -- The clients with nothing left to hold against them go.
  unfoldable pub drop_settled : ℕ → Entries → Entries
  drop_settled now [] = []
  drop_settled now ((client, e) ∷ entries) =
      if leb e.locked_until now && ltb (e.last_failure + options.window_ms) now
      then drop_settled now entries
      else (client, e) ∷ drop_settled now entries

  unfoldable pub drop_oldest : Entries → Entries
  drop_oldest [] = []
  drop_oldest (pair ∷ entries) =
      if ltb (length (pair ∷ entries)) options.max_entries
      then pair ∷ entries
      else drop_oldest entries

  unfoldable pub make_room : ℕ → Entries → Entries
  make_room now entries =
      if ltb (length entries) options.max_entries
      then entries
      else drop_oldest (drop_settled now entries)

  abbrev pub new_entry : ℕ → Entry
  new_entry now = record { failures = []; locked_until = 0; lockouts = 0; last_failure = now }

  abbrev pub with_new : Text → ℕ → Entries → Entries × Entry
  with_new client now entries =
      (make_room now entries ++ (client, new_entry now) ∷ [], new_entry now)

  -- The map and the client's entry, made anew where there is none or it is to be forgotten.
  unfoldable pub entered : Text → ℕ → Entries → Entries × Entry
  entered client now entries = elim (get_entry client entries) [
    | none ↦ with_new client now entries
    | some e ↦ elim (ltb (e.last_failure + options.forget_after_ms) now) [
      | true ↦ with_new client now (delete_entry client entries)
      | false ↦ (entries, e)
    ]
  ]

  unfoldable pub record_failure : Text → ℕ → Entries → Entries
  record_failure client now entries =
      let (entries', e) = entered client now entries in
      if ltb now e.locked_until
      then entries'
      else update_entry client (count_failure now e) entries'

  length-drop_oldest :
      (entries : Entries)
      → 0 < options.max_entries
      → length (drop_oldest entries) < options.max_entries
  unfolding drop_oldest
  length-drop_oldest [] h = h
  length-drop_oldest (pair ∷ entries) h = ground (arith, length-drop_oldest entries h)

  length-make_room :
      (now : ℕ) (entries : Entries)
      → 0 < options.max_entries
      → length (make_room now entries) < options.max_entries
  unfolding make_room
  length-make_room now entries h = ground (arith, length-drop_oldest (drop_settled now entries) h)

  length-update_entry :
      (client : Text) (e : Entry) (entries : Entries)
      → length (update_entry client e entries) ≡ length entries
  unfolding update_entry
  length-update_entry client e [] = refl
  length-update_entry client e ((other, old) ∷ entries) =
      ground (arith, length-update_entry client e entries)

  length-with_new :
      (client : Text) (now : ℕ) (entries : Entries)
      → 0 < options.max_entries
      → length (with_new client now entries).0 ≤ options.max_entries
  length-with_new client now entries h = omega (
    arith,
    length-append (make_room now entries) ((client, new_entry now) ∷ []),
    length-make_room now entries h,
  )

  length-entered :
      (client : Text) (now : ℕ) (entries : Entries)
      → 0 < options.max_entries
      → length entries ≤ options.max_entries
      → length (entered client now entries).0 ≤ options.max_entries
  unfolding entered
  length-entered client now entries h bound = elim (Option-cases (get_entry client entries)) [
    | inl missing ↦ rw (entered, missing) (length-with_new client now entries h)
    | inr (e, found) ↦ elim (Bool-cases (ltb (e.last_failure + options.forget_after_ms) now)) [
      | inl old ↦
          rw (entered, found, old) (length-with_new client now (delete_entry client entries) h)
      | inr recent_failure ↦ rw (entered, found, recent_failure) bound
    ]
  ]

  -- However many clients fail, no more of them are remembered than the options allow.
  pub length-record_failure :
      (client : Text) (now : ℕ) (entries : Entries)
      → 0 < options.max_entries
      → length entries ≤ options.max_entries
      → length (record_failure client now entries) ≤ options.max_entries
  unfolding record_failure
  length-record_failure client now entries h bound =
      let (entries', e) : Entries × Entry = entered client now entries in
      ground (
        arith,
        length-entered client now entries h bound,
        length-update_entry client (count_failure now e) entries',
      )
