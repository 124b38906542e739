-- ===== src/GenTime/Walk.antt =====
-- What `element` and `children` read: each element lies within its limits, the loop ends, and the
-- children of an element tile its contents.
use sigillo.Common.{
  ℕ, zero, suc, ◌+◌, ◌-◌, ◌/◌, ◌%◌, ◌≤◌, ◌≡◌, ◌≢◌, ◌⊎◌, refl, false, ◌||◌, Option, none, some, List,
  [], ◌∷◌, ltb, ◌==◌, Bool-cases, inl, inr, Result, ok, err, arith,
}
use sigillo.Crypto.{Bytes}
use sigillo.GenTime.{
  Element, byte_at, long_length, within, long_element, element, WalkError, out_of_fuel, before_rest,
  after_element, found_or_none, walk, children,
}

abbrev pub Lies : ℕ → ℕ → Element → Type 0
Lies offset limit e = (offset + 2 ≤ e.start) × (e.start ≤ e.end) × (e.end ≤ limit)

within-Lies :
    (tag start size limit offset : ℕ) {e : Element}
    → offset + 2 ≤ start
    → within tag start size limit ≡ some e
    → Lies offset limit e
within-Lies tag start size limit offset {e} from h = elim (Bool-cases (ltb limit (start + size))) [
  | inl past ↦ let absent : none ≡ some e = rw past at (h) in cc
  | inr fits ↦
      let read : some (record { tag = tag; start = start; end = start + size }) ≡ some e =
        rw fits at (h) in
      let same : record { tag = tag; start = start; end = start + size } ≡ e = cc in
      rw (← same) (from, omega arith, ground (arith, fits))
]

long_element-Lies :
    (bytes : Bytes) (tag offset octets limit : ℕ) {e : Element}
    → long_element bytes tag (offset + 2) octets limit ≡ some e
    → Lies offset limit e
long_element-Lies bytes tag offset octets limit {e} h =
    elim (Bool-cases (octets == 0 || ltb 4 octets || ltb limit (offset + 2 + octets))) [
      | inl refused ↦ let absent : none ≡ some e = rw refused at (h) in cc
      | inr given ↦
          within-Lies tag (offset + 2 + octets) (long_length octets bytes (offset + 2) 0) limit
            offset (omega arith) (rw given at (h))
    ]

pub element-Lies :
    (bytes : Bytes) (offset limit : ℕ) {e : Element}
    → element bytes offset limit ≡ some e
    → Lies offset limit e
unfolding element
element-Lies bytes offset limit {e} h = elim (Bool-cases (ltb limit (offset + 2))) [
  | inl short ↦ let absent : none ≡ some e = rw short at (h) in cc
  | inr there ↦ elim (Bool-cases (byte_at bytes (offset + 1) / 128 % 2 == 1)) [
    | inr plain ↦ within-Lies _ (offset + 2) _ limit offset (omega arith) (rw (there, plain) at (h))
    | inl long ↦
        long_element-Lies bytes (byte_at bytes offset) offset (byte_at bytes (offset + 1) % 128)
          limit (rw (there, long) at (h))
  ]
]

-- Elements one after another, from one offset to another.
abbrev pub Tiles : Bytes → ℕ → List Element → ℕ → Type 0
Tiles bytes offset [] end = offset ≡ end
Tiles bytes offset (e ∷ elements) end =
    (element bytes offset end ≡ some e) × Lies offset end e × Tiles bytes e.end elements end

before_rest-ok :
    (e : Element) (rest : Result WalkError (List Element)) {found : List Element}
    → before_rest e rest ≡ ok found
    → (more : List Element) × (rest ≡ ok more) × (found ≡ e ∷ more)
before_rest-ok e (err thrown) h = cc
before_rest-ok e (ok more) h = (more, refl, cc)

before_rest-fuel :
    (e : Element) (rest : Result WalkError (List Element))
    → rest ≢ err out_of_fuel
    → before_rest e rest ≢ err out_of_fuel
before_rest-fuel e (err thrown) enough h = enough cc
before_rest-fuel e (ok found) enough h = cc

after_element-fuel :
    (next : ℕ → Result WalkError (List Element)) (read : Option Element)
    → ((e : Element) → read ≡ some e → next e.end ≢ err out_of_fuel)
    → after_element next read ≢ err out_of_fuel
after_element-fuel next none enough h = cc
after_element-fuel next (some e) enough h = before_rest-fuel e (next e.end) (enough e refl) h

-- Each round reads at least two bytes, so as many rounds as there are bytes are enough: the loop of
-- `children` ends, whatever the bytes are.
pub walk_ends :
    (fuel : ℕ) (bytes : Bytes) (offset end : ℕ)
    → end - offset ≤ fuel
    → walk fuel bytes offset end ≢ err out_of_fuel
unfolding walk
walk_ends zero bytes offset end enough h =
    let stopped : (ltb offset end) ≡ false = ground (arith, enough) in
    let read : ok [] ≡ err out_of_fuel = rw stopped at (h) in cc
walk_ends (suc fuel) bytes offset end enough h = elim (Bool-cases (ltb offset end)) [
  | inr stopped ↦ let read : ok [] ≡ err out_of_fuel = rw stopped at (h) in cc
  | inl there ↦
      after_element-fuel (λ next. walk fuel bytes next end) (element bytes offset end)
        (λ e read.
          let lies = element-Lies bytes offset end read in
          walk_ends fuel bytes e.end end (omega (arith, lies.0, lies.1, enough)))
        (rw there at (h))
]

after_element-Tiles :
    (bytes : Bytes) (offset end : ℕ) (next : ℕ → Result WalkError (List Element))
    (read : Option Element) {found : List Element}
    → ((e : Element) → read ≡ some e → (element bytes offset end ≡ some e) × Lies offset end e)
    → ((e : Element) (more : List Element)
        → read ≡ some e
        → next e.end ≡ ok more
        → Tiles bytes e.end more end)
    → after_element next read ≡ ok found
    → Tiles bytes offset found end
after_element-Tiles bytes offset end next none lies tiles h = cc
after_element-Tiles bytes offset end next (some e) lies tiles h =
    let (more, read, split) = before_rest-ok e (next e.end) h in
    rw split ((lies e refl).0, (lies e refl).1, tiles e more refl read)

abbrev read_nothing : Result WalkError (List Element)
read_nothing = ok []

ended :
    (bytes : Bytes) (offset end : ℕ) {found : List Element}
    → ltb offset end ≡ false
    → offset ≤ end
    → read_nothing ≡ ok found
    → Tiles bytes offset found end
ended bytes offset end {found} stopped below h =
    let empty : [] ≡ found = cc in rw (← empty) (ground (arith, stopped, below))

walk-Tiles :
    (fuel : ℕ) (bytes : Bytes) (offset end : ℕ) {found : List Element}
    → offset ≤ end
    → walk fuel bytes offset end ≡ ok found
    → Tiles bytes offset found end
unfolding walk
walk-Tiles zero bytes offset end {found} below h = elim (Bool-cases (ltb offset end)) [
  | inl there ↦ let starved : err out_of_fuel ≡ ok found = rw there at (h) in cc
  | inr stopped ↦ ended bytes offset end stopped below (rw stopped at (h))
]
walk-Tiles (suc fuel) bytes offset end {found} below h = elim (Bool-cases (ltb offset end)) [
  | inr stopped ↦ ended bytes offset end stopped below (rw stopped at (h))
  | inl there ↦
      after_element-Tiles bytes offset end (λ next. walk fuel bytes next end)
        (element bytes offset end) (λ e read. (read, element-Lies bytes offset end read))
        (λ e more read rest.
          walk-Tiles fuel bytes e.end end (element-Lies bytes offset end read).2 rest)
        (rw there at (h))
]

found_or_none-Tiles :
    (bytes : Bytes) (offset end : ℕ) (walked : Result WalkError (List Element))
    → ((found : List Element) → walked ≡ ok found → Tiles bytes offset found end)
    → (found_or_none walked ≡ []) ⊎ Tiles bytes offset (found_or_none walked) end
found_or_none-Tiles bytes offset end (err thrown) tiles = inl refl
found_or_none-Tiles bytes offset end (ok found) tiles = inr (tiles found refl)

-- The children of an element are none, or they tile its contents: the first is the element read where
-- the contents begin, each other the one read where the one before it ends, every one has at least two
-- bytes of header and lies within the contents, and the last ends where they end.
pub children-Tiles :
    (bytes : Bytes) (parent : Element)
    → parent.start ≤ parent.end
    → (children bytes parent ≡ []) ⊎ Tiles bytes parent.start (children bytes parent) parent.end
unfolding children
children-Tiles bytes parent below =
    found_or_none-Tiles bytes parent.start parent.end
      (walk (parent.end - parent.start) bytes parent.start parent.end)
      (λ found read.
        walk-Tiles (parent.end - parent.start) bytes parent.start parent.end below read)
