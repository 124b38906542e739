-- ===== src/GenTime.antt =====
-- packages/core/src/gentime.ts: the time that an RFC 3161 token attests, read from its DER bytes.
pub mod Walk
pub mod Inside
use sigillo.Common.{
  ℕ, zero, suc, ◌+◌, ◌-◌, ◌*◌, ◌/◌, ◌%◌, Bool, true, false, not, ◌&&◌, ◌||◌, Option, none, some,
  List, [], ◌∷◌, ◌++◌, length, take, drop, get_elem?, leb, ltb, ◌==◌, if◌then◌else◌, Result, ok,
  err,
}
use sigillo.Crypto.{Bytes}
use sigillo.Text.{Text, codes, text_eq}

-- `start` and `end` delimit the contents, in the whole buffer.
pub record Element : Type 0 where
  pub tag : ℕ
  pub start : ℕ
  pub end : ℕ

abbrev value_or_zero : Option ℕ → ℕ
value_or_zero none = 0
value_or_zero (some byte) = byte

-- `bytes[index] ?? 0`
abbrev pub byte_at : Bytes → ℕ → ℕ
byte_at bytes index = value_or_zero (get_elem? bytes index)

-- The loop over the octets of a long length.
unfoldable pub long_length : ℕ → Bytes → ℕ → ℕ → ℕ
long_length zero bytes at so_far = so_far
long_length (suc octets) bytes at so_far =
    long_length octets bytes (at + 1) (so_far * 256 + byte_at bytes at)

abbrev pub within : ℕ → ℕ → ℕ → ℕ → Option Element
within tag start size limit =
    if ltb limit (start + size)
    then none
    else some (record { tag = tag; start = start; end = start + size })

-- `octets` is the low seven bits of the length byte.
abbrev pub long_element : Bytes → ℕ → ℕ → ℕ → ℕ → Option Element
long_element bytes tag start octets limit =
    if octets == 0 || ltb 4 octets || ltb limit (start + octets)
    then none
    else within tag (start + octets) (long_length octets bytes start 0) limit

unfoldable pub element : Bytes → ℕ → ℕ → Option Element
element bytes offset limit =
    if ltb limit (offset + 2)
    then none
    else if byte_at bytes (offset + 1) / 128 % 2 == 1
    then long_element bytes (byte_at bytes offset) (offset + 2) (byte_at bytes (offset + 1) % 128)
        limit
    else within (byte_at bytes offset) (offset + 2) (byte_at bytes (offset + 1)) limit

-- `out_of_fuel` is the model's own.
pub data WalkError : Type 0 where
  malformed out_of_fuel : WalkError

abbrev pub before_rest : Element → Result WalkError (List Element) → Result WalkError (List Element)
before_rest e (err thrown) = err thrown
before_rest e (ok found) = ok (e ∷ found)

-- One round: the element at the offset, and the rest from its end on.
abbrev pub after_element :
    (ℕ → Result WalkError (List Element)) → Option Element → Result WalkError (List Element)
after_element next none = err malformed
after_element next (some child) = before_rest child (next child.end)

-- The loop of `children`.
unfoldable pub walk : ℕ → Bytes → ℕ → ℕ → Result WalkError (List Element)
walk zero bytes offset end = if ltb offset end then err out_of_fuel else ok []
walk (suc fuel) bytes offset end =
    if ltb offset end
    then after_element (λ next. walk fuel bytes next end) (element bytes offset end)
    else ok []

abbrev pub found_or_none : Result WalkError (List Element) → List Element
found_or_none (err _) = []
found_or_none (ok found) = found

unfoldable pub children : Bytes → Element → List Element
children bytes parent =
    found_or_none (walk (parent.end - parent.start) bytes parent.start parent.end)

abbrev pub tag_sequence : ℕ
tag_sequence = 48

abbrev pub tag_oid : ℕ
tag_oid = 6

abbrev pub tag_explicit_0 : ℕ
tag_explicit_0 = 160

abbrev pub tag_octet_string : ℕ
tag_octet_string = 4

abbrev pub tag_generalized_time : ℕ
tag_generalized_time = 24

-- `x?.tag !== tag` ends the reading.
abbrev pub tagged : ℕ → Option Element → Option Element
tagged tag none = none
tagged tag (some e) = if e.tag == tag then some e else none

abbrev pub then_read {ℓ} : {A : Type ℓ} → Option Element → (Element → Option A) → Option A
then_read none next = none
then_read (some e) next = next e

abbrev pub is_tagged : ℕ → Option Element → Bool
is_tagged tag none = false
is_tagged tag (some e) = e.tag == tag

module _ (token : Bytes) where
  -- The child at a place.
  abbrev pub child : Element → ℕ → Option Element
  child parent index = get_elem? (children token parent) index

  -- A TimeStampResp starts with a status; a bare token with an OID.
  abbrev pub content_info : Element → Option Element
  content_info outer = if is_tagged tag_sequence (child outer 0) then child outer 1 else some outer

  abbrev pub outer_element : Option Element
  outer_element =
      then_read (tagged tag_sequence (element token 0 (length token)))
        (λ outer. if outer.end == length token then some outer else none)

  abbrev pub content_of : Element → Option Element
  content_of info =
      then_read (tagged tag_oid (child info 0))
        (λ content_type. tagged tag_explicit_0 (child info 1))

  -- The element of genTime.
  unfoldable pub gen_time_element : Option Element
  gen_time_element = then_read outer_element (λ outer.
      then_read (tagged tag_sequence (content_info outer)) (λ info.
        then_read (content_of info) (λ content.
          then_read (tagged tag_sequence (child content 0)) (λ signed_data.
            then_read (tagged tag_sequence (child signed_data 2)) (λ encap.
              then_read (tagged tag_explicit_0 (child encap 1)) (λ e_content.
                then_read (tagged tag_octet_string (child e_content 0)) (λ octets.
                  then_read (tagged tag_sequence (element token octets.start octets.end))
                    (λ tst_info. tagged tag_generalized_time (child tst_info 4)))))))))
