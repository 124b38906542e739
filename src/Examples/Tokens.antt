-- ===== src/Examples/Tokens.antt =====
-- A time stamp token built element by element, and its time read back.
use sigillo.Common.{ℕ, ◌≡◌, ◌≢◌, ◌⊎◌, refl, Option, none, some, [], ◌∷◌, ◌++◌, length, err, arith}
use sigillo.Crypto.{Bytes}
use sigillo.Text.{codes}
use sigillo.GenTime.{Element, element, long_length, walk, children, gen_time_element, out_of_fuel}
use sigillo.GenTime.Walk.{walk_ends, Tiles, children-Tiles}
use sigillo.GenTime.Inside.{IsInside, gen_time_element-IsInside}

-- A short element.
abbrev der : ℕ → Bytes → Bytes
der tag contents = tag ∷ length contents ∷ contents

abbrev tst_info : Bytes
tst_info =
    der 48 (der 2 [] ++ der 6 [] ++ der 48 [] ++ der 2 [] ++ der 24 (codes "20260101120000Z"))

abbrev signed_data : Bytes
signed_data = der 48 (der 2 [] ++ der 49 [] ++ der 48 (der 6 [] ++ der 160 (der 4 tst_info)))

abbrev token : Bytes
token = der 48 (der 48 [] ++ der 48 (der 6 [] ++ der 160 signed_data))

abbrev or_nowhere : Option Element → Element
or_nowhere none = record { tag = 0; start = 0; end = 0 }
or_nowhere (some e) = e

abbrev time_element : Element
time_element = or_nowhere (gen_time_element token)

token-gen_time_element : gen_time_element token ≡ some time_element
unfolding gen_time_element element children walk long_length
token-gen_time_element = refl

gen_time_element-IsInside_example : IsInside token time_element
gen_time_element-IsInside_example = gen_time_element-IsInside token token-gen_time_element

walk_ends_example : walk 8 tst_info 2 10 ≢ err out_of_fuel
walk_ends_example = walk_ends 8 tst_info 2 10 (omega arith)

abbrev whole : Element
whole = record { tag = 48; start = 2; end = length tst_info }

children-Tiles_example :
    (children tst_info whole ≡ []) ⊎ Tiles tst_info 2 (children tst_info whole) (length tst_info)
children-Tiles_example = children-Tiles tst_info whole (omega arith)
