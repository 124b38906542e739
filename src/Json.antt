-- ===== src/Json.antt =====
-- A value as `JSON.parse` returns it. The members of an object have distinct names.
use sigillo.Common.{ℕ, Bool, List, [], ◌∷◌}
use sigillo.Text.{Text}

-- A whole number, one below zero, or one that is not whole (its digits are never looked at).
pub data Number : Type 0 where
  whole below_zero fraction : ℕ → Number

mutual
  pub data Json : Type 0 where
    null : Json
    boolean : Bool → Json
    number : Number → Json
    str : Text → Json
    arr : Items → Json
    obj : Members → Json

  pub data Items : Type 0 where
    nil : Items
    cons : Json → Items → Items

  pub data Members : Type 0 where
    end : Members
    member : Text → Json → Members → Members

abbrev pub items : Items → List Json
items nil = []
items (cons v vs) = v ∷ items vs

abbrev pub of_list : List Json → Items
of_list [] = nil
of_list (v ∷ vs) = cons v (of_list vs)

abbrev pub members : Members → List (Text × Json)
members end = []
members (member name v ms) = (name, v) ∷ members ms
