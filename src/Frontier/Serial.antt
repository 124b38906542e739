-- ===== src/Frontier/Serial.antt =====
-- merkle-frontier.ts: `serializeFrontier` and `parseFrontier`. The JSON array has the nodes in the
-- source's order, the largest subtree first; the record's list has them reversed.
pub mod RoundTrip
use sigillo.Common.{
  ℕ, suc, ◌^◌, ◌-◌, ◌≡◌, Bool, true, false, ◌&&◌, ◌||◌, not, List, [], ◌∷◌, map, reverse, length,
  leb, ◌==◌, Option, none, some, if◌then◌else◌, Result, ok, err, ◌>>=◌, ◌>>◌, guard,
}
use sigillo.Crypto.{Bytes, CoreError, not_frontier}
use sigillo.Text.{Text, codes, text_eq}
use sigillo.Json.{
  Json, number, str, arr, obj, Number, whole, Items, Members, nil, cons, end, member,
}
use sigillo.Hex.{to_hex, from_hex, all_hex}
use sigillo.Frontier.{MerkleFrontier, set_bits}

abbrev pub max_safe_integer : ℕ
max_safe_integer = 2 ^ 53 - 1

abbrev hex_items : List Bytes → Items
hex_items [] = nil
hex_items (node ∷ nodes) = cons (str (to_hex node)) (hex_items nodes)

unfoldable pub serialize_frontier : MerkleFrontier → Json
serialize_frontier frontier = obj (
    member (codes "size") (number (whole frontier.size))
      (member (codes "nodes") (arr (hex_items (reverse frontier.nodes))) end))

-- `/^[0-9a-f]{64}$/`
unfoldable pub is_node_hex : Text → Bool
is_node_hex text = length text == 64 && all_hex text

unfoldable pub parse_node : Json → Result CoreError Bytes
parse_node (str text) = do guard (is_node_hex text) not_frontier; from_hex text
parse_node _ = err not_frontier

-- `nodes.map(…)`
unfoldable pub parse_nodes : Items → Result CoreError (List Bytes)
unfolding parse_node
parse_nodes nil = ok []
parse_nodes (cons value values) = do
  node ← parse_node value
  nodes ← parse_nodes values
  ok (node ∷ nodes)

abbrev count_items : Items → ℕ
count_items nil = 0
count_items (cons _ values) = suc (count_items values)

-- The members once their names are known to be `size` and `nodes`.
unfoldable pub parse_members : Json → Json → Result CoreError MerkleFrontier
unfolding parse_nodes
parse_members (number (whole size)) (arr values) = do
  guard (leb size max_safe_integer) not_frontier
  guard (count_items values == set_bits size) not_frontier
  nodes ← parse_nodes values
  ok (record { size = size; nodes = reverse nodes })
parse_members _ _ = err not_frontier

unfoldable pub parse_frontier : Json → Result CoreError MerkleFrontier
unfolding parse_members
parse_frontier (obj (member k v (member k' v' end))) =
    if text_eq k (codes "size") && text_eq k' (codes "nodes")
    then parse_members v v'
    else if text_eq k (codes "nodes") && text_eq k' (codes "size")
    then parse_members v' v
    else err not_frontier
parse_frontier _ = err not_frontier
