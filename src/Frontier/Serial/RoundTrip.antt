-- ===== src/Frontier/Serial/RoundTrip.antt =====
-- A frontier read back from its JSON form.
use mathlib.Core.List.{reverse-reverse, reverse-cons}
use sigillo.Common.{
  ℕ, suc, ◌≤◌, ◌≡◌, refl, sym, ap, ◌∙◌, true, ◌&&◌, List, [], ◌∷◌, ◌++◌, reverse, length, leb, ◌==◌,
  ok, All, arith, le→leb, leb→le, >>=-eq-ok, length-reverse, ==_iff, guard-eq-ok, ok-injective,
  err-ne-ok, Bool-cases, inl, inr,
}
use sigillo.Crypto.{Bytes, IsBytes, HashFunction, not_frontier}
use sigillo.Text.{text_eq_refl, text_eq, codes}
use sigillo.Json.{Json, number, str, arr, obj, whole, Items, nil, cons, end, member}
use sigillo.Hex.{to_hex, from_hex, all_hex}
use sigillo.Hex.RoundTrip.{
  from_hex-to_hex, length-to_hex, all_hex-to_hex, to_hex-from_hex, length-from_hex,
}
use sigillo.Merkle.Tree.{length-tree_hash, tree_hash-IsBytes}
use sigillo.Frontier.{MerkleFrontier, set_bits}
use sigillo.Frontier.Serial.{
  max_safe_integer, hex_items, serialize_frontier, is_node_hex, parse_node, parse_nodes,
  count_items, parse_members, parse_frontier,
}
use sigillo.Frontier.Covers.{Covers, done, even, odd}
use sigillo.Frontier.Root.{IsFrontierOf, set_bits-IsFrontierOf}

-- A node is a hash: 32 bytes.
abbrev pub IsNode : Bytes → Type 0
IsNode node = (length node ≡ 32) × IsBytes node

-- What a state file can hold: as many nodes as the size has set bits, each one a hash.
pub record IsSerializable (f : MerkleFrontier) : Type 0 where
  pub safe : f.size ≤ max_safe_integer
  pub counted : set_bits f.size ≡ length f.nodes
  pub hashes : All IsNode f.nodes

parse_nodes-hex_items :
    (nodes : List Bytes) → All IsNode nodes → parse_nodes (hex_items nodes) ≡ ok nodes
unfolding parse_nodes is_node_hex
parse_nodes-hex_items [] h = refl
parse_nodes-hex_items (node ∷ nodes) ((sized, bytes), h) =
    let full : (length (to_hex node) == 64) ≡ true = ground (arith, length-to_hex node) in
    rw (full, all_hex-to_hex node bytes, from_hex-to_hex node bytes, parse_nodes-hex_items nodes h)

count_items-hex_items : (nodes : List Bytes) → count_items (hex_items nodes) ≡ length nodes
count_items-hex_items [] = refl
count_items-hex_items (node ∷ nodes) = ap suc (count_items-hex_items nodes)

All-append : (xs ys : List Bytes) → All IsNode xs → All IsNode ys → All IsNode (xs ++ ys)
All-append [] ys h k = k
All-append (x ∷ xs) ys (p, h) k = (p, All-append xs ys h k)

All-reverse : (xs : List Bytes) → All IsNode xs → All IsNode (reverse xs)
All-reverse [] h = tt
All-reverse (x ∷ xs) (p, h) =
    rw (reverse-cons) (All-append (reverse xs) (x ∷ []) (All-reverse xs h) (p, tt))

-- A serializable frontier is read back as it was written.
pub parse_frontier-serialize_frontier :
    (f : MerkleFrontier) → IsSerializable f → parse_frontier (serialize_frontier f) ≡ ok f
unfolding parse_frontier serialize_frontier
parse_frontier-serialize_frontier f v =
    let counted : (count_items (hex_items (reverse f.nodes)) == set_bits f.size) ≡ true =
      ground (arith, count_items-hex_items (reverse f.nodes), length-reverse f.nodes, v.counted) in
    rw (
      text_eq_refl (codes "size"),
      text_eq_refl (codes "nodes"),
      le→leb f.size max_safe_integer v.safe,
      counted,
      parse_nodes-hex_items (reverse f.nodes) (All-reverse f.nodes v.hashes),
      reverse-reverse,
    )

parse_node-IsNode : (value : Json) {node : Bytes} → parse_node value ≡ ok node → IsNode node
unfolding parse_node is_node_hex
parse_node-IsNode (str text) {node} h =
    let (full, read) =
      guard-eq-ok (length text == 64 && all_hex text) not_frontier (from_hex text) h in
    let sized : length text ≡ 64 = ground arith in
    (omega (arith, length-from_hex text read), (to_hex-from_hex text read).1)
parse_node-IsNode _ h = cc

parse_nodes-IsNode :
    (values : Items) {nodes : List Bytes}
    → parse_nodes values ≡ ok nodes
    → (count_items values ≡ length nodes) × All IsNode nodes
unfolding parse_nodes
parse_nodes-IsNode nil h = ground arith
parse_nodes-IsNode (cons value values) h =
    let (node, first, more) = >>=-eq-ok (parse_node value) _ h in
    let (nodes, rest, same) = >>=-eq-ok (parse_nodes values) _ more in
    let (sized, hashes) = parse_nodes-IsNode values rest in
    rw (← ok-injective same) (ap suc sized, (parse_node-IsNode value first, hashes))

parse_members-IsSerializable :
    (v v' : Json) {f : MerkleFrontier} → parse_members v v' ≡ ok f → IsSerializable f
unfolding parse_members
parse_members-IsSerializable (number (whole size)) (arr values) {f} h =
    let (small, more) = guard-eq-ok (leb size max_safe_integer) not_frontier _ h in
    let (counted, last) = guard-eq-ok (count_items values == set_bits size) not_frontier _ more in
    let (nodes, read, same) = >>=-eq-ok (parse_nodes values) _ last in
    let (sized, hashes) = parse_nodes-IsNode values read in
    rw (← ok-injective same) (record {
      safe = leb→le size max_safe_integer small;
      counted =
          sym ((==_iff (count_items values) (set_bits size)).0 counted)
          ∙ sized
          ∙ sym (length-reverse nodes);
      hashes = All-reverse nodes hashes;
    })
parse_members-IsSerializable _ _ h = cc

-- Whatever JSON value is read as a frontier, the result is serializable.
pub parse_frontier-IsSerializable :
    (value : Json) {f : MerkleFrontier} → parse_frontier value ≡ ok f → IsSerializable f
unfolding parse_frontier
parse_frontier-IsSerializable (obj (member k v (member k' v' end))) h =
    elim (Bool-cases (text_eq k (codes "size") && text_eq k' (codes "nodes"))) [
      | inl here ↦ parse_members-IsSerializable v v' (rw (parse_frontier, here) at h)
      | inr elsewhere ↦ elim (Bool-cases (text_eq k (codes "nodes") && text_eq k' (codes "size"))) [
        | inl swapped ↦
            parse_members-IsSerializable v' v (rw (parse_frontier, elsewhere, swapped) at h)
        | inr neither ↦ absurd (err-ne-ok (rw (parse_frontier, elsewhere, neither) at h))
      ]
    ]
parse_frontier-IsSerializable _ h = cc

module _ (crypto : HashFunction) where
  hashes-Covers :
      {height n : ℕ} {nodes entries : List Bytes}
      → Covers crypto height n nodes entries
      → All IsNode nodes
  hashes-Covers (done e) = tt
  hashes-Covers (even e c) = hashes-Covers c
  hashes-Covers {height} (odd block e l r s c) = (
    rw r (length-tree_hash crypto height block, tree_hash-IsBytes crypto height block),
    hashes-Covers c,
  )

  -- The frontier of any chain of at most `2 ^ 53 - 1` entries is read back as it was written.
  pub parse_frontier-IsFrontierOf :
      {entries : List Bytes} {f : MerkleFrontier}
      → IsFrontierOf crypto entries f
      → length entries ≤ max_safe_integer
      → parse_frontier (serialize_frontier f) ≡ ok f
  parse_frontier-IsFrontierOf {f} v safe = parse_frontier-serialize_frontier f (record {
    safe = omega (arith, v.sized);
    counted = set_bits-IsFrontierOf crypto v;
    hashes = hashes-Covers v.covers;
  })
