-- ===== src/TrieByCid/Trie/Trie/Delete.antt =====
-- trie.go: delete.
use ipld_eth_statedb.Base.{
  ℕ, zero, suc, ◌+◌, true, false, Option, none, some, [], ◌∷◌, ◌++◌, length, drop, take, ◌==◌, ltb,
}
use ipld_eth_statedb.TrieByCid.Trie.Encoding.{prefix_len}
use ipld_eth_statedb.TrieByCid.Trie.Node.{
  Nibbles, Node, nil_node, full_node, short_node, hash_node, value_node,
}
use ipld_eth_statedb.TrieByCid.Trie.Tracer.{Tracer, on_delete}
use ipld_eth_statedb.TrieByCid.Trie.Trie.{
  TrieReader, TrieError, Outcome, returns, out_of_fuel, and_then, child_index, with_child, resolve,
  resolve_and_track, new_flag,
}
use ipld_eth_statedb.TrieByCid.Trie.Trie.Insert.{Edit, InsertCall, if_dirty}

-- pos of the loop over the children: -1, an index, -2.
pub data Left : Type 0 where
  no_child : Left
  one_child : ℕ → Left
  two_children : Left

abbrev pub seen : Node → ℕ → Left → Left
seen nil_node i l = l
seen (full_node c f) i no_child = one_child i
seen (short_node k v f) i no_child = one_child i
seen (hash_node h) i no_child = one_child i
seen (value_node v) i no_child = one_child i
seen n i (one_child j) = two_children
seen n i two_children = two_children

-- The loop from index i on, over `count` children.
unfoldable pub children_left : (ℕ → Node) → ℕ → ℕ → Left → Left
children_left c zero i l = l
children_left c (suc count) i l = children_left c count (i + 1) (seen (c i) i l)

-- The matched key of a short node is cut off, and what is left below it is joined to it.
abbrev pub joined : Nibbles → Nibbles → Node → Tracer → Outcome Edit
joined prefix k (short_node ck cv cf) t =
    returns (true, short_node (k ++ ck) cv new_flag, none) (on_delete t (prefix ++ k))
joined prefix k nil_node t = returns (true, short_node k nil_node new_flag, none) t
joined prefix k (full_node c f) t = returns (true, short_node k (full_node c f) new_flag, none) t
joined prefix k (hash_node h) t = returns (true, short_node k (hash_node h) new_flag, none) t
joined prefix k (value_node v) t = returns (true, short_node k (value_node v) new_flag, none) t

-- The only child that is left, resolved as `cnode`, takes the place of the full node.
abbrev pub reduced : Nibbles → ℕ → Node → Node × Option TrieError → Tracer → Outcome Edit
reduced prefix pos child (cnode, some err) t = returns (false, nil_node, some err) t
reduced prefix pos child (short_node ck cv cf, none) t =
    returns (true, short_node (pos ∷ ck) cv new_flag, none) (on_delete t (prefix ++ pos ∷ []))
reduced prefix pos child (nil_node, none) t =
    returns (true, short_node (pos ∷ []) child new_flag, none) t
reduced prefix pos child (full_node c f, none) t =
    returns (true, short_node (pos ∷ []) child new_flag, none) t
reduced prefix pos child (hash_node h, none) t =
    returns (true, short_node (pos ∷ []) child new_flag, none) t
reduced prefix pos child (value_node v, none) t =
    returns (true, short_node (pos ∷ []) child new_flag, none) t

module _ (r : TrieReader) where
  abbrev pub reduce : (ℕ → Node) → Nibbles → Left → Tracer → Outcome Edit
  reduce c prefix no_child t = returns (true, full_node c new_flag, none) t
  reduce c prefix two_children t = returns (true, full_node c new_flag, none) t
  reduce c prefix (one_child pos) t = elim (pos == 16) [
    | true ↦ returns (true, short_node (pos ∷ []) (c pos) new_flag, none) t
    | false ↦ and_then (resolve r (c pos) (prefix ++ pos ∷ []) t) (reduced prefix pos (c pos))
  ]

  -- A child of the full node is now `nn`.
  abbrev pub after_child : (ℕ → Node) → Nibbles → Node → Tracer → Outcome Edit
  after_child c prefix nil_node t = reduce c prefix (children_left c 17 0 no_child) t
  after_child c prefix (full_node d f) t = returns (true, full_node c new_flag, none) t
  after_child c prefix (short_node k v f) t = returns (true, full_node c new_flag, none) t
  after_child c prefix (hash_node h) t = returns (true, full_node c new_flag, none) t
  after_child c prefix (value_node v) t = returns (true, full_node c new_flag, none) t

  abbrev pub delete_loaded :
      InsertCall → Nibbles → Nibbles → Node × Option TrieError → Tracer → Outcome Edit
  delete_loaded rec prefix key (rn, some err) t = returns (false, nil_node, some err) t
  delete_loaded rec prefix key (rn, none) t =
      and_then (rec rn prefix key t) (if_dirty rn (λ nn u. returns (true, nn, none) u))

  -- One call of delete, `rec` for its recursive calls.
  abbrev pub delete_step : InsertCall → InsertCall
  delete_step rec (short_node k v f) prefix key t =
      let m = prefix_len key k in
      elim (ltb m (length k)) [
        | true ↦ returns (false, short_node k v f, none) t
        | false ↦ elim (m == length key) [
          | true ↦ returns (true, nil_node, none) (on_delete t prefix)
          | false ↦
              and_then (rec v (prefix ++ take (length k) key) (drop (length k) key) t)
                (if_dirty (short_node k v f) (joined prefix k))
        ]
      ]
  delete_step rec (full_node c f) prefix key t = child_index key 0 (λ i.
      and_then (rec (c i) (prefix ++ i ∷ []) (drop 1 key) t)
        (if_dirty (full_node c f) (λ nn u. after_child (with_child c i nn) prefix nn u)))
  delete_step rec (value_node v) prefix key t = returns (true, nil_node, none) t
  delete_step rec nil_node prefix key t = returns (false, nil_node, none) t
  delete_step rec (hash_node h) prefix key t =
      and_then (resolve_and_track r h prefix t) (delete_loaded rec prefix key)

  unfoldable pub delete : ℕ → InsertCall
  delete zero n prefix key t = out_of_fuel
  delete (suc fuel) n prefix key t = delete_step (delete fuel) n prefix key t
