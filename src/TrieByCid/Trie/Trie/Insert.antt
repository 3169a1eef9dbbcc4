-- ===== src/TrieByCid/Trie/Trie/Insert.antt =====
-- trie.go: insert.
use ipld_eth_statedb.Base.{
  ℕ, zero, suc, ◌+◌, Bool, true, false, not, Option, none, some, [], ◌∷◌, ◌++◌, length, take, drop,
  ◌==◌,
}
use ipld_eth_statedb.TrieByCid.Trie.Encoding.{prefix_len}
use ipld_eth_statedb.TrieByCid.Trie.Node.{
  Nibbles, Node, nil_node, full_node, short_node, hash_node, value_node,
}
use ipld_eth_statedb.TrieByCid.Trie.Tracer.{Tracer, same, on_insert}
use ipld_eth_statedb.TrieByCid.Trie.Trie.{
  TrieReader, TrieError, Outcome, returns, panics, out_of_fuel, and_then, child_index, with_child,
  resolve_and_track, new_flag,
}

-- Whether the node changed, the node in its place, and the error.
abbrev pub Edit : Type 0
Edit = Bool × Node × Option TrieError

-- if !dirty || err != nil { return false, n, err }
abbrev pub if_dirty : Node → (Node → Tracer → Outcome Edit) → Edit → Tracer → Outcome Edit
if_dirty n f (true, nn, none) t = f nn t
if_dirty n f (true, nn, some err) t = returns (false, n, some err) t
if_dirty n f (false, nn, err) t = returns (false, n, err) t

abbrev pub or_failed : (Node → Tracer → Outcome Edit) → Edit → Tracer → Outcome Edit
or_failed f (dirty, nn, none) t = f nn t
or_failed f (dirty, nn, some err) t = returns (false, nil_node, some err) t

abbrev pub InsertCall : Type 0
InsertCall = Node → Nibbles → Nibbles → Tracer → Outcome Edit

-- The whole key is used up; value.(valueNode) panics on another kind of node.
abbrev pub at_end : Node → Node → Tracer → Outcome Edit
at_end (value_node v) (value_node w) t = returns (not (same v w), value_node w, none) t
at_end (value_node v) nil_node t = panics
at_end (value_node v) (full_node c f) t = panics
at_end (value_node v) (short_node k w f) t = panics
at_end (value_node v) (hash_node h) t = panics
at_end nil_node value t = returns (true, value, none) t
at_end (full_node c f) value t = returns (true, value, none) t
at_end (short_node k v f) value t = returns (true, value, none) t
at_end (hash_node h) value t = returns (true, value, none) t

abbrev pub no_children : ℕ → Node
no_children i = nil_node

-- The branch in place of a short node, below what the two keys share.
abbrev pub shorten : ℕ → Nibbles → Nibbles → Node → Tracer → Outcome Edit
shorten zero prefix key branch t = returns (true, branch, none) t
shorten (suc m) prefix key branch t =
    returns (true, short_node (take (suc m) key) branch (new_flag), none)
      (on_insert t (prefix ++ take (suc m) key))

module _ (r : TrieReader) where
  abbrev pub branch_out :
      (Node → InsertCall) → ℕ → Nibbles → Node → Nibbles → Nibbles → Node → Tracer → Outcome Edit
  branch_out rec m node_key val prefix key value t = child_index node_key m (λ i.
      child_index key m (λ j.
        and_then (rec val nil_node (prefix ++ take (m + 1) node_key) (drop (m + 1) node_key) t) (
          or_failed (λ one u.
            and_then (rec value nil_node (prefix ++ take (m + 1) key) (drop (m + 1) key) u) (
              or_failed (λ two w.
                shorten m prefix key
                  (full_node (with_child (with_child no_children i one) j two) new_flag) w))))))

  abbrev pub insert_loaded :
      InsertCall → Nibbles → Nibbles → Node × Option TrieError → Tracer → Outcome Edit
  insert_loaded rec prefix key (rn, some err) t = returns (false, nil_node, some err) t
  insert_loaded rec prefix key (rn, none) t =
      and_then (rec rn prefix key t) (if_dirty rn (λ nn u. returns (true, nn, none) u))

  -- One call of insert with a key that is not empty; `rec value` is for its recursive calls.
  abbrev pub insert_below : (Node → InsertCall) → Node → InsertCall
  insert_below rec value (short_node k v f) prefix key t = elim (prefix_len key k == length k) [
    | true ↦
        and_then (rec value v (prefix ++ take (length k) key) (drop (length k) key) t)
          (if_dirty (short_node k v f) (λ nn u. returns (true, short_node k nn new_flag, none) u))
    | false ↦ branch_out rec (prefix_len key k) k v prefix key value t
  ]
  insert_below rec value (full_node c f) prefix key t = child_index key 0 (λ i.
      and_then (rec value (c i) (prefix ++ i ∷ []) (drop 1 key) t) (
        if_dirty (full_node c f)
          (λ nn u. returns (true, full_node (with_child c i nn) new_flag, none) u)))
  insert_below rec value nil_node prefix key t =
      returns (true, short_node key value new_flag, none) (on_insert t prefix)
  insert_below rec value (hash_node h) prefix key t =
      and_then (resolve_and_track r h prefix t) (insert_loaded (rec value) prefix key)
  insert_below rec value (value_node v) prefix key t = panics

  abbrev pub insert_step : (Node → InsertCall) → Node → InsertCall
  insert_step rec value n prefix [] t = at_end n value t
  insert_step rec value n prefix (k ∷ ks) t = insert_below rec value n prefix (k ∷ ks) t

  unfoldable pub insert : ℕ → Node → InsertCall
  insert zero value n prefix key t = out_of_fuel
  insert (suc fuel) value n prefix key t = insert_step (insert fuel) value n prefix key t
