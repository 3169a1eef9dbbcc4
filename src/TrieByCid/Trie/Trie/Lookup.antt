-- ===== src/TrieByCid/Trie/Trie/Lookup.antt =====
-- trie.go: tryGet and tryGetNode.
use ipld_eth_statedb.Base.{
  ℕ, zero, suc, ◌+◌, Bool, true, false, not, ◌||◌, Option, none, some, length, take, drop, ltb, leb,
}
use ipld_eth_statedb.TrieByCid.Trie.Node.{
  Bytes, Nibbles, Node, nil_node, full_node, short_node, hash_node, value_node,
}
use ipld_eth_statedb.TrieByCid.Trie.Tracer.{Tracer, same}
use ipld_eth_statedb.TrieByCid.Trie.Trie.{
  TrieReader, TrieError, Outcome, returns, out_of_fuel, and_then, child_index, with_child,
  resolve_and_track, node_blob, non_consensus_node,
}

-- The value, the node in place of the one asked, whether a node was loaded, and the error.
abbrev pub Got : Type 0
Got = Option Bytes × Node × Bool × Option TrieError

abbrev pub replaced : Bool → Option TrieError → Node → Node → Node
replaced true none n new = new
replaced did_resolve err n new = n

-- Whether the key of a short node stands in `key` at `pos`.
abbrev pub key_at : Nibbles → ℕ → Nibbles → Bool
key_at key pos node_key = not (
    ltb (length key) (pos + length node_key)
    || not (same node_key (take (length node_key) (drop pos key))))

module _ (r : TrieReader) where
  abbrev pub get_child :
      (Node → Nibbles → ℕ → Tracer → Outcome Got)
      → Nibbles
      → ℕ
      → Bytes
      → Tracer
      → Node × Option TrieError
      → Outcome Got
  get_child rec key pos h t (child, some err) = returns (none, hash_node h, true, some err) t
  get_child rec key pos h t (child, none) =
      and_then (rec child key pos t) (λ g u. returns (g.0, g.1, true, g.3) u)

  -- One call of tryGet, `rec` for its recursive calls.
  abbrev pub try_get_step :
      (Node → Nibbles → ℕ → Tracer → Outcome Got) → Node → Nibbles → ℕ → Tracer → Outcome Got
  try_get_step rec nil_node key pos t = returns (none, nil_node, false, none) t
  try_get_step rec (value_node v) key pos t = returns (some v, value_node v, false, none) t
  try_get_step rec (short_node k v f) key pos t = elim (key_at key pos k) [
    | false ↦ returns (none, short_node k v f, false, none) t
    | true ↦
        and_then (rec v key (pos + length k) t) (λ g u.
          returns (g.0, replaced g.2 g.3 (short_node k v f) (short_node k g.1 f), g.2, g.3) u)
  ]
  try_get_step rec (full_node c f) key pos t = child_index key pos (λ i.
      and_then (rec (c i) key (pos + 1) t) (λ g u.
        returns (g.0, replaced g.2 g.3 (full_node c f) (full_node (with_child c i g.1) f), g.2, g.3)
          u))
  try_get_step rec (hash_node h) key pos t =
      and_then (resolve_and_track r h (take pos key) t) (λ n u. get_child rec key pos h u n)

  unfoldable pub try_get : ℕ → Node → Nibbles → ℕ → Tracer → Outcome Got
  try_get zero n key pos t = out_of_fuel
  try_get (suc fuel) n key pos t = try_get_step (try_get fuel) n key pos t

  -- The blob, the node in place of the one asked, how many nodes were read, and the error.
  abbrev pub GotNode : Type 0
  GotNode = Option Bytes × Node × ℕ × Option TrieError

  abbrev pub cached_hash : Node → Option Bytes
  cached_hash (hash_node h) = some h
  cached_hash (full_node c f) = f.hash
  cached_hash (short_node k v f) = f.hash
  cached_hash (value_node v) = none
  cached_hash nil_node = none

  abbrev pub blob_of : Bytes × Option TrieError → Option Bytes
  blob_of (blob, some err) = none
  blob_of (blob, none) = some blob

  abbrev pub node_at : Node → Nibbles → Tracer → Option Bytes → Outcome GotNode
  node_at n path t none = returns (none, n, 0, some non_consensus_node) t
  node_at n path t (some h) = let b = node_blob r path h in returns (blob_of b, n, 1, b.1) t

  abbrev pub get_node_child :
      (Node → Nibbles → ℕ → Tracer → Outcome GotNode)
      → Nibbles
      → ℕ
      → Bytes
      → Tracer
      → Node × Option TrieError
      → Outcome GotNode
  get_node_child rec path pos h t (child, some err) = returns (none, hash_node h, 1, some err) t
  get_node_child rec path pos h t (child, none) =
      and_then (rec child path pos t) (λ g u. returns (g.0, g.1, g.2 + 1, g.3) u)

  -- The switch of tryGetNode, where the path goes on.
  abbrev pub get_node_below :
      (Node → Nibbles → ℕ → Tracer → Outcome GotNode)
      → Node
      → Nibbles
      → ℕ
      → Tracer
      → Outcome GotNode
  get_node_below rec nil_node path pos t = returns (none, nil_node, 0, none) t
  get_node_below rec (value_node v) path pos t = returns (none, nil_node, 0, none) t
  get_node_below rec (short_node k v f) path pos t = elim (key_at path pos k) [
    | false ↦ returns (none, short_node k v f, 0, none) t
    | true ↦ and_then (rec v path (pos + length k) t) (λ g u.
        returns (g.0, replaced (ltb 0 g.2) g.3 (short_node k v f) (short_node k g.1 f), g.2, g.3) u)
  ]
  get_node_below rec (full_node c f) path pos t = child_index path pos (λ i.
      and_then (rec (c i) path (pos + 1) t) (λ g u.
        returns
          (
            g.0,
            replaced (ltb 0 g.2) g.3 (full_node c f) (full_node (with_child c i g.1) f),
            g.2,
            g.3,
          )
          u))
  get_node_below rec (hash_node h) path pos t =
      and_then (resolve_and_track r h (take pos path) t) (λ n u. get_node_child rec path pos h u n)

  abbrev pub get_node_from :
      (Node → Nibbles → ℕ → Tracer → Outcome GotNode)
      → Node
      → Nibbles
      → ℕ
      → Tracer
      → Outcome GotNode
  get_node_from rec n path pos t = elim (leb (length path) pos) [
    | true ↦ node_at n path t (cached_hash n)
    | false ↦ get_node_below rec n path pos t
  ]

  -- One call of tryGetNode.
  abbrev pub try_get_node_step :
      (Node → Nibbles → ℕ → Tracer → Outcome GotNode)
      → Node
      → Nibbles
      → ℕ
      → Tracer
      → Outcome GotNode
  try_get_node_step rec nil_node path pos t = returns (none, nil_node, 0, none) t
  try_get_node_step rec (value_node v) path pos t = get_node_from rec (value_node v) path pos t
  try_get_node_step rec (short_node k v f) path pos t =
      get_node_from rec (short_node k v f) path pos t
  try_get_node_step rec (full_node c f) path pos t = get_node_from rec (full_node c f) path pos t
  try_get_node_step rec (hash_node h) path pos t = get_node_from rec (hash_node h) path pos t

  unfoldable pub try_get_node : ℕ → Node → Nibbles → ℕ → Tracer → Outcome GotNode
  try_get_node zero n path pos t = out_of_fuel
  try_get_node (suc fuel) n path pos t = try_get_node_step (try_get_node fuel) n path pos t
