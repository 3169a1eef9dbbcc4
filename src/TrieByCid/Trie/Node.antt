-- ===== src/TrieByCid/Trie/Node.antt =====
-- trie_by_cid/trie/node.go: the nodes of a trie.
use ipld_eth_statedb.Base.{ℕ, Bool, Option, List}

abbrev pub Bytes : Type 0
Bytes = List ℕ

-- A key or a path: nibbles, with the terminator 16 at the end of a whole key.
abbrev pub Nibbles : Type 0
Nibbles = List ℕ

pub record NodeFlag : Type 0 where
  pub hash : Option Bytes
  pub dirty : Bool

-- `nil_node` is Go's nil. The children of a full node are asked at 0 to 16 only: see `Trie.child_index`.
pub data Node : Type 0 where
  nil_node : Node
  full_node : (ℕ → Node) → NodeFlag → Node
  short_node : Nibbles → Node → NodeFlag → Node
  hash_node : Bytes → Node
  value_node : Bytes → Node
