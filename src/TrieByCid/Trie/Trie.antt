-- ===== src/TrieByCid/Trie/Trie.antt =====
-- trie_by_cid/trie/trie.go: the state of a trie, and how it loads nodes. The functions on nodes
-- carry the tracer along. `append(prefix, ...)` copies here: no function reads a prefix after it
-- passed on a longer one that shares its array.
pub mod Lookup
pub mod Insert
pub mod Delete
pub mod Update
pub mod Fuel
use ipld_eth_statedb.Base.{
  ℕ, suc, Bool, true, false, Option, none, some, List, [], ◌∷◌, ◌==◌, ltb, length, get_elem?,
  if◌then◌else◌,
}
use ipld_eth_statedb.TrieByCid.Trie.Node.{
  Bytes, Nibbles, Node, NodeFlag, nil_node, full_node, short_node, hash_node, value_node,
}
use ipld_eth_statedb.TrieByCid.Trie.Tracer
use ipld_eth_statedb.TrieByCid.Trie.Tracer.{Tracer, new_tracer}

-- A MissingNodeError by its hash and path, errors.New("non-consensus node"), or the error of
-- newTrieReader.
pub data TrieError : Type 0 where
  missing_node : Bytes → Nibbles → TrieError
  non_consensus_node : TrieError
  state_not_found : TrieError

-- trieReader: the banned paths, and the NodeBlob method of the reader of the trie's database and
-- owner, `none` for a nil reader. `decode` is mustDecodeNode, `none` where it panics.
pub record TrieReader : Type 0 where
  pub banned : Nibbles → Bool
  pub reader : Option (Nibbles → Bytes → Bytes × Option ℕ)
  pub decode : Bytes → Bytes → Option Node

abbrev pub blob_or_missing : Nibbles → Bytes → Bytes × Option ℕ → Bytes × Option TrieError
blob_or_missing path hash (blob, some err) = ([], some (missing_node hash path))
blob_or_missing path hash ([], none) = ([], some (missing_node hash path))
blob_or_missing path hash (b ∷ bs, none) = (b ∷ bs, none)

abbrev pub read_blob :
    Option (Nibbles → Bytes → Bytes × Option ℕ) → Nibbles → Bytes → Bytes × Option TrieError
read_blob none path hash = ([], some (missing_node hash path))
read_blob (some read) path hash = blob_or_missing path hash (read path hash)

unfoldable pub node_blob : TrieReader → Nibbles → Bytes → Bytes × Option TrieError
node_blob r path hash =
    if r.banned path then ([], some (missing_node hash path)) else read_blob r.reader path hash

-- What a function on nodes does: it returns, with the tracer after it, or it panics. A hash node
-- that decodes to itself is followed for ever: `out_of_fuel` is not to have seen the end.
pub data Outcome (A : Type 0) : Type 0 where
  returns : A → Tracer → Outcome A
  panics : Outcome A
  out_of_fuel : Outcome A

abbrev pub and_then : {A B : Type 0} → Outcome A → (A → Tracer → Outcome B) → Outcome B
and_then (returns a t) f = f a t
and_then panics f = panics
and_then out_of_fuel f = out_of_fuel

abbrev pub child_index_of : {A : Type 0} → Option ℕ → (ℕ → Outcome A) → Outcome A
child_index_of none f = panics
child_index_of (some i) f = elim (ltb i 17) [ true ↦ f i | false ↦ panics ]

-- key[i] as an index of the 17 children
abbrev pub child_index : {A : Type 0} → Nibbles → ℕ → (ℕ → Outcome A) → Outcome A
child_index key i f = child_index_of (get_elem? key i) f

-- Children[i] = child
abbrev pub with_child : (ℕ → Node) → ℕ → Node → ℕ → Node
with_child children i child j = if i == j then child else children j

unfoldable pub new_flag : NodeFlag
new_flag = record { hash = none; dirty = true }

abbrev pub decoded : Option Node → Tracer → Outcome (Node × Option TrieError)
decoded none t = panics
decoded (some n) t = returns (n, none) t

abbrev pub track_blob :
    TrieReader
    → Bytes
    → Nibbles
    → Tracer
    → Bytes × Option TrieError
    → Outcome (Node × Option TrieError)
track_blob r n prefix t (blob, some err) = returns (nil_node, some err) t
track_blob r n prefix t (blob, none) = decoded (r.decode n blob) (Tracer.on_read t prefix blob)

unfoldable pub resolve_and_track :
    TrieReader → Bytes → Nibbles → Tracer → Outcome (Node × Option TrieError)
resolve_and_track r n prefix t = track_blob r n prefix t (node_blob r prefix n)

unfoldable pub resolve : TrieReader → Node → Nibbles → Tracer → Outcome (Node × Option TrieError)
resolve r (hash_node h) prefix t = resolve_and_track r h prefix t
resolve r nil_node prefix t = returns (nil_node, none) t
resolve r (full_node c f) prefix t = returns (full_node c f, none) t
resolve r (short_node k v f) prefix t = returns (short_node k v f, none) t
resolve r (value_node v) prefix t = returns (value_node v, none) t

pub record Trie : Type 0 where
  pub root : Node
  pub owner : ℕ
  pub unhashed : ℕ
  pub reader : TrieReader
  pub tracer : Tracer

unfoldable pub copy : Trie → Trie
copy t = record {
  root = t.root;
  owner = t.owner;
  unhashed = t.unhashed;
  reader = t.reader;
  tracer = Tracer.copy t.tracer;
}

unfoldable pub reset : Trie → Trie
reset t = record t { root = nil_node; owner = 0; unhashed = 0; tracer = Tracer.reset t.tracer }
