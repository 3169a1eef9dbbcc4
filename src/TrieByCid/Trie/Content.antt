-- ===== src/TrieByCid/Trie/Content.antt =====
-- trie.go: the specification of a trie. A trie holds a partial map from keys to values, and
-- `Represents` says which one a node holds below a path, through the nodes that the reader loads.
pub mod Keys
pub mod Lookup
pub mod Writes
pub mod Plant
pub mod Insert
pub mod Reduce
pub mod Delete
pub mod Methods
pub mod Runs
use ipld_eth_statedb.Base.{
  ℕ, zero, suc, ◌<◌, ◌≤◌, ◌≡◌, ◌≢◌, ◌⊎◌, Bool, true, false, Option, none, some, [], ◌∷◌, ◌++◌, ◌==◌,
  if◌then◌else◌,
}
use ipld_eth_statedb.TrieByCid.Trie.Node.{
  Bytes, Nibbles, Node, nil_node, full_node, short_node, hash_node, value_node,
}
use ipld_eth_statedb.TrieByCid.Trie.Tracer.{same}
use ipld_eth_statedb.TrieByCid.Trie.Trie.{TrieReader, node_blob}

abbrev pub Content : Type 0
Content = Nibbles → Option Bytes

-- Nibbles below 16; with the terminator after them where `ended` holds.
abbrev pub Walk : Nibbles → Bool → Type 0
Walk [] ended = ended ≡ false
Walk (x ∷ xs) ended = ((x < 16) × Walk xs ended) ⊎ ((x ≡ 16) × (xs ≡ []) × (ended ≡ true))

-- What can follow on a path that is ended or not: nothing, or a path that ends.
abbrev pub KeyFrom : Bool → Nibbles → Type 0
KeyFrom true k = k ≡ []
KeyFrom false k = Walk k true

abbrev pub nothing : Content
nothing k = none

abbrev pub only : Bytes → Content
only v [] = some v
only v (x ∷ xs) = none

-- The content below a shared key, and the contents below each next nibble.
abbrev pub below : Nibbles → Content → Content
below [] c k = c k
below (x ∷ xs) c [] = none
below (x ∷ xs) c (y ∷ ys) = if x == y then below xs c ys else none

abbrev pub branch : (ℕ → Content) → Content
branch cs [] = none
branch cs (x ∷ xs) = cs x xs

-- The map with one key written: `some` value, or `none` where the key is removed.
abbrev pub write : Content → Nibbles → Option Bytes → Content
write c key v k = if same key k then v else c k

-- The reader has a blob for the hash and path, and it decodes to the node.
pub record Resolves (r : TrieReader) (path : Nibbles) (hash : Bytes) (n : Node) : Type 0 where
  pub blob : Bytes
  pub blob_eq : node_blob r path hash ≡ (blob, none)
  pub node_eq : r.decode hash blob ≡ some n

module _ (r : TrieReader) where
  -- `Represents h p ended n c`: the node n, at the path p that is ended or not, holds c, and at most
  -- h nodes lie on a way down, those to be loaded included.
  abbrev pub Represents : ℕ → Nibbles → Bool → Node → Content → Type 0
  Represents zero p ended n c = ⊥
  Represents (suc h) p ended nil_node c = (k : Nibbles) → c k ≡ none
  Represents (suc h) p ended (value_node v) c = (ended ≡ true) × ((k : Nibbles) → c k ≡ only v k)
  Represents (suc h) p ended (short_node key n f) c =
      (ended ≡ false)
      × (key ≢ [])
      × (ended' : Bool) × (c' : Content) × Walk key ended'
      × Represents h (p ++ key) ended' n c'
      × ((k : Nibbles) → c k ≡ below key c' k)
  Represents (suc h) p ended (full_node children f) c =
      (ended ≡ false)
      × (cs : ℕ → Content) × ((i : ℕ)
          → i < 17
          → Represents h (p ++ i ∷ []) (i == 16) (children i) (cs i))
      × ((i : ℕ) (k : Nibbles) → 17 ≤ i → cs i k ≡ none)
      × ((k : Nibbles) → c k ≡ branch cs k)
  Represents (suc h) p ended (hash_node hash) c =
      (ended ≡ false) × (n : Node) × Resolves r p hash n × Represents h p false n c
