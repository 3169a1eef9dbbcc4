-- ===== src/TrieByCid/Trie/Trie/Update.antt =====
-- trie.go: the methods of a trie that look up, insert and delete, with the fuel of the functions on
-- nodes.
use ipld_eth_statedb.Base.{
  ℕ, ◌+◌, Bool, true, false, Option, none, some, [], ◌∷◌, ◌||◌, ltb, if◌then◌else◌,
}
use ipld_eth_statedb.TrieByCid.Trie.Encoding.{keybytes_to_hex, compact_to_hex}
use ipld_eth_statedb.TrieByCid.Trie.Node.{Bytes, Nibbles, Node, nil_node, value_node}
use ipld_eth_statedb.TrieByCid.Trie.Tracer.{Tracer, same, new_tracer}
use ipld_eth_statedb.TrieByCid.Trie.Trie.{
  Trie, TrieReader, TrieError, Outcome, returns, and_then, resolve_and_track, state_not_found,
}
use ipld_eth_statedb.TrieByCid.Trie.Trie.Lookup.{replaced, try_get, try_get_node}
use ipld_eth_statedb.TrieByCid.Trie.Trie.Insert.{Edit, insert}
use ipld_eth_statedb.TrieByCid.Trie.Trie.Delete.{delete}

-- The root and the error after an edit; where there is an error the root stays.
abbrev pub edited : Trie → Edit → Tracer → Outcome (Trie × Option TrieError)
edited t (dirty, n, none) u =
    returns (record t { root = n; tracer = u; unhashed = t.unhashed + 1 }, none) u
edited t (dirty, n, some err) u =
    returns (record t { tracer = u; unhashed = t.unhashed + 1 }, some err) u

unfoldable pub try_delete : ℕ → Trie → Bytes → Outcome (Trie × Option TrieError)
try_delete fuel t key =
    and_then (delete t.reader fuel t.root [] (keybytes_to_hex key) t.tracer) (edited t)

-- An empty value deletes.
unfoldable pub try_update : ℕ → Trie → Bytes → Bytes → Outcome (Trie × Option TrieError)
try_update fuel t key [] =
    and_then (delete t.reader fuel t.root [] (keybytes_to_hex key) t.tracer) (edited t)
try_update fuel t key (b ∷ bs) =
    and_then (insert t.reader fuel (value_node (b ∷ bs)) t.root [] (keybytes_to_hex key) t.tracer)
      (edited t)

unfoldable pub try_get_value : ℕ → Trie → Bytes → Outcome (Option Bytes × Trie × Option TrieError)
try_get_value fuel t key =
    and_then (try_get t.reader fuel t.root (keybytes_to_hex key) 0 t.tracer)
      (λ g u. returns (g.0, record t { root = replaced g.2 g.3 t.root g.1; tracer = u }, g.3) u)

abbrev pub got_node :
    Trie
    → Option Bytes × Node × ℕ × Option TrieError
    → Tracer
    → Outcome (Option Bytes × ℕ × Trie × Option TrieError)
got_node t (item, n, resolved, some err) u =
    returns (none, resolved, record t { tracer = u }, some err) u
got_node t (item, n, resolved, none) u =
    returns
      (item, resolved, record t { root = (if ltb 0 resolved then n else t.root); tracer = u }, none)
      u

unfoldable pub try_get_node_at :
    ℕ → Trie → Bytes → Outcome (Option Bytes × ℕ × Trie × Option TrieError)
try_get_node_at fuel t path =
    and_then (try_get_node t.reader fuel t.root (compact_to_hex path) 0 t.tracer) (got_node t)

-- common.Hash{} and types.EmptyRootHash
abbrev pub zero_root : Bytes
zero_root =
    0 ∷ 0 ∷ 0 ∷ 0 ∷ 0 ∷ 0 ∷ 0 ∷ 0 ∷ 0 ∷ 0 ∷ 0 ∷ 0 ∷ 0 ∷ 0 ∷ 0 ∷ 0 ∷ 0 ∷ 0 ∷ 0 ∷ 0 ∷ 0 ∷ 0 ∷ 0 ∷ 0
    ∷ 0 ∷ 0 ∷ 0 ∷ 0 ∷ 0 ∷ 0 ∷ 0 ∷ 0 ∷ []

abbrev pub empty_root : Bytes
empty_root =
    0x56 ∷ 0xe8 ∷ 0x1f ∷ 0x17 ∷ 0x1b ∷ 0xcc ∷ 0x55 ∷ 0xa6 ∷ 0xff ∷ 0x83 ∷ 0x45 ∷ 0xe6 ∷ 0x92 ∷ 0xc0
    ∷ 0xf8 ∷ 0x6e ∷ 0x5b ∷ 0x48 ∷ 0xe0 ∷ 0x1b ∷ 0x99 ∷ 0x6c ∷ 0xad ∷ 0xc0 ∷ 0x01 ∷ 0x62 ∷ 0x2f
    ∷ 0xb5 ∷ 0xe3 ∷ 0x63 ∷ 0xb4 ∷ 0x21 ∷ []

abbrev pub unloaded : TrieReader → ℕ → Trie
unloaded r owner = record {
  root = nil_node;
  owner = owner;
  unhashed = 0;
  reader = r;
  tracer = new_tracer;
}

abbrev pub with_root :
    TrieReader → ℕ → Node × Option TrieError → Tracer → Outcome (Option Trie × Option TrieError)
with_root r owner (n, some err) t = returns (none, some err) t
with_root r owner (n, none) t =
    returns (some (record (unloaded r owner) { root = n; tracer = t }), none) t

-- Whether the database has a reader for the state.
abbrev pub has_reader : Option (Nibbles → Bytes → Bytes × Option ℕ) → Bool
has_reader none = false
has_reader (some read) = true

-- newTrieReader fails where the state is not available; a root that is not one of the two for an
-- empty trie is loaded.
unfoldable pub new : TrieReader → ℕ → Bytes → Outcome (Option Trie × Option TrieError)
new r owner root =
    if has_reader r.reader
    then (if same root zero_root || same root empty_root
        then returns (some (unloaded r owner), none) new_tracer
        else and_then (resolve_and_track r root [] new_tracer) (with_root r owner))
    else returns (none, some state_not_found) new_tracer
