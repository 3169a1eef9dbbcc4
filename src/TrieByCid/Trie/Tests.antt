-- ===== src/TrieByCid/Trie/Tests.antt =====
-- trie_by_cid/trie at concrete keys and paths.
use ipld_eth_statedb.Base.{
  take, ℕ, ◌≡◌, ◌≢◌, ◌+◌, ◌*◌, refl, arith, inl, inr, true, false, none, some, List, [], ◌∷◌, ◌++◌,
  length,
}
use ipld_eth_statedb.TrieByCid.Trie.Encoding.{
  terminator, keybytes_to_hex, hex_to_key_bytes, hex_to_compact, compact_to_hex,
}
use ipld_eth_statedb.TrieByCid.Trie.Encoding.InPlace.{
  hex_to_compact_in_place, hex_to_compact_in_place-hex_to_compact,
}
use ipld_eth_statedb.TrieByCid.Trie.Node.{Node, short_node, hash_node, value_node}
use ipld_eth_statedb.TrieByCid.Trie.Trie.{Trie, TrieReader, node_blob}
use ipld_eth_statedb.TrieByCid.Trie.Trie.Update.{try_update, try_delete, try_get_value}
use ipld_eth_statedb.TrieByCid.Trie.Content.{Content, Walk, below, only, Represents, Resolves}
use ipld_eth_statedb.TrieByCid.Trie.Content.Methods.{
  ValueMap, value_of, put, Refines, Edited, Got, try_get_value-Got, try_delete-Edited,
  try_update-Edited,
}
use ipld_eth_statedb.TrieByCid.Trie.Content.Runs.{
  TrieCall, get, update, remove, KeysOfBytes, calls, after_calls, Reopened, Session, calls-Edited,
  new-calls, new_root-calls,
}
use ipld_eth_statedb.TrieByCid.Trie.Tracer.{
  on_delete, on_insert, new_tracer, on_delete-on_insert, on_insert-on_delete,
}
use ipld_eth_statedb.TrieByCid.Trie.Encoding.RoundTrips.{
  hex_to_key_bytes-keybytes_to_hex, compact_to_hex-hex_to_compact,
}

keybytes_example : hex_to_key_bytes (keybytes_to_hex (171 ∷ 16 ∷ [])) ≡ some (171 ∷ 16 ∷ [])
keybytes_example = hex_to_key_bytes-keybytes_to_hex (171 ∷ 16 ∷ []) (omega arith, (omega arith, tt))

compact_example :
    let hex = (1 ∷ 10 ∷ 5 ∷ []) ++ terminator ∷ [] in
    (compact : List ℕ) × (hex_to_compact hex ≡ some compact) × (compact_to_hex compact ≡ hex)
compact_example =
    compact_to_hex-hex_to_compact true (1 ∷ 10 ∷ 5 ∷ [])
      (omega arith, (omega arith, (omega arith, tt)))

not_inserted : new_tracer.inserts (1 ∷ []) ≡ false
unfolding new_tracer
not_inserted = refl

not_deleted : new_tracer.deletes (1 ∷ []) ≡ false
unfolding new_tracer
not_deleted = refl

inserted_example : on_delete (on_insert new_tracer (1 ∷ [])) (1 ∷ []) ≡ new_tracer
inserted_example = on_delete-on_insert new_tracer (1 ∷ []) not_inserted not_deleted

deleted_example : on_insert (on_delete new_tracer (1 ∷ [])) (1 ∷ []) ≡ new_tracer
deleted_example = on_insert-on_delete new_tracer (1 ∷ []) not_inserted not_deleted

-- A database with one node for each hash: a leaf with the value 7 at the key 1, 2.
abbrev toy_reader : TrieReader
toy_reader = record {
  banned = λ p. false;
  reader = some (λ p h. (1 ∷ [], none));
  decode = λ h b. some (
      short_node (keybytes_to_hex (1 ∷ 2 ∷ [])) (value_node (7 ∷ []))
        (record { hash = none; dirty = false }));
}

abbrev toy_trie : Trie
toy_trie = record {
  root = hash_node (9 ∷ []);
  owner = 0;
  unhashed = 0;
  reader = toy_reader;
  tracer = new_tracer;
}

abbrev toy_content : Content
toy_content = below (keybytes_to_hex (1 ∷ 2 ∷ [])) (only (7 ∷ []))

abbrev toy_leaf : Node
toy_leaf =
    short_node (keybytes_to_hex (1 ∷ 2 ∷ [])) (value_node (7 ∷ []))
      (record { hash = none; dirty = false })

abbrev toy_map : ValueMap
toy_map key = toy_content (keybytes_to_hex key)

toy_hex-Walk : Walk (keybytes_to_hex (1 ∷ 2 ∷ [])) true
unfolding keybytes_to_hex
toy_hex-Walk =
    inl
      (omega arith, inl (omega arith, inl (omega arith, inl (omega arith, inr (refl, refl, refl)))))

toy_hex_some : keybytes_to_hex (1 ∷ 2 ∷ []) ≢ []
unfolding keybytes_to_hex
toy_hex_some = cc

toy_blob : node_blob toy_reader [] (9 ∷ []) ≡ (1 ∷ [], none)
unfolding node_blob
toy_blob = refl

toy-Resolves : Resolves toy_reader [] (9 ∷ []) toy_leaf
toy-Resolves = record { blob = 1 ∷ []; blob_eq = toy_blob; node_eq = refl }

toy-Represents : Represents toy_reader 2 [] false toy_leaf toy_content
toy-Represents =
    (refl, toy_hex_some, true, only (7 ∷ []), toy_hex-Walk, (refl, λ k. refl), λ k. refl)

toy-Refines : Refines 3 toy_trie toy_map
toy-Refines = record {
  content = toy_content;
  holds = (refl, toy_leaf, toy-Resolves, toy-Represents);
  content_eq = λ key b. refl;
}

update_value_example :
    Edited 5
      (put toy_map (1 ∷ 3 ∷ []) (value_of (8 ∷ [])))
      (try_update 4 toy_trie (1 ∷ 3 ∷ []) (8 ∷ []))
update_value_example =
    try_update-Edited 3 4 toy_trie toy_map (1 ∷ 3 ∷ []) (8 ∷ []) toy-Refines
      (omega arith, (omega arith, tt)) (omega arith)

remove_value_example : Edited 3 (put toy_map (1 ∷ 2 ∷ []) none) (try_delete 3 toy_trie (1 ∷ 2 ∷ []))
remove_value_example =
    try_delete-Edited 3 3 toy_trie toy_map (1 ∷ 2 ∷ []) toy-Refines (omega arith, (omega arith, tt))
      (omega arith)

get_value_example : Got 3 toy_map (1 ∷ 2 ∷ []) (try_get_value 3 toy_trie (1 ∷ 2 ∷ []))
get_value_example =
    try_get_value-Got 3 3 toy_trie toy_map (1 ∷ 2 ∷ []) toy-Refines (omega arith, (omega arith, tt))
      (omega arith)

-- One key of two bytes is written, another one that shares a nibble with it, and the first is removed.
abbrev some_calls : List TrieCall
some_calls =
    update (1 ∷ 2 ∷ []) (7 ∷ [])
    ∷ update (1 ∷ 3 ∷ []) (8 ∷ [])
    ∷ get (1 ∷ 3 ∷ [])
    ∷ remove (1 ∷ 2 ∷ [])
    ∷ []

some_calls-KeysOfBytes : KeysOfBytes some_calls
some_calls-KeysOfBytes = (
  (omega arith, (omega arith, tt)),
  (
    (omega arith, (omega arith, tt)),
    ((omega arith, (omega arith, tt)), ((omega arith, (omega arith, tt)), tt)),
  ),
)

calls_example :
    Edited
      (3 + 2 * length some_calls)
      (after_calls some_calls toy_map)
      (calls 11 some_calls toy_trie)
calls_example =
    calls-Edited 3 11 some_calls toy_trie toy_map toy-Refines some_calls-KeysOfBytes (omega arith)

new_calls_example : Session toy_reader 0 9 some_calls (1 ∷ 3 ∷ [])
new_calls_example =
    new-calls toy_reader 0 9 some_calls (1 ∷ 3 ∷ []) refl some_calls-KeysOfBytes
      (omega arith, (omega arith, tt)) (omega arith)

new_root_calls_example : Reopened toy_reader 0 (9 ∷ []) 2 10 toy_map some_calls (1 ∷ 3 ∷ [])
new_root_calls_example =
    new_root-calls toy_reader 0 (9 ∷ []) 2 10 toy_leaf toy_content toy_map some_calls (1 ∷ 3 ∷ [])
      refl refl toy-Resolves toy-Represents (λ key b. refl) some_calls-KeysOfBytes
      (omega arith, (omega arith, tt)) (omega arith)

in_place_example :
    (n : ℕ) × (packed : List ℕ) × (hex_to_compact_in_place (1 ∷ 10 ∷ 5 ∷ 16 ∷ [])
      ≡ some (n, packed))
    × (hex_to_compact (1 ∷ 10 ∷ 5 ∷ 16 ∷ []) ≡ some (take n packed))
in_place_example = hex_to_compact_in_place-hex_to_compact (1 ∷ 10 ∷ 5 ∷ 16 ∷ []) (cc)
