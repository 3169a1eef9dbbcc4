-- ===== src/TrieByCid/Trie/Content/Methods.antt =====
-- trie.go: the methods of a trie as operations of a map from keys to values.
use ipld_eth_statedb.Base.{
  ℕ, zero, suc, ◌+◌, ◌-◌, ◌<◌, ◌≤◌, ◌≡◌, refl, ap, ap₂, ◌∙◌, sym, subst, Bool, true, false, Option,
  none, some, some_inj, [], ◌∷◌, ◌⊎◌, inl, inr, Bool-cases, if◌then◌else◌, arith,
}
use ipld_eth_statedb.TrieByCid.Trie.Encoding.{keybytes_to_hex, hex_to_key_bytes}
use ipld_eth_statedb.TrieByCid.Trie.Encoding.RoundTrips.{AllBelow, hex_to_key_bytes-keybytes_to_hex}
use ipld_eth_statedb.TrieByCid.Trie.Node.{Bytes, Nibbles, Node, value_node}
use ipld_eth_statedb.TrieByCid.Trie.Tracer.{Tracer, same, same_refl, same_eq}
use ipld_eth_statedb.TrieByCid.Trie.Trie.{Trie, TrieReader, TrieError, Outcome, returns, and_then}
use ipld_eth_statedb.TrieByCid.Trie.Trie.Lookup.{replaced, try_get}
use ipld_eth_statedb.TrieByCid.Trie.Trie.Insert.{Edit, insert}
use ipld_eth_statedb.TrieByCid.Trie.Trie.Delete.{delete}
use ipld_eth_statedb.TrieByCid.Trie.Trie.Update.{edited, try_delete, try_update, try_get_value}
use ipld_eth_statedb.TrieByCid.Trie.Content.{Content, Walk, write, Represents}
use ipld_eth_statedb.TrieByCid.Trie.Content.Lookup.{Represents-suc, try_get-Finds}
use ipld_eth_statedb.TrieByCid.Trie.Content.Insert.{insert-Inserted}
use ipld_eth_statedb.TrieByCid.Trie.Content.Delete.{delete-Deleted}
use ipld_eth_statedb.TrieByCid.Trie.Trie.Fuel.{try_get-suc, insert-suc, delete-suc, returns-le}

-- The abstract trie: a value, which is not empty, for some of the keys.
abbrev pub ValueMap : Type 0
ValueMap = Bytes → Option Bytes

abbrev pub value_of : Bytes → Option Bytes
value_of [] = none
value_of (b ∷ bs) = some (b ∷ bs)

abbrev pub put : ValueMap → Bytes → Option Bytes → ValueMap
put m key v k = if same key k then v else m k

-- A trie, of at most h nodes on a way down, holds the map at the keys that consist of bytes.
pub record Refines (h : ℕ) (t : Trie) (m : ValueMap) : Type 0 where
  pub content : Content
  pub holds : Represents t.reader h [] false t.root content
  pub content_eq : (key : Bytes) → AllBelow 256 key → content (keybytes_to_hex key) ≡ m key

Walk-hex : (key : Bytes) → AllBelow 256 key → Walk (keybytes_to_hex key) true
unfolding keybytes_to_hex
Walk-hex [] b = inr (refl, refl, refl)
Walk-hex (x ∷ xs) b = inl (omega (arith, b.0), inl (omega arith, Walk-hex xs b.1))

hex_inj :
    (j k : Bytes) → AllBelow 256 j → AllBelow 256 k → keybytes_to_hex j ≡ keybytes_to_hex k → j ≡ k
hex_inj j k b d e = some_inj (
    sym (hex_to_key_bytes-keybytes_to_hex j b)
    ∙ ap hex_to_key_bytes e
    ∙ hex_to_key_bytes-keybytes_to_hex k d)

same-hex :
    (j k : Bytes)
    → AllBelow 256 j
    → AllBelow 256 k
    → same (keybytes_to_hex j) (keybytes_to_hex k) ≡ same j k
same-hex j k b d =
    either (Bool-cases (same (keybytes_to_hex j) (keybytes_to_hex k))) (Bool-cases (same j k))
  where
    either :
        (same (keybytes_to_hex j) (keybytes_to_hex k) ≡ true)
          ⊎ (same (keybytes_to_hex j) (keybytes_to_hex k) ≡ false)
        → (same j k ≡ true) ⊎ (same j k ≡ false)
        → same (keybytes_to_hex j) (keybytes_to_hex k) ≡ same j k
    either (inl x) (inl y) = x ∙ sym y
    either (inr x) (inr y) = x ∙ sym y
    either (inl x) (inr y) =
        absurd (cc (y, ap (same j) (hex_inj j k b d (same_eq _ _ x)), same_refl j))
    either (inr x) (inl y) = absurd (
        cc (
          x,
          ap (λ l. same (keybytes_to_hex j) (keybytes_to_hex l)) (same_eq j k y),
          same_refl (keybytes_to_hex j),
        ))

write_content :
    (c : Content) (m : ValueMap) (key : Bytes) (v : Option Bytes)
    → AllBelow 256 key
    → ((k : Bytes) → AllBelow 256 k → c (keybytes_to_hex k) ≡ m k)
    → (k : Bytes) → AllBelow 256 k
    → write c (keybytes_to_hex key) v (keybytes_to_hex k) ≡ put m key v k
write_content c m key v b q k d = ap₂ (λ s o. if s then v else o) (same-hex key k b d) (q k d)

Represents-le :
    (r : TrieReader) (h d : ℕ) (p : Nibbles) (e : Bool) (n : Node) (c : Content)
    → Represents r h p e n c
    → Represents r (d + h) p e n c
Represents-le r h zero p e n c m = subst (λ f. Represents r f p e n c) (omega arith) m
Represents-le r h (suc d) p e n c m =
    let q : suc (d + h) ≡ suc d + h = omega arith in
    subst (λ f. Represents r f p e n c) q
      (Represents-suc r (d + h) p e n c (Represents-le r h d p e n c m))

-- With enough fuel: the height of the trie or more.
pub Refines-le : (h f : ℕ) (t : Trie) (m : ValueMap) → h ≤ f → Refines h t m → Refines f t m
Refines-le h f t m l s =
    let q : (f - h) + h ≡ f = omega arith in
    record {
      content = s.content;
      holds =
          subst (λ g. Represents t.reader g [] false t.root s.content) q
            (Represents-le t.reader h (f - h) [] false t.root s.content s.holds);
      content_eq = s.content_eq;
    }

-- What a method that edits a trie gives: no error, and a trie that holds the map after the edit.
pub record Edited (h : ℕ) (m : ValueMap) (o : Outcome (Trie × Option TrieError)) : Type 0 where
  pub trie : Trie
  pub result_eq : o ≡ returns (trie, none) trie.tracer
  pub refines : Refines h trie m

-- What TryGet gives: the value of the map, no error, and a trie that holds the same map.
pub record Got (h : ℕ) (m : ValueMap) (key : Bytes)
    (o : Outcome (Option Bytes × Trie × Option TrieError)) : Type 0 where
  pub trie : Trie
  pub result_eq : o ≡ returns (m key, trie, none) trie.tracer
  pub refines : Refines h trie m

-- On a trie of height h that holds a map, whatever of it is still to be loaded, TryGet at a key of
-- bytes with fuel h or more returns the value of the map and no error, and the trie after it, with the
-- loaded nodes in place, holds the same map at height h.
pub try_get_value-Got :
    (h f : ℕ) (t : Trie) (m : ValueMap) (key : Bytes)
    → Refines h t m
    → AllBelow 256 key
    → h ≤ f
    → Got h m key (try_get_value f t key)
unfolding try_get_value
try_get_value-Got h f t m key s b l =
    let hex = keybytes_to_hex key in
    let g =
      try_get-Finds t.reader h [] false t.root s.content hex t.tracer s.holds (Walk-hex key b) in
    let after : Trie = record t {
      root = replaced g.loaded none t.root g.node;
      tracer = g.tracer;
    } in
    record {
      trie = after;
      result_eq =
          ap
            (λ o. and_then o (λ x u.
              returns (x.0, record t { root = replaced x.2 x.3 t.root x.1; tracer = u }, x.3) u))
            (returns-le (λ f'. try_get t.reader f' t.root hex 0 t.tracer) _ g.tracer h f
              (λ f'. try_get-suc t.reader f' t.root hex 0 t.tracer) l g.result_eq)
          ∙ ap (λ v. returns (v, after, none) g.tracer) (s.content_eq key b);
      refines = record {
        content = s.content;
        holds = kept g.loaded g.node s.content s.holds g.holds;
        content_eq = s.content_eq;
      };
    }
  where
    kept :
        (d : Bool) (n : Node) (c : Content)
        → Represents t.reader h [] false t.root c
        → Represents t.reader h [] false n c
        → Represents t.reader h [] false (replaced d none t.root n) c
    kept true n c x y = y
    kept false n c x y = x

edited_lem :
    (h : ℕ) (t : Trie) (m : ValueMap) (key : Bytes) (v : Option Bytes) (c : Content) (d : Bool)
    (n : Node) (u : Tracer) (o : Outcome Edit)
    → o ≡ returns (d, n, none) u
    → AllBelow 256 key
    → ((k : Bytes) → AllBelow 256 k → c (keybytes_to_hex k) ≡ m k)
    → Represents t.reader h [] false n (write c (keybytes_to_hex key) v)
    → Edited h (put m key v) (and_then o (edited t))
edited_lem h t m key v c d n u o e b q x = record {
  trie = record t { root = n; tracer = u; unhashed = t.unhashed + 1 };
  result_eq = ap (λ o'. and_then o' (edited t)) e;
  refines = record {
    content = write c (keybytes_to_hex key) v;
    holds = x;
    content_eq = write_content c m key v b q;
  };
}

-- On a trie of height h that holds a map, at a key of bytes, TryDelete with fuel h or more returns no
-- error, and the trie after it holds, at height h, the map with the key removed.
pub try_delete-Edited :
    (h f : ℕ) (t : Trie) (m : ValueMap) (key : Bytes)
    → Refines h t m
    → AllBelow 256 key
    → h ≤ f
    → Edited h (put m key none) (try_delete f t key)
unfolding try_delete
try_delete-Edited h f t m key s b l =
    let hex = keybytes_to_hex key in
    let g =
      delete-Deleted t.reader h [] false t.root s.content hex t.tracer s.holds (Walk-hex key b) in
    edited_lem h t m key none s.content g.dirty g.node g.tracer _
      (returns-le (λ f'. delete t.reader f' t.root [] hex t.tracer) _ g.tracer h f
        (λ f'. delete-suc t.reader f' t.root [] hex t.tracer) l g.result_eq)
      b s.content_eq g.holds

-- On a trie of height h that holds a map, at a key of bytes, TryUpdate with fuel above h returns no
-- error, and the trie after it holds the map with the value written, or with the key removed where
-- the value is empty, at height h + 2.
pub try_update-Edited :
    (h f : ℕ) (t : Trie) (m : ValueMap) (key value : Bytes)
    → Refines h t m
    → AllBelow 256 key
    → h < f
    → Edited (suc (suc h)) (put m key (value_of value)) (try_update f t key value)
unfolding try_update
try_update-Edited h f t m key [] s b l =
    let hex = keybytes_to_hex key in
    let g =
      delete-Deleted t.reader h [] false t.root s.content hex t.tracer s.holds (Walk-hex key b) in
    edited_lem (suc (suc h)) t m key none s.content g.dirty g.node g.tracer _
      (returns-le (λ f'. delete t.reader f' t.root [] hex t.tracer) _ g.tracer h f
        (λ f'. delete-suc t.reader f' t.root [] hex t.tracer) (omega (arith, l)) g.result_eq)
      b s.content_eq
      (Represents-suc t.reader (suc h) [] false g.node _
        (Represents-suc t.reader h [] false g.node _ g.holds))
try_update-Edited h f t m key (x ∷ value) s b l =
    let hex = keybytes_to_hex key in
    let v = value_node (x ∷ value) in
    let g =
      insert-Inserted t.reader h [] false t.root s.content hex (x ∷ value) t.tracer s.holds
        (Walk-hex key b) in
    edited_lem (suc (suc h)) t m key (some (x ∷ value)) s.content g.dirty g.node g.tracer _
      (returns-le (λ f'. insert t.reader f' v t.root [] hex t.tracer) _ g.tracer (suc h) f
        (λ f'. insert-suc t.reader f' v t.root [] hex t.tracer) l g.result_eq)
      b s.content_eq g.holds
