-- ===== src/TrieByCid/Trie/Content/Insert.antt =====
-- trie.go: insert writes the key, whatever of the trie is to be loaded on the way.
use ipld_eth_statedb.Base.{
  ℕ, zero, suc, ◌≡◌, refl, ap, ap₂, ◌∙◌, subst, Bool, true, false, not, none, some, [], ◌∷◌, ◌++◌,
  ◌==◌, ==_refl, ==_iff, if◌then◌else◌, length, length-append, take, drop, take-append_self, arith,
}
use ipld_eth_statedb.TrieByCid.Trie.Encoding.{prefix_len}
use ipld_eth_statedb.TrieByCid.Trie.Node.{
  Bytes, Nibbles, Node, nil_node, full_node, short_node, hash_node, value_node,
}
use ipld_eth_statedb.TrieByCid.Trie.Tracer.{Tracer, same, same_eq, on_insert, on_read}
use ipld_eth_statedb.TrieByCid.Trie.Trie.{
  TrieReader, Outcome, returns, and_then, with_child, new_flag,
}
use ipld_eth_statedb.TrieByCid.Trie.Trie.Insert.{
  Edit, insert, insert_below, insert_loaded, branch_out, if_dirty,
}
use ipld_eth_statedb.TrieByCid.Trie.Content.{Content, Walk, KeyFrom, below, only, write, Represents}
use ipld_eth_statedb.TrieByCid.Trie.Content.Keys.{
  KeyView, under, forks, key_view, drop-append_self, prefix_len-append, below-append,
  KeyFrom-append, prefix_len-fork,
}
use ipld_eth_statedb.TrieByCid.Trie.Content.Lookup.{
  Represents-congr, Represents-suc, resolve_and_track-Resolves, child_index-append, KeyFrom-head,
}
use ipld_eth_statedb.TrieByCid.Trie.Content.Writes.{
  write-nothing, write-below, write-branch, write-fork, write_self, at_nibble,
}
use ipld_eth_statedb.TrieByCid.Trie.Content.Plant.{outside, branch_out-Branched}

abbrev pub if_changed : Bool → Node → Node → Node
if_changed true n old = n
if_changed false n old = old

-- An edit of a child that returns, and the edit of the node above it.
pub if_dirty_lem :
    (d : Bool) (m n : Node) (make : Node → Node) (u : Tracer)
    → if_dirty n (λ nn w. returns (true, make nn, none) w) (d, m, none) u
      ≡ returns (d, if_changed d (make m) n, none) u
if_dirty_lem true m n make u = refl
if_dirty_lem false m n make u = refl

module _ (r : TrieReader) where
  -- What insert gives: no error, and a node that holds the content with the key written; where it says
  -- that nothing changed, the value was there.
  pub record Inserted (h : ℕ) (p : Nibbles) (e : Bool) (c : Content) (k : Nibbles) (v : Bytes)
      (o : Outcome Edit) : Type 0 where
    pub dirty : Bool
    pub node : Node
    pub tracer : Tracer
    pub result_eq : o ≡ returns (dirty, node, none) tracer
    pub holds : Represents r (suc (suc h)) p e node (write c k (some v))
    pub unchanged : dirty ≡ false → c k ≡ some v

  changed-Represents :
      (h : ℕ) (p : Nibbles) (e : Bool) (c : Content) (k : Nibbles) (v : Bytes) (d : Bool)
      (n old : Node)
      → (d ≡ false → c k ≡ some v)
      → Represents r (suc (suc h)) p e n (write c k (some v))
      → Represents r h p e old c
      → Represents r (suc (suc h)) p e (if_changed d n old) (write c k (some v))
  changed-Represents h p e c k v true n old u x y = x
  changed-Represents h p e c k v false n old u x y =
      Represents-congr r (suc (suc h)) p e old c (write c k (some v))
        (λ q. write_self c k (some v) q (u refl))
        (Represents-suc r (suc h) p e old c (Represents-suc r h p e old c y))

  overwritten :
      (h : ℕ) (p : Nibbles) (c : Content) (u v : Bytes) (t : Tracer)
      → ((k : Nibbles) → c k ≡ only u k)
      → Inserted h p true c [] v (returns (not (same u v), value_node v, none) t)
  overwritten h p c u v t m = record {
    dirty = not (same u v);
    node = value_node v;
    tracer = t;
    result_eq = refl;
    holds = (refl, whole);
    unchanged = λ d. m [] ∙ ap some (same_eq u v (not_false (same u v) d));
  }
    where
      not_false : (b : Bool) → not b ≡ false → b ≡ true
      not_false true d = refl
      not_false false d = cc

      whole : (k : Nibbles) → write c [] (some v) k ≡ only v k
      whole [] = refl
      whole (x ∷ xs) = m (x ∷ xs)

  planted_end :
      (h : ℕ) (p : Nibbles) (c : Content) (v : Bytes) (t : Tracer)
      → ((k : Nibbles) → c k ≡ none)
      → Inserted h p true c [] v (returns (true, value_node v, none) t)
  planted_end h p c v t m = record {
    dirty = true;
    node = value_node v;
    tracer = t;
    result_eq = refl;
    holds = (refl, λ k. write-nothing [] v c m k);
    unchanged = λ d. absurd (cc);
  }

  parted : (pre a : Nibbles) (i : ℕ) → (length pre == length (pre ++ i ∷ a)) ≡ false
  parted pre a i = ground (arith, length-append {0} pre (i ∷ a))

  -- A child that is replaced, with its content.
  pub with_child-at_nibble :
      (h : ℕ) (p : Nibbles) (children : ℕ → Node) (cs : ℕ → Content) (i j : ℕ) (n : Node)
      (c : Content)
      → Represents r h (p ++ i ∷ []) (i == 16) n c
      → Represents r h (p ++ j ∷ []) (j == 16) (children j) (cs j)
      → Represents r h (p ++ j ∷ []) (j == 16) (with_child children i n j) (at_nibble cs i c j)
  with_child-at_nibble h p children cs i j n c x y = at_index (i == j) (λ e. (==_iff i j).0 e)
    where
      at_index :
          (s : Bool)
          → (s ≡ true → i ≡ j)
          → Represents r h
              (p ++ j ∷ [])
              (j == 16)
              (if s then n else children j)
              (if s then c else cs j)
      at_index true e = subst (λ l. Represents r h (p ++ l ∷ []) (l == 16) n c) (e refl) x
      at_index false e = y

  -- insert on a node that represents a content, at a key below its path, with one more fuel than
  -- the height.
  pub insert-Inserted :
      (h : ℕ) (p : Nibbles) (e : Bool) (n : Node) (c : Content) (k : Nibbles) (v : Bytes)
      (t : Tracer)
      → Represents r h p e n c
      → KeyFrom e k
      → Inserted h p e c k v (insert r (suc h) (value_node v) n p k t)
  unfolding insert
  insert-Inserted zero p e n c k v t m w = absurd m
  insert-Inserted (suc h) p true n c (x ∷ k) v t m w = absurd (cc)
  insert-Inserted (suc h) p true nil_node c [] v t m w = planted_end (suc h) p c v t m
  insert-Inserted (suc h) p true (value_node u) c [] v t m w = overwritten (suc h) p c u v t m.1
  insert-Inserted (suc h) p true (short_node key n f) c [] v t m w = absurd (cc (m.0))
  insert-Inserted (suc h) p true (full_node children f) c [] v t m w = absurd (cc (m.0))
  insert-Inserted (suc h) p true (hash_node hash) c [] v t m w = absurd (cc (m.0))
  insert-Inserted (suc h) p false n c [] v t m w = absurd (cc)
  insert-Inserted (suc h) p false nil_node c (x ∷ k) v t m w = record {
    dirty = true;
    node = short_node (x ∷ k) (value_node v) new_flag;
    tracer = on_insert t p;
    result_eq = refl;
    holds = (refl, λ z. cc, true, only v, w, (refl, λ q. refl), λ q. write-nothing (x ∷ k) v c m q);
    unchanged = λ d. absurd (cc);
  }
  insert-Inserted (suc h) p false (value_node u) c (x ∷ k) v t m w = absurd (cc (m.0))
  insert-Inserted (suc h) p false (short_node key n f) c (x ∷ k) v t (q, ne, e', c', s, m, eq) w =
      at_view h m (key_view key (x ∷ k) e' s w)
        (λ rest kf. insert-Inserted h (p ++ key) e' n c' rest v t m kf)
    where
      short_result : Outcome Edit → Bool → Outcome Edit → Outcome Edit
      short_result parted b o = elim b [
        | true ↦ and_then o (
            if_dirty (short_node key n f)
              (λ nn u. returns (true, short_node key nn new_flag, none) u))
        | false ↦ parted
      ]

      at_key : (rest : Nibbles) → x ∷ k ≡ key ++ rest → c (x ∷ k) ≡ c' rest
      at_key rest z = eq (x ∷ k) ∙ ap (below key c') z ∙ below-append key c' rest

      at_view :
          (h' : ℕ)
          → Represents r h' (p ++ key) e' n c'
          → KeyView key (x ∷ k)
          → ((rest : Nibbles)
              → KeyFrom e' rest
              → Inserted h'
                  (p ++ key)
                  e'
                  c'
                  rest
                  v
                  (insert r (suc h') (value_node v) n (p ++ key) rest t))
          → Inserted
              (suc h')
              p
              false
              c
              (x ∷ k)
              v
              (insert_below r (insert r (suc h')) (value_node v) (short_node key n f) p (x ∷ k) t)
      at_view h' m' (under rest z) rec =
          let g = rec rest (KeyFrom-append key e' rest s (subst (λ l. Walk l true) z w)) in
          let made = short_node key g.node new_flag in
          record {
            dirty = g.dirty;
            node = if_changed g.dirty made (short_node key n f);
            tracer = g.tracer;
            result_eq =
                ap₂
                  (short_result (
                    branch_out r (insert r (suc h')) (prefix_len (x ∷ k) key) key n p (x ∷ k)
                      (value_node v) t))
                  (ap (λ l. prefix_len l key == length key) z
                    ∙ ap (λ l. l == length key) (prefix_len-append key rest)
                    ∙ ==_refl (length key))
                  (ap₂ (λ q' k'. insert r (suc h') (value_node v) n (p ++ q') k' t)
                    (ap (take (length key)) z ∙ take-append_self key rest)
                    (ap (drop (length key)) z ∙ drop-append_self key rest))
                ∙ ap
                    (λ o. and_then o (
                      if_dirty (short_node key n f)
                        (λ nn u. returns (true, short_node key nn new_flag, none) u)))
                    g.result_eq
                ∙ if_dirty_lem g.dirty g.node (short_node key n f)
                    (λ nn. short_node key nn new_flag) g.tracer;
            holds =
                changed-Represents (suc h') p false c (x ∷ k) v g.dirty made (short_node key n f)
                  (λ d. at_key rest z ∙ g.unchanged d)
                  (
                    refl,
                    ne,
                    e',
                    write c' rest (some v),
                    s,
                    g.holds,
                    λ q'.
                        ap (λ o. if same (x ∷ k) q' then some v else o) (eq q')
                        ∙ ap (λ l. write (below key c') l (some v) q') z
                        ∙ write-below key rest c' (some v) q',
                  )
                  (refl, ne, e', c', s, m', eq);
            unchanged = λ d. at_key rest z ∙ g.unchanged d;
          }
      at_view zero m' (forks pre a b i j ij ke kk) rec = absurd m'
      at_view (suc h') m' (forks pre a b i j ij ke kk) rec =
          let g =
            branch_out-Branched r (suc h') h' p pre a b i j e' n c' v t
              (subst (λ l. Walk l e') ke s) (subst (λ l. Walk l true) kk w)
              (subst (λ l. Represents r (suc h') (p ++ l) e' n c') ke m') in
          let shared : prefix_len (x ∷ k) key ≡ length pre =
            ap₂ prefix_len kk ke ∙ prefix_len-fork pre a b i j ij in
          record {
            dirty = true;
            node = g.node;
            tracer = g.tracer;
            result_eq =
                ap
                  (λ l.
                    short_result
                      (branch_out r (insert r (suc (suc h'))) (prefix_len (x ∷ k) key) key n p
                        (x ∷ k) (value_node v) t)
                      l
                      (insert r (suc (suc h')) (value_node v) n (p ++ take (length key) (x ∷ k))
                        (drop (length key) (x ∷ k)) t))
                  (ap₂ (λ l key'. l == length key') shared ke ∙ parted pre a i)
                ∙ ap
                    (λ l. branch_out r (insert r (suc (suc h'))) l key n p (x ∷ k) (value_node v) t)
                    shared
                ∙ ap₂
                    (λ key' k'.
                      branch_out r (insert r (suc (suc h'))) (length pre) key' n p k' (value_node v)
                        t)
                    ke kk
                ∙ g.result_eq;
            holds =
                Represents-congr r (suc (suc (suc (suc h')))) p false g.node _
                  (write c (x ∷ k) (some v))
                  (λ q'.
                    ap (λ o. if same (x ∷ k) q' then some v else o) (eq q')
                    ∙ ap₂ (λ key' k'. write (below key' c') k' (some v) q') ke kk
                    ∙ write-fork pre a b i j c' v ij q')
                  g.holds;
            unchanged = λ d. absurd (cc);
          }
  insert-Inserted (suc h) p false (full_node children f) c (i ∷ k) v t (q, cs, m, out, eq) w =
      let (l, kf) = KeyFrom-head r i k w in
      let g = insert-Inserted h (p ++ i ∷ []) (i == 16) (children i) (cs i) k v t (m i l) kf in
      let made = full_node (with_child children i g.node) new_flag in
      record {
        dirty = g.dirty;
        node = if_changed g.dirty made (full_node children f);
        tracer = g.tracer;
        result_eq =
            child_index-append r [] i k
              (λ j. and_then (insert r (suc h) (value_node v) (children j) (p ++ j ∷ []) k t) (
                if_dirty (full_node children f)
                  (λ nn u. returns (true, full_node (with_child children j nn) new_flag, none) u)))
              l
            ∙ ap
                (λ o. and_then o (
                  if_dirty (full_node children f) (λ nn u.
                    returns (true, full_node (with_child children i nn) new_flag, none) u)))
                g.result_eq
            ∙ if_dirty_lem g.dirty g.node (full_node children f)
                (λ nn. full_node (with_child children i nn) new_flag) g.tracer;
        holds =
            changed-Represents (suc h) p false c (i ∷ k) v g.dirty made (full_node children f)
              (λ d. eq (i ∷ k) ∙ g.unchanged d)
              (
                refl,
                at_nibble cs i (write (cs i) k (some v)),
                (λ j lt.
                    with_child-at_nibble (suc (suc h)) p children cs i j g.node
                      (write (cs i) k (some v)) g.holds
                      (Represents-suc r (suc h) (p ++ j ∷ []) (j == 16) (children j) (cs j)
                        (Represents-suc r h (p ++ j ∷ []) (j == 16) (children j) (cs j) (m j lt)))),
                (λ j q' o. outside i j q' (write (cs i) k (some v)) (cs j) l o (out j q' o)),
                λ q'.
                    ap (λ o. if same (i ∷ k) q' then some v else o) (eq q')
                    ∙ write-branch cs i k (some v) q',
              )
              (refl, cs, m, out, eq);
        unchanged = λ d. eq (i ∷ k) ∙ g.unchanged d;
      }
  insert-Inserted (suc h) p false (hash_node hash) c (x ∷ k) v t (q, n, l, m) w =
      let g = insert-Inserted h p false n c (x ∷ k) v (on_read t p l.blob) m w in
      record {
        dirty = g.dirty;
        node = if_changed g.dirty g.node n;
        tracer = g.tracer;
        result_eq =
            ap (λ o. and_then o (insert_loaded r (insert r (suc h) (value_node v)) p (x ∷ k)))
              (resolve_and_track-Resolves r p hash n t l)
            ∙ ap (λ o. and_then o (if_dirty n (λ nn u. returns (true, nn, none) u))) g.result_eq
            ∙ if_dirty_lem g.dirty g.node n (λ nn. nn) g.tracer;
        holds =
            Represents-suc r (suc (suc h)) p false (if_changed g.dirty g.node n)
              (write c (x ∷ k) (some v))
              (changed-Represents h p false c (x ∷ k) v g.dirty g.node n g.unchanged g.holds m);
        unchanged = g.unchanged;
      }
