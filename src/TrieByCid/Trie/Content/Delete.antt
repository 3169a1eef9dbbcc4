-- ===== src/TrieByCid/Trie/Content/Delete.antt =====
-- trie.go: delete removes the key, whatever of the trie is to be loaded on the way.
use ipld_eth_statedb.Base.{
  ℕ, zero, suc, ◌<◌, ◌≤◌, ◌≡◌, refl, ap, ap₂, ◌∙◌, sym, subst, Bool, true, false, none, [], ◌∷◌,
  ◌++◌, ◌==◌, ==_refl, if◌then◌else◌, length, length-append, take, drop, take-append_self, ltb,
  arith,
}
use mathlib.Core.List.{append-nil}
use ipld_eth_statedb.TrieByCid.Trie.Encoding.{prefix_len}
use ipld_eth_statedb.TrieByCid.Trie.Node.{
  Nibbles, Node, nil_node, full_node, short_node, hash_node, value_node,
}
use ipld_eth_statedb.TrieByCid.Trie.Tracer.{Tracer, same, on_delete, on_read}
use ipld_eth_statedb.TrieByCid.Trie.Trie.{
  TrieReader, Outcome, returns, and_then, with_child, new_flag,
}
use ipld_eth_statedb.TrieByCid.Trie.Trie.Insert.{Edit, if_dirty}
use ipld_eth_statedb.TrieByCid.Trie.Trie.Delete.{
  no_child, children_left, delete, delete_step, delete_loaded, joined, after_child,
}
use ipld_eth_statedb.TrieByCid.Trie.Content.{
  Content, Walk, KeyFrom, below, branch, write, Represents,
}
use ipld_eth_statedb.TrieByCid.Trie.Content.Keys.{
  KeyView, under, forks, key_view, drop-append_self, prefix_len-append, below-append, below-fork,
  KeyFrom-append, prefix_len-fork,
}
use ipld_eth_statedb.TrieByCid.Trie.Content.Lookup.{
  Represents-congr, Represents-suc, resolve_and_track-Resolves, child_index-append, KeyFrom-head,
}
use ipld_eth_statedb.TrieByCid.Trie.Content.Writes.{
  write-below, write-branch, write_self, at_nibble,
}
use ipld_eth_statedb.TrieByCid.Trie.Content.Plant.{outside}
use ipld_eth_statedb.TrieByCid.Trie.Content.Insert.{with_child-at_nibble}
use ipld_eth_statedb.TrieByCid.Trie.Content.Reduce.{
  Holds, joined-Holds, reduce-Holds, children_left-Counted, below-nothing,
}

module _ (r : TrieReader) where
  -- What delete gives: no error, and a node that holds the content without the key; where it says
  -- that nothing changed, the key was not there.
  pub record Deleted (h : ℕ) (p : Nibbles) (e : Bool) (c : Content) (k : Nibbles) (o : Outcome Edit)
      : Type 0 where
    pub dirty : Bool
    pub node : Node
    pub tracer : Tracer
    pub result_eq : o ≡ returns (dirty, node, none) tracer
    pub holds : Represents r h p e node (write c k none)
    pub unchanged : dirty ≡ false → c k ≡ none

  -- A delete that finds nothing leaves the node.
  missing :
      (h : ℕ) (p : Nibbles) (e : Bool) (n : Node) (c : Content) (k : Nibbles) (t : Tracer)
      (o : Outcome Edit)
      → o ≡ returns (false, n, none) t
      → Represents r h p e n c
      → c k ≡ none
      → Deleted h p e c k o
  missing h p e n c k t o q m z = record {
    dirty = false;
    node = n;
    tracer = t;
    result_eq = q;
    holds = Represents-congr r h p e n c (write c k none) (λ q'. write_self c k none q' z) m;
    unchanged = λ d. z;
  }

  -- The edit of a child that returns, and what is made of the node above it.
  pub edit_above :
      (h : ℕ) (p : Nibbles) (old : Node) (c : Content) (k : Nibbles) (dirty : Bool) (n : Node)
      (u : Tracer) (make : Node → Tracer → Outcome Edit)
      → Represents r h p false old c
      → (dirty ≡ false → c k ≡ none)
      → Holds r h p (write c k none) (make n u)
      → Deleted h p false c k (if_dirty old make (dirty, n, none) u)
  edit_above h p old c k true n u make m z g = record {
    dirty = true;
    node = g.node;
    tracer = g.tracer;
    result_eq = g.result_eq;
    holds = g.holds;
    unchanged = λ q. absurd (cc);
  }
  edit_above h p old c k false n u make m z g = missing h p false old c k u _ refl m (z refl)

  Deleted-of_eq :
      (h : ℕ) (p : Nibbles) (e : Bool) (c : Content) (k : Nibbles) (o o' : Outcome Edit)
      → o ≡ o'
      → Deleted h p e c k o'
      → Deleted h p e c k o
  Deleted-of_eq h p e c k o o' q g = subst (Deleted h p e c k) (sym q) g

  -- Below an ended path nothing but the empty rest can be held.
  ended_content :
      (h : ℕ) (p : Nibbles) (n : Node) (c : Content) (k : Nibbles)
      → Represents r h p true n c
      → write c [] none k ≡ none
  ended_content h p n c [] m = refl
  ended_content zero p n c (x ∷ k) m = absurd m
  ended_content (suc h) p nil_node c (x ∷ k) m = m (x ∷ k)
  ended_content (suc h) p (value_node v) c (x ∷ k) m = m.1 (x ∷ k)
  ended_content (suc h) p (short_node key n f) c (x ∷ k) m = absurd (cc (m.0))
  ended_content (suc h) p (full_node d f) c (x ∷ k) m = absurd (cc (m.0))
  ended_content (suc h) p (hash_node b) c (x ∷ k) m = absurd (cc (m.0))

  -- The full node after the delete below one of its children.
  after_child-Holds :
      (h : ℕ) (p : Nibbles) (c : ℕ → Node) (cs : ℕ → Content) (n : Node) (t : Tracer)
      → ((i : ℕ) → i < 17 → Represents r h (p ++ i ∷ []) (i == 16) (c i) (cs i))
      → ((i : ℕ) (k : Nibbles) → 17 ≤ i → cs i k ≡ none)
      → Holds r (suc h) p (branch cs) (after_child r c p n t)
  after_child-Holds h p c cs nil_node t m out =
      reduce-Holds r h p c cs (children_left c 17 0 no_child) t m out
        (children_left-Counted c 17 0 no_child (λ j l. absurd (omega (arith, l))))
  after_child-Holds h p c cs (full_node d f) t m out = record {
    node = full_node c new_flag;
    tracer = t;
    result_eq = refl;
    holds = (refl, cs, m, out, λ k. refl);
  }
  after_child-Holds h p c cs (short_node k v f) t m out = record {
    node = full_node c new_flag;
    tracer = t;
    result_eq = refl;
    holds = (refl, cs, m, out, λ k. refl);
  }
  after_child-Holds h p c cs (hash_node b) t m out = record {
    node = full_node c new_flag;
    tracer = t;
    result_eq = refl;
    holds = (refl, cs, m, out, λ k. refl);
  }
  after_child-Holds h p c cs (value_node v) t m out = record {
    node = full_node c new_flag;
    tracer = t;
    result_eq = refl;
    holds = (refl, cs, m, out, λ k. refl);
  }

  Holds-congr :
      (h : ℕ) (p : Nibbles) (c d : Content) (o : Outcome Edit)
      → ((k : Nibbles) → d k ≡ c k)
      → Holds r h p c o
      → Holds r h p d o
  Holds-congr h p c d o q g = record {
    node = g.node;
    tracer = g.tracer;
    result_eq = g.result_eq;
    holds = Represents-congr r h p false g.node c d q g.holds;
  }

  shorter : (pre a : Nibbles) (i : ℕ) → ltb (length pre) (length (pre ++ i ∷ a)) ≡ true
  shorter pre a i = ground (arith, length-append {0} pre (i ∷ a))

  not_shorter : (n : ℕ) → ltb n n ≡ false
  not_shorter n = ground arith

  longer :
      (key : Nibbles) (x : ℕ) (rest : Nibbles) → (length key == length (key ++ x ∷ rest)) ≡ false
  longer key x rest = ground (arith, length-append {0} key (x ∷ rest))

  -- delete on a node that represents a content, at a key below its path, with the height as fuel.
  pub delete-Deleted :
      (h : ℕ) (p : Nibbles) (e : Bool) (n : Node) (c : Content) (k : Nibbles) (t : Tracer)
      → Represents r h p e n c
      → KeyFrom e k
      → Deleted h p e c k (delete r h n p k t)
  unfolding delete
  delete-Deleted zero p e n c k t m w = absurd m
  delete-Deleted (suc h) p e nil_node c k t m w = missing (suc h) p e nil_node c k t _ refl m (m k)
  delete-Deleted (suc h) p true (value_node v) c [] t m w = record {
    dirty = true;
    node = nil_node;
    tracer = t;
    result_eq = refl;
    holds = λ q. ended_content (suc h) p (value_node v) c q m;
    unchanged = λ d. absurd (cc);
  }
  delete-Deleted (suc h) p true (value_node v) c (x ∷ k) t m w = absurd (cc)
  delete-Deleted (suc h) p false (value_node v) c k t m w = absurd (cc (m.0))
  delete-Deleted (suc h) p true (short_node key n f) c k t m w = absurd (cc (m.0))
  delete-Deleted (suc h) p false (short_node key n f) c k t (q, ne, e', c', s, m, eq) w =
      at_view (key_view key k e' s w) (λ rest kf. delete-Deleted h (p ++ key) e' n c' rest t m kf)
    where
      old : Represents r (suc h) p false (short_node key n f) c
      old = (q, ne, e', c', s, m, eq)

      matched : Bool → Bool → Outcome Edit → Outcome Edit
      matched shorter whole o = elim shorter [
        | true ↦ returns (false, short_node key n f, none) t
        | false ↦ elim whole [
          | true ↦ returns (true, nil_node, none) (on_delete t p)
          | false ↦ and_then o (if_dirty (short_node key n f) (joined p key))
        ]
      ]

      -- The key of the short node is matched whole.
      taken :
          (rest : Nibbles) (whole : Bool)
          → k ≡ key ++ rest
          → (length key == length (key ++ rest)) ≡ whole
          → delete_step r (delete r h) (short_node key n f) p k t
            ≡ matched false whole (delete r h n (p ++ key) rest t)
      taken rest whole z b =
          let same_len : prefix_len k key ≡ length key =
            ap (λ l. prefix_len l key) z ∙ prefix_len-append key rest in
          ap₂
            (λ b1 b2.
              matched b1 b2 (delete r h n (p ++ take (length key) k) (drop (length key) k) t))
            (ap (λ l. ltb l (length key)) same_len ∙ not_shorter (length key))
            (ap₂ (λ l k'. l == length k') same_len z ∙ b)
          ∙ ap₂ (λ q' k'. matched false whole (delete r h n (p ++ q') k' t))
              (ap (take (length key)) z ∙ take-append_self key rest)
              (ap (drop (length key)) z ∙ drop-append_self key rest)

      removed :
          (rest q' : Nibbles)
          → k ≡ key ++ rest
          → write c k none q' ≡ below key (write c' rest none) q'
      removed rest q' z =
          ap (λ o. if same k q' then none else o) (eq q')
          ∙ ap (λ l. write (below key c') l none q') z
          ∙ write-below key rest c' none q'

      at_rest :
          (d : Bool)
          → Represents r h (p ++ key) d n c'
          → Walk key d
          → (rest : Nibbles) → k ≡ key ++ rest
          → KeyFrom d rest
          → Deleted h (p ++ key) d c' rest (delete r h n (p ++ key) rest t)
          → Deleted (suc h) p false c k (delete_step r (delete r h) (short_node key n f) p k t)
      at_rest true m' s' [] z kf g = record {
        dirty = true;
        node = nil_node;
        tracer = on_delete t p;
        result_eq =
            taken [] true z
              (ap (λ l. length key == length l) (append-nil key) ∙ ==_refl (length key));
        holds = λ q'.
            removed [] q' z
            ∙ below-nothing key (write c' [] none) (λ k'. ended_content h (p ++ key) n c' k' m') q';
        unchanged = λ d. absurd (cc);
      }
      at_rest true m' s' (x ∷ rest) z kf g = absurd (cc)
      at_rest false m' s' [] z kf g = absurd (cc)
      at_rest false m' s' (x ∷ rest) z kf g =
          Deleted-of_eq (suc h) p false c k _ _
            (taken (x ∷ rest) false z (longer key x rest)
              ∙ ap (λ o. and_then o (if_dirty (short_node key n f) (joined p key))) g.result_eq)
            (edit_above (suc h) p (short_node key n f) c k g.dirty g.node g.tracer (joined p key)
              old (λ d. eq k ∙ ap (below key c') z ∙ below-append key c' (x ∷ rest) ∙ g.unchanged d)
              (Holds-congr (suc h) p (below key (write c' (x ∷ rest) none)) (write c k none) _
                (λ q'. removed (x ∷ rest) q' z)
                (joined-Holds r h p key g.node (write c' (x ∷ rest) none) g.tracer s' ne g.holds)))

      at_view :
          KeyView key k
          → ((rest : Nibbles)
              → KeyFrom e' rest
              → Deleted h (p ++ key) e' c' rest (delete r h n (p ++ key) rest t))
          → Deleted (suc h) p false c k (delete_step r (delete r h) (short_node key n f) p k t)
      at_view (forks pre a b i j ij ke kk) rec =
          missing (suc h) p false (short_node key n f) c k t _
            (ap
              (λ b'.
                matched b' (prefix_len k key == length k)
                  (delete r h n (p ++ take (length key) k) (drop (length key) k) t))
              (ap₂ (λ l key'. ltb l (length key'))
                  (ap₂ prefix_len kk ke ∙ prefix_len-fork pre a b i j ij) ke
                ∙ shorter pre a i))
            old (eq k ∙ ap₂ (λ a' b'. below a' c' b') ke kk ∙ below-fork pre a b i j c' ij)
      at_view (under rest z) rec =
          let kf = KeyFrom-append key e' rest s (subst (λ l. Walk l true) z w) in
          at_rest e' m s rest z kf (rec rest kf)
  delete-Deleted (suc h) p true (full_node children f) c k t m w = absurd (cc (m.0))
  delete-Deleted (suc h) p false (full_node children f) c [] t m w = absurd (cc)
  delete-Deleted (suc h) p false (full_node children f) c (i ∷ k) t (q, cs, m, out, eq) w =
      let (l, kf) = KeyFrom-head r i k w in
      let g = delete-Deleted h (p ++ i ∷ []) (i == 16) (children i) (cs i) k t (m i l) kf in
      let cs' = at_nibble cs i (write (cs i) k none) in
      let after =
        λ (j : ℕ) (nn : Node) (u : Tracer). after_child r (with_child children j nn) p nn u in
      Deleted-of_eq (suc h) p false c (i ∷ k) _ _
        (child_index-append r [] i k
            (λ j.
              and_then (delete r h (children j) (p ++ j ∷ []) k t)
                (if_dirty (full_node children f) (after j)))
            l
          ∙ ap (λ o. and_then o (if_dirty (full_node children f) (after i))) g.result_eq)
        (edit_above (suc h) p (full_node children f) c (i ∷ k) g.dirty g.node g.tracer (after i)
          (q, cs, m, out, eq) (λ d. eq (i ∷ k) ∙ g.unchanged d)
          (Holds-congr (suc h) p (branch cs') (write c (i ∷ k) none) _
            (λ q'.
              ap (λ o. if same (i ∷ k) q' then none else o) (eq q') ∙ write-branch cs i k none q')
            (after_child-Holds h p (with_child children i g.node) cs' g.node g.tracer
              (λ j lt.
                with_child-at_nibble r h p children cs i j g.node (write (cs i) k none) g.holds
                  (m j lt))
              (λ j q' o. outside i j q' (write (cs i) k none) (cs j) l o (out j q' o)))))
  delete-Deleted (suc h) p true (hash_node hash) c k t m w = absurd (cc (m.0))
  delete-Deleted (suc h) p false (hash_node hash) c k t (q, n, l, m) w =
      let g = delete-Deleted h p false n c k (on_read t p l.blob) m w in
      Deleted-of_eq (suc h) p false c k _ _
        (ap (λ o. and_then o (delete_loaded r (delete r h) p k))
            (resolve_and_track-Resolves r p hash n t l)
          ∙ ap (λ o. and_then o (if_dirty n (λ nn u. returns (true, nn, none) u))) g.result_eq)
        (edit_above (suc h) p n c k g.dirty g.node g.tracer (λ nn u. returns (true, nn, none) u)
          (Represents-suc r h p false n c m) g.unchanged
          (record {
            node = g.node;
            tracer = g.tracer;
            result_eq = refl;
            holds = Represents-suc r h p false g.node (write c k none) g.holds;
          }))
