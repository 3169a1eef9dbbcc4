-- ===== src/TrieByCid/Trie/Content/Lookup.antt =====
-- trie.go: tryGet finds what the trie holds.
use ipld_eth_statedb.Base.{
  ℕ, zero, suc, ◌+◌, ◌<◌, ◌≡◌, ◌⊎◌, inl, inr, refl, ap, ap₂, ◌∙◌, sym, subst, fun_ext, Bool, true,
  false, none, [], ◌∷◌, ◌++◌, ◌==◌, ==_iff, Bool-cases, if◌then◌else◌, length, length-append,
  take-append_self, get_elem?-append_self, ltb, arith,
}
use mathlib.Core.List.{append_assoc}
use ipld_eth_statedb.TrieByCid.Trie.Node.{
  Bytes, Nibbles, Node, nil_node, full_node, short_node, hash_node, value_node,
}
use ipld_eth_statedb.TrieByCid.Trie.Tracer.{Tracer, on_read}
use ipld_eth_statedb.TrieByCid.Trie.Trie.{
  TrieReader, Outcome, returns, panics, and_then, child_index, child_index_of, with_child,
  resolve_and_track, track_blob, decoded,
}
use ipld_eth_statedb.TrieByCid.Trie.Trie.Lookup.{Got, try_get, get_child, replaced, key_at}
use ipld_eth_statedb.TrieByCid.Trie.Content.{
  Content, Walk, KeyFrom, below, only, Represents, Resolves,
}
use ipld_eth_statedb.TrieByCid.Trie.Content.Keys.{
  KeyView, under, forks, key_view, below-append, below-fork, KeyFrom-append, key_at-append,
  key_at-fork,
}

module _ (r : TrieReader) where
  pub Represents-congr :
      (h : ℕ) (p : Nibbles) (e : Bool) (n : Node) (c d : Content)
      → ((k : Nibbles) → d k ≡ c k)
      → Represents r h p e n c
      → Represents r h p e n d
  Represents-congr h p e n c d q m = subst (Represents r h p e n) (sym (fun_ext q)) m

  -- The bound on the height may grow.
  pub Represents-suc :
      (h : ℕ) (p : Nibbles) (e : Bool) (n : Node) (c : Content)
      → Represents r h p e n c
      → Represents r (suc h) p e n c
  Represents-suc zero p e n c m = absurd m
  Represents-suc (suc h) p e nil_node c m = m
  Represents-suc (suc h) p e (value_node v) c m = m
  Represents-suc (suc h) p e (short_node key n f) c (q, ne, e', c', w, m, s) =
      (q, ne, e', c', w, Represents-suc h (p ++ key) e' n c' m, s)
  Represents-suc (suc h) p e (full_node children f) c (q, cs, m, out, s) =
      (q, cs, λ i l. Represents-suc h (p ++ i ∷ []) (i == 16) (children i) (cs i) (m i l), out, s)
  Represents-suc (suc h) p e (hash_node hash) c (q, n, l, m) =
      (q, n, l, Represents-suc h p false n c m)

  -- A hash node that resolves is loaded and tracked.
  pub resolve_and_track-Resolves :
      (p : Nibbles) (hash : Bytes) (n : Node) (t : Tracer) (s : Resolves r p hash n)
      → resolve_and_track r hash p t ≡ returns (n, none) (on_read t p s.blob)
  unfolding resolve_and_track
  resolve_and_track-Resolves p hash n t s =
      ap (track_blob r hash p t) s.blob_eq ∙ ap (λ o. decoded o (on_read t p s.blob)) s.node_eq

  -- The nibble after a path, as an index.
  pub child_index-append :
      {A : Type 0} (p : Nibbles) (i : ℕ) (k : Nibbles) (f : ℕ → Outcome A)
      → i < 17
      → child_index (p ++ i ∷ k) (length p) f ≡ f i
  child_index-append p i k f l =
      ap (λ o. child_index_of o f) (get_elem?-append_self p k i)
      ∙ in_range (ltb i 17) (ground arith)
    where
      in_range : (b : Bool) → b ≡ true → elim b [ true ↦ f i | false ↦ panics ] ≡ f i
      in_range true q = refl
      in_range false q = absurd (cc)

  -- The first nibble of a key, and what follows it.
  pub KeyFrom-head : (i : ℕ) (k : Nibbles) → Walk (i ∷ k) true → (i < 17) × KeyFrom (i == 16) k
  KeyFrom-head i k (inl w) =
      (omega (arith, w.0), subst (λ b. KeyFrom b k) (sym (not_last i w.0)) w.1)
    where
      not_last : (j : ℕ) → j < 16 → (j == 16) ≡ false
      not_last j l = ground arith
  KeyFrom-head i k (inr w) =
      (omega (arith, w.0), subst (λ b. KeyFrom b k) (sym (ap (λ j. j == 16) w.0)) w.1)

  -- What tryGet gives: the value of the content, no error, and a node that holds the same content.
  pub record Finds (h : ℕ) (p : Nibbles) (e : Bool) (c : Content) (k : Nibbles) (o : Outcome Got)
      : Type 0 where
    pub node : Node
    pub loaded : Bool
    pub tracer : Tracer
    pub result_eq : o ≡ returns (c k, node, loaded, none) tracer
    pub holds : Represents r h p e node c

  replaced-Represents :
      (h : ℕ) (p : Nibbles) (e : Bool) (c : Content) (b : Bool) (n m : Node)
      → Represents r h p e n c
      → Represents r h p e m c
      → Represents r h p e (replaced b none n m) c
  replaced-Represents h p e c true n m x y = y
  replaced-Represents h p e c false n m x y = x

  with_child-Represents :
      (h : ℕ) (p : Nibbles) (children : ℕ → Node) (cs : ℕ → Content) (i j : ℕ) (n : Node)
      → Represents r h (p ++ i ∷ []) (i == 16) n (cs i)
      → Represents r h (p ++ j ∷ []) (j == 16) (children j) (cs j)
      → Represents r h (p ++ j ∷ []) (j == 16) (with_child children i n j) (cs j)
  with_child-Represents h p children cs i j n x y = at_index (Bool-cases (i == j))
    where
      at_index :
          ((i == j) ≡ true) ⊎ ((i == j) ≡ false)
          → Represents r h (p ++ j ∷ []) (j == 16) (with_child children i n j) (cs j)
      at_index (inl q) =
          subst (λ b. Represents r h (p ++ j ∷ []) (j == 16) (if b then n else children j) (cs j))
            (sym q)
            (subst (λ l. Represents r h (p ++ l ∷ []) (l == 16) n (cs l)) ((==_iff i j).0 q) x)
      at_index (inr q) =
          subst (λ b. Represents r h (p ++ j ∷ []) (j == 16) (if b then n else children j) (cs j))
            (sym q) y

  -- tryGet on a node that represents a content, at a key below its path, with the height as fuel.
  pub try_get-Finds :
      (h : ℕ) (p : Nibbles) (e : Bool) (n : Node) (c : Content) (k : Nibbles) (t : Tracer)
      → Represents r h p e n c
      → KeyFrom e k
      → Finds h p e c k (try_get r h n (p ++ k) (length p) t)
  unfolding try_get
  try_get-Finds zero p e n c k t m w = absurd m
  try_get-Finds (suc h) p e nil_node c k t m w = record {
    node = nil_node;
    loaded = false;
    tracer = t;
    result_eq = ap (λ v. returns (v, nil_node, false, none) t) (sym (m k));
    holds = m;
  }
  try_get-Finds (suc h) p true (value_node v) c k t m w = record {
    node = value_node v;
    loaded = false;
    tracer = t;
    result_eq = ap (λ o. returns (o, value_node v, false, none) t) (sym (m.1 k ∙ ap (only v) w));
    holds = m;
  }
  try_get-Finds (suc h) p false (value_node v) c k t m w = absurd (cc (m.0))
  try_get-Finds (suc h) p true (short_node key n f) c k t m w = absurd (cc (m.0))
  try_get-Finds (suc h) p false (short_node key n f) c k t (q, ne, e', c', s, m, eq) w =
      at_view (key_view key k e' s w) (λ rest v. try_get-Finds h (p ++ key) e' n c' rest t m v)
    where
      short_result : Bool → Outcome Got → Outcome Got
      short_result b o = elim b [
        | false ↦ returns (none, short_node key n f, false, none) t
        | true ↦ and_then o (λ g u.
            returns (g.0, replaced g.2 g.3 (short_node key n f) (short_node key g.1 f), g.2, g.3) u)
      ]

      at_view :
          KeyView key k
          → ((rest : Nibbles)
              → KeyFrom e' rest
              → Finds h
                  (p ++ key)
                  e'
                  c'
                  rest
                  (try_get r h n ((p ++ key) ++ rest) (length (p ++ key)) t))
          → Finds (suc h) p false c k (try_get r (suc h) (short_node key n f) (p ++ k) (length p) t)
      at_view (under rest v) rec =
          let g = rec rest (KeyFrom-append key e' rest s (subst (λ l. Walk l true) v w)) in
          record {
            node = replaced g.loaded none (short_node key n f) (short_node key g.node f);
            loaded = g.loaded;
            tracer = g.tracer;
            result_eq =
                ap₂ short_result
                  (ap (λ l. key_at (p ++ l) (length p) key) v ∙ key_at-append p key rest)
                  (ap₂ (λ path pos. try_get r h n path pos t)
                    (ap (λ l. p ++ l) v ∙ sym (append_assoc p key rest))
                    (sym (length-append p key)))
                ∙ ap (short_result true) g.result_eq
                ∙ ap
                    (λ x.
                      returns
                        (
                          x,
                          replaced g.loaded none (short_node key n f) (short_node key g.node f),
                          g.loaded,
                          none,
                        )
                        g.tracer)
                    (sym (eq k ∙ ap (below key c') v ∙ below-append key c' rest));
            holds =
                replaced-Represents (suc h) p false c g.loaded (short_node key n f)
                  (short_node key g.node f) (q, ne, e', c', s, m, eq)
                  (q, ne, e', c', s, g.holds, eq);
          }
      at_view (forks pre a b i j x u v) rec = record {
        node = short_node key n f;
        loaded = false;
        tracer = t;
        result_eq =
            ap (λ b. short_result b (try_get r h n (p ++ k) (length p + length key) t))
              (ap₂ (λ l key'. key_at (p ++ l) (length p) key') v u ∙ key_at-fork p pre a b i j x)
            ∙ ap (λ o. returns (o, short_node key n f, false, none) t)
                (sym (eq k ∙ ap₂ (λ a' b'. below a' c' b') u v ∙ below-fork pre a b i j c' x));
        holds = (q, ne, e', c', s, m, eq);
      }
  try_get-Finds (suc h) p true (full_node children f) c k t m w = absurd (cc (m.0))
  try_get-Finds (suc h) p false (full_node children f) c [] t m w = absurd (cc)
  try_get-Finds (suc h) p false (full_node children f) c (i ∷ k) t (q, cs, m, out, eq) w =
      let (l, kf) = KeyFrom-head i k w in
      let g = try_get-Finds h (p ++ i ∷ []) (i == 16) (children i) (cs i) k t (m i l) kf in
      let after = λ (j : ℕ) (o : Outcome Got). and_then {B = Got} o (λ x u.
        returns
          (
            x.0,
            replaced x.2 x.3 (full_node children f) (full_node (with_child children j x.1) f),
            x.2,
            x.3,
          )
          u) in
      record {
        node =
            replaced g.loaded none (full_node children f)
              (full_node (with_child children i g.node) f);
        loaded = g.loaded;
        tracer = g.tracer;
        result_eq =
            child_index-append p i k
              (λ j. after j (try_get r h (children j) (p ++ i ∷ k) (length p + 1) t)) l
            ∙ ap (after i) (
                ap₂ (λ path pos. try_get r h (children i) path pos t)
                  (sym (append_assoc p (i ∷ []) k)) (sym (length-append p (i ∷ []))))
            ∙ ap (after i) g.result_eq
            ∙ ap
                (λ x.
                  returns
                    (
                      x,
                      replaced g.loaded none (full_node children f)
                          (full_node (with_child children i g.node) f),
                      g.loaded,
                      none,
                    )
                    g.tracer)
                (sym (eq (i ∷ k)));
        holds =
            replaced-Represents (suc h) p false c g.loaded (full_node children f)
              (full_node (with_child children i g.node) f) (q, cs, m, out, eq)
              (
                q,
                cs,
                λ j lt. with_child-Represents h p children cs i j g.node g.holds (m j lt),
                out,
                eq,
              );
      }
  try_get-Finds (suc h) p true (hash_node hash) c k t m w = absurd (cc (m.0))
  try_get-Finds (suc h) p false (hash_node hash) c k t (q, n, l, m) w =
      let g = try_get-Finds h p false n c k (on_read t p l.blob) m w in
      record {
        node = g.node;
        loaded = true;
        tracer = g.tracer;
        result_eq =
            ap
              (λ path.
                and_then (resolve_and_track r hash path t)
                  (λ x u. get_child r (try_get r h) (p ++ k) (length p) hash u x))
              (take-append_self p k)
            ∙ ap (λ o. and_then o (λ x u. get_child r (try_get r h) (p ++ k) (length p) hash u x))
                (resolve_and_track-Resolves p hash n t l)
            ∙ ap (λ o. and_then o (λ x u. returns (x.0, x.1, true, x.3) u)) g.result_eq;
        holds = Represents-suc h p false g.node c g.holds;
      }
