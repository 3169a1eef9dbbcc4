-- ===== src/TrieByCid/Trie/Content/Reduce.antt =====
-- trie.go: how delete brings the nodes above a deleted one to a smaller form.
use ipld_eth_statedb.Base.{
  ℕ, zero, suc, ◌+◌, ◌<◌, ◌≤◌, ◌≡◌, ◌≢◌, refl, ap, ◌∙◌, sym, subst, Bool, true, false, none, [],
  ◌∷◌, ◌++◌, ◌==◌, ==_iff, Bool-cases, inl, inr, if◌then◌else◌, ltb, arith,
}
use mathlib.Core.List.{append_assoc}
use ipld_eth_statedb.TrieByCid.Trie.Node.{
  Nibbles, Node, NodeFlag, nil_node, full_node, short_node, hash_node, value_node,
}
use ipld_eth_statedb.TrieByCid.Trie.Tracer.{Tracer, on_delete, on_read}
use ipld_eth_statedb.TrieByCid.Trie.Trie.{TrieReader, Outcome, returns, and_then, resolve, new_flag}
use ipld_eth_statedb.TrieByCid.Trie.Trie.Insert.{Edit}
use ipld_eth_statedb.TrieByCid.Trie.Trie.Delete.{
  Left, no_child, one_child, two_children, seen, children_left, joined, reduced, reduce,
}
use ipld_eth_statedb.TrieByCid.Trie.Content.{Content, Walk, below, branch, Represents}
use ipld_eth_statedb.TrieByCid.Trie.Content.Lookup.{
  Represents-congr, Represents-suc, resolve_and_track-Resolves,
}

-- What the loop over the children knows after the children before i.
abbrev pub Counted : (ℕ → Node) → ℕ → Left → Type 0
Counted c i no_child = (j : ℕ) → j < i → c j ≡ nil_node
Counted c i (one_child q) = (q < i) × ((j : ℕ) → j < i → j ≢ q → c j ≡ nil_node)
Counted c i two_children = Unit {0}

seen_empty :
    (c : ℕ → Node) (i : ℕ) (l : Left) → c i ≡ nil_node → Counted c i l → Counted c (i + 1) l
seen_empty c i no_child e h = λ j lt. elim (Bool-cases (j == i)) [
  | inl s ↦ ap c ((==_iff j i).0 s) ∙ e
  | inr s ↦ h j (ground (arith, s))
]
seen_empty c i (one_child q) e h = (
  omega (arith, h.0),
  λ j lt ne. elim (Bool-cases (j == i)) [
    | inl s ↦ ap c ((==_iff j i).0 s) ∙ e
    | inr s ↦ h.1 j (ground (arith, s)) ne
  ],
)
seen_empty c i two_children e h = tt

seen_first : (c : ℕ → Node) (i : ℕ) → Counted c i no_child → Counted c (i + 1) (one_child i)
seen_first c i h = (
  omega arith,
  λ j lt ne. elim (Bool-cases (j == i)) [
    | inl s ↦ absurd (ne ((==_iff j i).0 s))
    | inr s ↦ h j (ground (arith, s))
  ],
)

seen-Counted :
    (c : ℕ → Node) (i : ℕ) (l : Left) (n : Node)
    → c i ≡ n
    → Counted c i l
    → Counted c (i + 1) (seen n i l)
seen-Counted c i l nil_node e h = seen_empty c i l e h
seen-Counted c i no_child (full_node d f) e h = seen_first c i h
seen-Counted c i no_child (short_node k v f) e h = seen_first c i h
seen-Counted c i no_child (hash_node b) e h = seen_first c i h
seen-Counted c i no_child (value_node v) e h = seen_first c i h
seen-Counted c i (one_child q) (full_node d f) e h = tt
seen-Counted c i (one_child q) (short_node k v f) e h = tt
seen-Counted c i (one_child q) (hash_node b) e h = tt
seen-Counted c i (one_child q) (value_node v) e h = tt
seen-Counted c i two_children (full_node d f) e h = tt
seen-Counted c i two_children (short_node k v f) e h = tt
seen-Counted c i two_children (hash_node b) e h = tt
seen-Counted c i two_children (value_node v) e h = tt

-- The loop over the children finds the only one, where one is left.
pub children_left-Counted :
    (c : ℕ → Node) (count i : ℕ) (l : Left)
    → Counted c i l
    → Counted c (i + count) (children_left c count i l)
unfolding children_left
children_left-Counted c zero i l h = subst (λ k. Counted c k l) (omega arith) h
children_left-Counted c (suc count) i l h =
    let e : (i + 1) + count ≡ i + suc count = omega arith in
    subst (λ k. Counted c k (children_left c count (i + 1) (seen (c i) i l))) e
      (children_left-Counted c count (i + 1) (seen (c i) i l) (seen-Counted c i l (c i) refl h))

pub below-nothing :
    (xs : Nibbles) (c : Content)
    → ((k : Nibbles) → c k ≡ none)
    → (k : Nibbles) → below xs c k ≡ none
below-nothing [] c h k = h k
below-nothing (x ∷ xs) c h [] = refl
below-nothing (x ∷ xs) c h (y ∷ ys) = tested (x == y) (below-nothing xs c h ys)
  where
    tested : (b : Bool) → (below xs c ys ≡ none) → (if b then below xs c ys else none) ≡ none
    tested true e = e
    tested false e = refl

below-below :
    (xs ys : Nibbles) (c : Content) (k : Nibbles) → below xs (below ys c) k ≡ below (xs ++ ys) c k
below-below [] ys c k = refl
below-below (x ∷ xs) ys c [] = refl
below-below (x ∷ xs) ys c (z ∷ zs) = ap (λ o. if x == z then o else none) (below-below xs ys c zs)

Walk-append : (xs ys : Nibbles) (e : Bool) → Walk xs false → Walk ys e → Walk (xs ++ ys) e
Walk-append [] ys e w v = v
Walk-append (x ∷ xs) ys e (inl w) v = inl (w.0, Walk-append xs ys e w.1 v)
Walk-append (x ∷ xs) ys e (inr w) v = absurd (cc)

module _ (r : TrieReader) where
  -- A step that returns a node with a content.
  pub record Holds (h : ℕ) (p : Nibbles) (c : Content) (o : Outcome Edit) : Type 0 where
    pub node : Node
    pub tracer : Tracer
    pub result_eq : o ≡ returns (true, node, none) tracer
    pub holds : Represents r h p false node c

  -- A short node below a key becomes one short node.
  merged :
      (h : ℕ) (p key ck : Nibbles) (cv : Node) (cf : NodeFlag) (c : Content)
      → Walk key false
      → key ≢ []
      → Represents r h (p ++ key) false (short_node ck cv cf) c
      → Represents r h p false (short_node (key ++ ck) cv new_flag) (below key c)
  merged zero p key ck cv cf c w ne m = absurd m
  merged (suc h) p key ck cv cf c w ne (q, ne', e', c', s, m, eq) = (
    refl,
    not_empty key ne,
    e',
    c',
    Walk-append key ck e' w s,
    subst (λ l. Represents r h l e' cv c') (append_assoc p key ck) m,
    λ k. same_below key k ∙ below-below key ck c' k,
  )
    where
      not_empty : (l : Nibbles) → l ≢ [] → (l ++ ck) ≢ []
      not_empty [] n = absurd (n refl)
      not_empty (x ∷ xs) n = λ z. cc

      same_below : (l k : Nibbles) → below l c k ≡ below l (below ck c') k
      same_below [] k = eq k
      same_below (x ∷ xs) [] = refl
      same_below (x ∷ xs) (y ∷ ys) = ap (λ o. if x == y then o else none) (same_below xs ys)

  -- A short node with what is left below it.
  pub joined-Holds :
      (h : ℕ) (p key : Nibbles) (n : Node) (c : Content) (t : Tracer)
      → Walk key false
      → key ≢ []
      → Represents r h (p ++ key) false n c
      → Holds (suc h) p (below key c) (joined p key n t)
  joined-Holds h p key (short_node ck cv cf) c t w ne m = record {
    node = short_node (key ++ ck) cv new_flag;
    tracer = on_delete t (p ++ key);
    result_eq = refl;
    holds =
        Represents-suc r h p false (short_node (key ++ ck) cv new_flag) (below key c)
          (merged h p key ck cv cf c w ne m);
  }
  joined-Holds h p key nil_node c t w ne m = record {
    node = short_node key nil_node new_flag;
    tracer = t;
    result_eq = refl;
    holds = (refl, ne, false, c, w, m, λ k. refl);
  }
  joined-Holds h p key (full_node d f) c t w ne m = record {
    node = short_node key (full_node d f) new_flag;
    tracer = t;
    result_eq = refl;
    holds = (refl, ne, false, c, w, m, λ k. refl);
  }
  joined-Holds h p key (hash_node b) c t w ne m = record {
    node = short_node key (hash_node b) new_flag;
    tracer = t;
    result_eq = refl;
    holds = (refl, ne, false, c, w, m, λ k. refl);
  }
  joined-Holds h p key (value_node v) c t w ne m = record {
    node = short_node key (value_node v) new_flag;
    tracer = t;
    result_eq = refl;
    holds = (refl, ne, false, c, w, m, λ k. refl);
  }

  kept_child :
      (h : ℕ) (p : Nibbles) (pos : ℕ) (child : Node) (c : Content) (t : Tracer)
      → pos < 16
      → Represents r h (p ++ pos ∷ []) false child c
      → Holds
          (suc h)
          p
          (below (pos ∷ []) c)
          (returns (true, short_node (pos ∷ []) child new_flag, none) t)
  kept_child h p pos child c t l m = record {
    node = short_node (pos ∷ []) child new_flag;
    tracer = t;
    result_eq = refl;
    holds = (refl, (λ z. cc), false, c, inl (l, refl), m, λ k. refl);
  }

  -- The only child that is left, loaded as `n`.
  loaded-Holds :
      (h : ℕ) (p : Nibbles) (pos : ℕ) (n child : Node) (c : Content) (t : Tracer)
      → pos < 16
      → Represents r h (p ++ pos ∷ []) false n c
      → Represents r h (p ++ pos ∷ []) false child c
      → Holds (suc h) p (below (pos ∷ []) c) (reduced p pos child (n, none) t)
  loaded-Holds h p pos (short_node ck cv cf) child c t l m m' = record {
    node = short_node (pos ∷ ck) cv new_flag;
    tracer = on_delete t (p ++ pos ∷ []);
    result_eq = refl;
    holds =
        Represents-suc r h p false (short_node (pos ∷ ck) cv new_flag) (below (pos ∷ []) c)
          (merged h p (pos ∷ []) ck cv cf c (inl (l, refl)) (λ z. cc) m);
  }
  loaded-Holds h p pos nil_node child c t l m m' = kept_child h p pos child c t l m'
  loaded-Holds h p pos (full_node d f) child c t l m m' = kept_child h p pos child c t l m'
  loaded-Holds h p pos (hash_node b) child c t l m m' = kept_child h p pos child c t l m'
  loaded-Holds h p pos (value_node v) child c t l m m' = kept_child h p pos child c t l m'

  resolved-Holds :
      (h : ℕ) (p : Nibbles) (pos : ℕ) (n : Node) (c : Content) (t : Tracer)
      → pos < 16
      → Represents r h (p ++ pos ∷ []) false n c
      → Holds
          (suc h)
          p
          (below (pos ∷ []) c)
          (and_then (resolve r n (p ++ pos ∷ []) t) (reduced p pos n))
  unfolding resolve
  resolved-Holds h p pos nil_node c t l m = loaded-Holds h p pos nil_node nil_node c t l m m
  resolved-Holds h p pos (full_node d f) c t l m =
      loaded-Holds h p pos (full_node d f) (full_node d f) c t l m m
  resolved-Holds h p pos (short_node k v f) c t l m =
      loaded-Holds h p pos (short_node k v f) (short_node k v f) c t l m m
  resolved-Holds h p pos (value_node v) c t l m =
      loaded-Holds h p pos (value_node v) (value_node v) c t l m m
  resolved-Holds zero p pos (hash_node hash) c t l m = absurd m
  resolved-Holds (suc h) p pos (hash_node hash) c t l (q, n, s, m) =
      let q' = p ++ pos ∷ [] in
      let u = on_read t q' s.blob in
      let g =
        loaded-Holds (suc h) p pos n (hash_node hash) c u l (Represents-suc r h q' false n c m)
          (q, n, s, m) in
      record {
        node = g.node;
        tracer = g.tracer;
        result_eq =
            ap (λ o. and_then o (reduced p pos (hash_node hash)))
              (resolve_and_track-Resolves r q' hash n t s)
            ∙ g.result_eq;
        holds = g.holds;
      }

  only_content :
      (h : ℕ) (p : Nibbles) (c : ℕ → Node) (cs : ℕ → Content) (pos : ℕ)
      → ((i : ℕ) → i < 17 → Represents r h (p ++ i ∷ []) (i == 16) (c i) (cs i))
      → ((i : ℕ) (k : Nibbles) → 17 ≤ i → cs i k ≡ none)
      → ((j : ℕ) → j < 17 → j ≢ pos → c j ≡ nil_node)
      → (k : Nibbles) → branch cs k ≡ below (pos ∷ []) (cs pos) k
  only_content h p c cs pos m out others [] = refl
  only_content h p c cs pos m out others (y ∷ ys) = at_head (pos == y) refl
    where
      emptied :
          (h' : ℕ) (q : Nibbles) (b : Bool) → Represents r h' q b nil_node (cs y) → cs y ys ≡ none
      emptied zero q b m' = absurd m'
      emptied (suc h') q b m' = m' ys

      at_head : (s : Bool) → (pos == y) ≡ s → cs y ys ≡ (if s then cs pos ys else none)
      at_head true e = ap (λ z. cs z ys) (sym ((==_iff pos y).0 e))
      at_head false e = elim (Bool-cases (ltb y 17)) [
        | inl l ↦
            let lt : y < 17 = ground (arith, l) in
            let ne : y ≢ pos = (λ z. ground (arith, e, z)) in
            emptied h (p ++ y ∷ []) (y == 16) (
              subst (λ n. Represents r h (p ++ y ∷ []) (y == 16) n (cs y)) (others y lt ne)
                (m y lt))
        | inr l ↦ out y ys (ground (arith, l))
      ]

  -- The full node that lost a child.
  pub reduce-Holds :
      (h : ℕ) (p : Nibbles) (c : ℕ → Node) (cs : ℕ → Content) (l : Left) (t : Tracer)
      → ((i : ℕ) → i < 17 → Represents r h (p ++ i ∷ []) (i == 16) (c i) (cs i))
      → ((i : ℕ) (k : Nibbles) → 17 ≤ i → cs i k ≡ none)
      → Counted c 17 l
      → Holds (suc h) p (branch cs) (reduce r c p l t)
  reduce-Holds h p c cs no_child t m out n = record {
    node = full_node c new_flag;
    tracer = t;
    result_eq = refl;
    holds = (refl, cs, m, out, λ k. refl);
  }
  reduce-Holds h p c cs two_children t m out n = record {
    node = full_node c new_flag;
    tracer = t;
    result_eq = refl;
    holds = (refl, cs, m, out, λ k. refl);
  }
  reduce-Holds h p c cs (one_child pos) t m out (lt, others) = at_last (pos == 16) refl (m pos lt)
    where
      content : (k : Nibbles) → branch cs k ≡ below (pos ∷ []) (cs pos) k
      content = only_content h p c cs pos m out others

      at_last :
          (b : Bool)
          → (pos == 16) ≡ b
          → Represents r h (p ++ pos ∷ []) b (c pos) (cs pos)
          → Holds (suc h) p (branch cs) (elim b [
            | true ↦ returns (true, short_node (pos ∷ []) (c pos) new_flag, none) t
            | false ↦ and_then (resolve r (c pos) (p ++ pos ∷ []) t) (reduced p pos (c pos))
          ])
      at_last true e m' = record {
        node = short_node (pos ∷ []) (c pos) new_flag;
        tracer = t;
        result_eq = refl;
        holds = (refl, (λ z. cc), true, cs pos, inr ((==_iff pos 16).0 e, refl, refl), m', content);
      }
      at_last false e m' =
          let g = resolved-Holds h p pos (c pos) (cs pos) t (ground (arith, e, lt)) m' in
          record {
            node = g.node;
            tracer = g.tracer;
            result_eq = g.result_eq;
            holds = Represents-congr r (suc h) p false g.node _ (branch cs) content g.holds;
          }
