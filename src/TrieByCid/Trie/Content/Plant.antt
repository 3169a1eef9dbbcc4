-- ===== src/TrieByCid/Trie/Content/Plant.antt =====
-- trie.go: insert where there is no node yet, and the branch it makes where two keys part.
use ipld_eth_statedb.Base.{
  ℕ, suc, ◌+◌, ◌<◌, ◌≤◌, ◌≡◌, inl, inr, refl, ap, ap₂, ◌∙◌, sym, subst, Bool, true, false, none, [],
  ◌∷◌, ◌++◌, ◌==◌, ==_iff, if◌then◌else◌, length, take, drop, take-append_self,
  get_elem?-append_self, ltb, arith,
}
use mathlib.Core.List.{append_assoc, append-nil}
use ipld_eth_statedb.TrieByCid.Trie.Node.{
  Bytes, Nibbles, Node, nil_node, full_node, short_node, value_node,
}
use ipld_eth_statedb.TrieByCid.Trie.Tracer.{Tracer, on_insert}
use ipld_eth_statedb.TrieByCid.Trie.Trie.{
  TrieReader, Outcome, returns, panics, and_then, child_index, child_index_of, with_child, new_flag,
}
use ipld_eth_statedb.TrieByCid.Trie.Trie.Insert.{
  Edit, InsertCall, insert, branch_out, or_failed, shorten, no_children, at_end,
}
use ipld_eth_statedb.TrieByCid.Trie.Content.{
  Content, Walk, below, branch, only, nothing, Represents,
}
use ipld_eth_statedb.TrieByCid.Trie.Content.Keys.{Walk-fork}
use ipld_eth_statedb.TrieByCid.Trie.Content.Lookup.{Represents-suc}
use ipld_eth_statedb.TrieByCid.Trie.Content.Writes.{at_nibble}

-- What follows on a path that is ended or not, up to the end of a node's key.
abbrev pub Rest : Bool → Nibbles → Bool → Type 0
Rest true a e = (a ≡ []) × (e ≡ true)
Rest false a e = Walk a e

pub Rest-head : (i : ℕ) (a : Nibbles) (e : Bool) → Walk (i ∷ a) e → (i < 17) × Rest (i == 16) a e
Rest-head i a e (inl w) = (omega (arith, w.0), subst (λ b. Rest b a e) (sym (not_last i w.0)) w.1)
  where
    not_last : (j : ℕ) → j < 16 → (j == 16) ≡ false
    not_last j l = ground arith
Rest-head i a e (inr w) =
    (omega (arith, w.0), subst (λ b. Rest b a e) (sym (ap (λ j. j == 16) w.0)) (w.1, w.2))

-- A nibble that is none keeps its content.
pub outside :
    (i j : ℕ) (k : Nibbles) (c d : Content)
    → i < 17
    → 17 ≤ j
    → d k ≡ none
    → (if i == j then c else d) k ≡ none
outside i j k c d l o h = at_index (i == j) (ground arith)
  where
    at_index : (s : Bool) → s ≡ false → (if s then c else d) k ≡ none
    at_index true e = absurd (cc)
    at_index false e = h

module _ (r : TrieReader) where
  -- A node put where there was none.
  pub record Planted (h : ℕ) (q : Nibbles) (b : Bool) (a : Nibbles) (c : Content) (o : Outcome Edit)
      : Type 0 where
    pub node : Node
    pub tracer : Tracer
    pub result_eq : o ≡ returns (true, node, none) tracer
    pub holds : Represents r (suc h) q b node (below a c)

  plain_end : (n : Node) (t : Tracer) → at_end nil_node n t ≡ returns (true, n, none) t
  plain_end n t = refl

  pub insert-Planted :
      (f h : ℕ) (q : Nibbles) (b : Bool) (a : Nibbles) (e : Bool) (n : Node) (c : Content)
      (t : Tracer)
      → Rest b a e
      → Represents r h (q ++ a) e n c
      → Planted h q b a c (insert r (suc f) n nil_node q a t)
  unfolding insert
  insert-Planted f h q true [] e n c t w m = record {
    node = n;
    tracer = t;
    result_eq = refl;
    holds = Represents-suc r h q true n c (
        subst (λ l. Represents r h l true n c) (append-nil q)
          (subst (λ x. Represents r h (q ++ []) x n c) w.1 m));
  }
  insert-Planted f h q true (x ∷ a) e n c t w m = absurd (cc (w.0))
  insert-Planted f h q false [] e n c t w m = record {
    node = n;
    tracer = t;
    result_eq = refl;
    holds = Represents-suc r h q false n c (
        subst (λ l. Represents r h l false n c) (append-nil q)
          (subst (λ x. Represents r h (q ++ []) x n c) w m));
  }
  insert-Planted f h q false (x ∷ a) e n c t w m = record {
    node = short_node (x ∷ a) n new_flag;
    tracer = on_insert t q;
    result_eq = refl;
    holds = (refl, λ z. cc, e, c, w, m, λ k. refl);
  }

  -- The short node above a branch, where the two keys share nibbles.
  shortened :
      (h : ℕ) (p pre rest : Nibbles) (b : Node) (c : Content) (t : Tracer)
      → Walk pre false
      → Represents r h (p ++ pre) false b c
      → (n : Node) × (u : Tracer) × (shorten (length pre) p (pre ++ rest) b t
          ≡ returns (true, n, none) u)
        × Represents r (suc h) p false n (below pre c)
  shortened h p [] rest b c t w m = (
    b,
    t,
    refl,
    Represents-suc r h p false b c (subst (λ l. Represents r h l false b c) (append-nil p) m),
  )
  shortened h p (x ∷ xs) rest b c t w m =
      let e : take (suc (length xs)) (x ∷ (xs ++ rest)) ≡ x ∷ xs =
        ap (λ l. x ∷ l) (take-append_self xs rest) in
      (
        short_node (x ∷ xs) b new_flag,
        on_insert t (p ++ x ∷ xs),
        ap (λ l. returns (true, short_node l b new_flag, none) (on_insert t (p ++ l))) e,
        (refl, λ z. cc, false, c, w, m, λ k. refl),
      )

  pub drop-fork : (pre a : Nibbles) (i : ℕ) → drop (length pre + 1) (pre ++ i ∷ a) ≡ a
  drop-fork pre a i =
      let e : length pre + 1 ≡ suc (length pre) = omega arith in
      ap (λ n. drop n (pre ++ i ∷ a)) e ∙ dropped pre
    where
      dropped : (xs : Nibbles) → drop (suc (length xs)) (xs ++ i ∷ a) ≡ a
      dropped [] = refl
      dropped (x ∷ xs) = dropped xs

  pub take-fork : (pre a : Nibbles) (i : ℕ) → take (length pre + 1) (pre ++ i ∷ a) ≡ pre ++ i ∷ []
  take-fork pre a i =
      let e : length pre + 1 ≡ suc (length pre) = omega arith in
      ap (λ n. take n (pre ++ i ∷ a)) e ∙ taken pre
    where
      taken : (xs : Nibbles) → take (suc (length xs)) (xs ++ i ∷ a) ≡ xs ++ i ∷ []
      taken [] = refl
      taken (x ∷ xs) = ap (λ l. x ∷ l) (taken xs)

  path-fork : (p pre a : Nibbles) (i : ℕ) → ((p ++ pre) ++ i ∷ []) ++ a ≡ p ++ (pre ++ i ∷ a)
  path-fork p pre a i = append_assoc (p ++ pre) (i ∷ []) a ∙ append_assoc p pre (i ∷ a)

  in_range :
      {A : Type 0} (pre a : Nibbles) (i : ℕ) (f : ℕ → Outcome A)
      → i < 17
      → child_index (pre ++ i ∷ a) (length pre) f ≡ f i
  in_range pre a i f l =
      ap (λ o. child_index_of o f) (get_elem?-append_self pre a i)
      ∙ tested (ltb i 17) (ground arith)
    where
      tested : (b : Bool) → b ≡ true → elim b [ true ↦ f i | false ↦ panics ] ≡ f i
      tested true q = refl
      tested false q = absurd (cc)

  -- One of the two inserts below a branch: at the nibble after the shared ones.
  Planted-fork :
      (f h : ℕ) (p pre a : Nibbles) (i : ℕ) (e : Bool) (n : Node) (c : Content) (t : Tracer)
      → Walk (pre ++ i ∷ a) e
      → Represents r h (p ++ (pre ++ i ∷ a)) e n c
      → (i < 17)
        × Planted h ((p ++ pre) ++ i ∷ []) (i == 16) a c (
            insert r
              (suc f)
              n
              nil_node
              (p ++ take (length pre + 1) (pre ++ i ∷ a))
              (drop (length pre + 1) (pre ++ i ∷ a))
              t)
  Planted-fork f h p pre a i e n c t w m =
      let (l, rest) = Rest-head i a e (Walk-fork pre a i e w).1 in
      let g =
        insert-Planted f h ((p ++ pre) ++ i ∷ []) (i == 16) a e n c t rest
          (subst (λ q. Represents r h q e n c) (sym (path-fork p pre a i)) m) in
      (
        l,
        record {
          node = g.node;
          tracer = g.tracer;
          result_eq =
              ap₂ (λ q k. insert r (suc f) n nil_node q k t)
                (ap (λ k. p ++ k) (take-fork pre a i) ∙ sym (append_assoc p pre (i ∷ [])))
                (drop-fork pre a i)
              ∙ g.result_eq;
          holds = g.holds;
        },
      )

  -- The children of the branch.
  fork-Represents :
      (h : ℕ) (q : Nibbles) (i j : ℕ) (one two : Node) (c d : Content)
      → Represents r (suc h) (q ++ i ∷ []) (i == 16) one c
      → Represents r (suc h) (q ++ j ∷ []) (j == 16) two d
      → (k : ℕ)
      → Represents r
          (suc h)
          (q ++ k ∷ [])
          (k == 16)
          (with_child (with_child no_children i one) j two k)
          (at_nibble (at_nibble (λ x. nothing) i c) j d k)
  fork-Represents h q i j one two c d x y k =
      at_index (j == k) (i == k) (λ e. (==_iff j k).0 e) (λ e. (==_iff i k).0 e)
    where
      at_index :
          (s u : Bool)
          → (s ≡ true → j ≡ k)
          → (u ≡ true → i ≡ k)
          → Represents r
              (suc h)
              (q ++ k ∷ [])
              (k == 16)
              (if s then two else if u then one else nil_node)
              (if s then d else if u then c else nothing)
      at_index true u p p' =
          subst (λ l. Represents r (suc h) (q ++ l ∷ []) (l == 16) two d) (p refl) y
      at_index false true p p' =
          subst (λ l. Represents r (suc h) (q ++ l ∷ []) (l == 16) one c) (p' refl) x
      at_index false false p p' = λ l. refl

  -- branch_out, where both inserts succeed.
  fork_result :
      (rec : Node → InsertCall) (p pre a b : Nibbles) (i j : ℕ) (n value one two : Node)
      (t u w : Tracer)
      → i < 17
      → j < 17
      → rec n nil_node
          (p ++ take (length pre + 1) (pre ++ i ∷ a))
          (drop (length pre + 1) (pre ++ i ∷ a))
          t
        ≡ returns (true, one, none) u
      → rec value nil_node
          (p ++ take (length pre + 1) (pre ++ j ∷ b))
          (drop (length pre + 1) (pre ++ j ∷ b))
          u
        ≡ returns (true, two, none) w
      → branch_out r rec (length pre) (pre ++ i ∷ a) n p (pre ++ j ∷ b) value t
        ≡ shorten
            (length pre)
            p
            (pre ++ j ∷ b)
            (full_node (with_child (with_child no_children i one) j two) new_flag)
            w
  fork_result rec p pre a b i j n value one two t u w li lj x y =
      let key = pre ++ i ∷ a in
      let k = pre ++ j ∷ b in
      let m = length pre + 1 in
      let second = λ (i' j' : ℕ) (x' : Node). λ (o : Outcome Edit). and_then {B = Edit} o (
        or_failed (λ y' w'.
          shorten (length pre) p k
            (full_node (with_child (with_child no_children i' x') j' y') new_flag) w')) in
      let first = λ (i' j' : ℕ) (o : Outcome Edit).
        and_then {B = Edit} o (
          or_failed
            (λ x' u'. second i' j' x' (rec value nil_node (p ++ take m k) (drop m k) u'))) in
      in_range pre a i
        (λ i'.
          child_index k (length pre)
            (λ j'. first i' j' (rec n nil_node (p ++ take m key) (drop m key) t)))
        li
      ∙ in_range pre b j (λ j'. first i j' (rec n nil_node (p ++ take m key) (drop m key) t)) lj
      ∙ ap (first i j) x
      ∙ ap (second i j one) y

  -- The branch in place of a short node, for a key that leaves it.
  pub record Branched (h : ℕ) (p : Nibbles) (c : Content) (o : Outcome Edit) : Type 0 where
    pub node : Node
    pub tracer : Tracer
    pub result_eq : o ≡ returns (true, node, none) tracer
    pub holds : Represents r (suc (suc (suc h))) p false node c

  pub branch_out-Branched :
      (f h : ℕ) (p pre a b : Nibbles) (i j : ℕ) (e : Bool) (n : Node) (c : Content) (v : Bytes)
      (t : Tracer)
      → Walk (pre ++ i ∷ a) e
      → Walk (pre ++ j ∷ b) true
      → Represents r (suc h) (p ++ (pre ++ i ∷ a)) e n c
      → Branched
          (suc h)
          p
          (below pre
            (branch (at_nibble (at_nibble (λ x. nothing) i (below a c)) j (below b (only v)))))
          (branch_out r
            (insert r (suc f))
            (length pre)
            (pre ++ i ∷ a)
            n
            p
            (pre ++ j ∷ b)
            (value_node v)
            t)
  branch_out-Branched f h p pre a b i j e n c v t w w' m =
      let (li, one) = Planted-fork f (suc h) p pre a i e n c t w m in
      let (lj, two) =
        Planted-fork f (suc h) p pre b j true (value_node v) (only v) one.tracer w'
          (refl, λ k. refl) in
      let children = with_child (with_child no_children i one.node) j two.node in
      let cs = at_nibble (at_nibble (λ x. nothing) i (below a c)) j (below b (only v)) in
      let full : Represents r (suc (suc (suc h))) (p ++ pre) false (full_node children new_flag)
          (branch cs) =
        (
          refl,
          cs,
          λ k l.
              fork-Represents (suc h) (p ++ pre) i j one.node two.node (below a c)
                (below b (only v)) one.holds two.holds k,
          (λ k q o.
              outside j k q (below b (only v)) _ lj o
                (outside i k q (below a c) nothing li o refl)),
          λ k. refl,
        ) in
      let (node, u, s, held) =
        shortened (suc (suc (suc h))) p pre (j ∷ b) (full_node children new_flag) (branch cs)
          two.tracer (Walk-fork pre a i e w).0 full in
      record {
        node = node;
        tracer = u;
        result_eq =
            fork_result (insert r (suc f)) p pre a b i j n (value_node v) one.node two.node t
              one.tracer two.tracer li lj one.result_eq two.result_eq
            ∙ s;
        holds = held;
      }
