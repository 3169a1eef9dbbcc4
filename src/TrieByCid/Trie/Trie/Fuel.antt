-- ===== src/TrieByCid/Trie/Trie/Fuel.antt =====
-- trie.go: more fuel does not change what the functions on nodes return.
use ipld_eth_statedb.Base.{
  ℕ, zero, suc, ◌+◌, ◌-◌, ◌≤◌, ◌≡◌, ap, ◌∙◌, Bool, true, false, Option, none, some, [], ◌∷◌, ◌++◌,
  ◌==◌, ltb, length, take, drop, get_elem?, arith,
}
use ipld_eth_statedb.TrieByCid.Trie.Encoding.{prefix_len}
use ipld_eth_statedb.TrieByCid.Trie.Node.{
  Bytes, Nibbles, Node, nil_node, full_node, short_node, hash_node, value_node,
}
use ipld_eth_statedb.TrieByCid.Trie.Tracer.{Tracer}
use ipld_eth_statedb.TrieByCid.Trie.Trie.{
  TrieReader, TrieError, Outcome, returns, panics, out_of_fuel, and_then, child_index,
  child_index_of, with_child, new_flag,
}
use ipld_eth_statedb.TrieByCid.Trie.Trie.Lookup.{try_get, try_get_step, get_child, Got, key_at}
use ipld_eth_statedb.TrieByCid.Trie.Trie.Insert.{
  InsertCall, Edit, insert, insert_step, insert_loaded, insert_below, branch_out, or_failed,
  if_dirty, shorten, no_children,
}
use ipld_eth_statedb.TrieByCid.Trie.Trie.Delete.{delete, delete_step, delete_loaded}

-- The left outcome is the right one, unless it ran out of fuel.
pub data Agrees {A : Type 0} : Outcome A → Outcome A → Type 0 where
  nothing_yet : {o : Outcome A} → Agrees out_of_fuel o
  same_outcome : {o : Outcome A} → Agrees o o

Agrees-and_then :
    {A B : Type 0} {o o' : Outcome A} {f f' : A → Tracer → Outcome B}
    → Agrees o o'
    → ((a : A) (t : Tracer) → Agrees (f a t) (f' a t))
    → Agrees (and_then o f) (and_then o' f')
Agrees-and_then nothing_yet g = nothing_yet
Agrees-and_then (same_outcome {o = returns a t}) g = g a t
Agrees-and_then (same_outcome {o = panics}) g = same_outcome
Agrees-and_then (same_outcome {o = out_of_fuel}) g = same_outcome

Agrees-child_index :
    {A : Type 0} (key : Nibbles) (i : ℕ) (f f' : ℕ → Outcome A)
    → ((j : ℕ) → Agrees (f j) (f' j))
    → Agrees (child_index key i f) (child_index key i f')
Agrees-child_index {A} key i f f' h = at_index (get_elem? key i)
  where
    at_test :
        (j : ℕ) (b : Bool)
        → Agrees {A = A}
            (elim b [ true ↦ f j | false ↦ panics ])
            (elim b [ true ↦ f' j | false ↦ panics ])
    at_test j true = h j
    at_test j false = same_outcome

    at_index : (o : Option ℕ) → Agrees (child_index_of o f) (child_index_of o f')
    at_index none = same_outcome
    at_index (some j) = at_test j (ltb j 17)

Agrees-elim :
    {A : Type 0} (b : Bool) (x y x' y' : Outcome A)
    → Agrees x x'
    → Agrees y y'
    → Agrees (elim b [ true ↦ x | false ↦ y ]) (elim b [ true ↦ x' | false ↦ y' ])
Agrees-elim true x y x' y' h g = h
Agrees-elim false x y x' y' h g = g

Agrees-if_dirty :
    (n : Node) (f f' : Node → Tracer → Outcome Edit) (e : Edit) (t : Tracer)
    → ((m : Node) (u : Tracer) → Agrees (f m u) (f' m u))
    → Agrees (if_dirty n f e t) (if_dirty n f' e t)
Agrees-if_dirty n f f' (true, m, none) t h = h m t
Agrees-if_dirty n f f' (true, m, some err) t h = same_outcome
Agrees-if_dirty n f f' (false, m, err) t h = same_outcome

Agrees-or_failed :
    (f f' : Node → Tracer → Outcome Edit) (e : Edit) (t : Tracer)
    → ((m : Node) (u : Tracer) → Agrees (f m u) (f' m u))
    → Agrees (or_failed f e t) (or_failed f' e t)
Agrees-or_failed f f' (d, m, none) t h = h m t
Agrees-or_failed f f' (d, m, some err) t h = same_outcome

module _ (r : TrieReader) where
  module _ (rec rec' : Node → Nibbles → ℕ → Tracer → Outcome Got)
      (agree : (n : Node) (key : Nibbles) (pos : ℕ) (t : Tracer)
        → Agrees (rec n key pos t) (rec' n key pos t)) where
    get_child-Agrees :
        (key : Nibbles) (pos : ℕ) (h : Bytes) (n : Node × Option TrieError) (u : Tracer)
        → Agrees (get_child r rec key pos h u n) (get_child r rec' key pos h u n)
    get_child-Agrees key pos h (n, none) u =
        Agrees-and_then (agree n key pos u) (λ a w. same_outcome)
    get_child-Agrees key pos h (n, some err) u = same_outcome

    try_get_step-Agrees :
        (n : Node) (key : Nibbles) (pos : ℕ) (t : Tracer)
        → Agrees (try_get_step r rec n key pos t) (try_get_step r rec' n key pos t)
    try_get_step-Agrees nil_node key pos t = same_outcome
    try_get_step-Agrees (value_node v) key pos t = same_outcome
    try_get_step-Agrees (short_node k v f) key pos t =
        Agrees-elim (key_at key pos k) _ _ _ _
          (Agrees-and_then (agree v key (pos + length k) t) (λ a u. same_outcome)) same_outcome
    try_get_step-Agrees (full_node c f) key pos t =
        Agrees-child_index key pos _ _
          (λ i. Agrees-and_then (agree (c i) key (pos + 1) t) (λ a u. same_outcome))
    try_get_step-Agrees (hash_node h) key pos t =
        Agrees-and_then same_outcome (λ n u. get_child-Agrees key pos h n u)

  pub try_get-suc :
      (f : ℕ) (n : Node) (key : Nibbles) (pos : ℕ) (t : Tracer)
      → Agrees (try_get r f n key pos t) (try_get r (suc f) n key pos t)
  unfolding try_get
  try_get-suc zero n key pos t = nothing_yet
  try_get-suc (suc f) n key pos t =
      try_get_step-Agrees (try_get r f) (try_get r (suc f)) (try_get-suc f) n key pos t

  module _ (rec rec' : Node → InsertCall)
      (agree : (v n : Node) (p k : Nibbles) (t : Tracer)
        → Agrees (rec v n p k t) (rec' v n p k t)) where
    branch_out-Agrees :
        (v n : Node) (key p k : Nibbles) (t : Tracer) (m : ℕ)
        → Agrees (branch_out r rec m key n p k v t) (branch_out r rec' m key n p k v t)
    branch_out-Agrees v n key p k t m =
        let q = p ++ take (m + 1) key in
        let q' = p ++ take (m + 1) k in
        Agrees-child_index key m _ _ (λ i. Agrees-child_index k m _ _ (λ j.
          Agrees-and_then (agree n nil_node q (drop (m + 1) key) t) (λ a u.
            Agrees-or_failed _ _ a u (λ one u'.
              Agrees-and_then
                {f = or_failed (λ two w.
                  shorten m p k
                    (full_node (with_child (with_child no_children i one) j two) new_flag) w)}
                (agree v nil_node q' (drop (m + 1) k) u') (λ b w. same_outcome)))))

    insert_loaded-Agrees :
        (v : Node) (p k : Nibbles) (n : Node × Option TrieError) (u : Tracer)
        → Agrees (insert_loaded r (rec v) p k n u) (insert_loaded r (rec' v) p k n u)
    insert_loaded-Agrees v p k (n, none) u = Agrees-and_then (agree v n p k u) (λ a w. same_outcome)
    insert_loaded-Agrees v p k (n, some err) u = same_outcome

    insert_below-Agrees :
        (v n : Node) (p k : Nibbles) (t : Tracer)
        → Agrees (insert_below r rec v n p k t) (insert_below r rec' v n p k t)
    insert_below-Agrees v (short_node key n f) p k t =
        Agrees-elim (prefix_len k key == length key) _ _ _ _
          (Agrees-and_then (agree v n (p ++ take (length key) k) (drop (length key) k) t)
            (λ a u. same_outcome))
          (branch_out-Agrees v n key p k t (prefix_len k key))
    insert_below-Agrees v (full_node c f) p k t =
        Agrees-child_index k 0 _ _
          (λ i. Agrees-and_then (agree v (c i) (p ++ i ∷ []) (drop 1 k) t) (λ a u. same_outcome))
    insert_below-Agrees v nil_node p k t = same_outcome
    insert_below-Agrees v (value_node u) p k t = same_outcome
    insert_below-Agrees v (hash_node h) p k t =
        Agrees-and_then same_outcome (insert_loaded-Agrees v p k)

    insert_step-Agrees :
        (v n : Node) (p k : Nibbles) (t : Tracer)
        → Agrees (insert_step r rec v n p k t) (insert_step r rec' v n p k t)
    insert_step-Agrees v n p [] t = same_outcome
    insert_step-Agrees v n p (x ∷ k) t = insert_below-Agrees v n p (x ∷ k) t

  pub insert-suc :
      (f : ℕ) (v n : Node) (p k : Nibbles) (t : Tracer)
      → Agrees (insert r f v n p k t) (insert r (suc f) v n p k t)
  unfolding insert
  insert-suc zero v n p k t = nothing_yet
  insert-suc (suc f) v n p k t =
      insert_step-Agrees (insert r f) (insert r (suc f)) (insert-suc f) v n p k t

  module _ (rec rec' : InsertCall)
      (agree : (n : Node) (p k : Nibbles) (t : Tracer) → Agrees (rec n p k t) (rec' n p k t)) where
    delete_loaded-Agrees :
        (p k : Nibbles) (n : Node × Option TrieError) (u : Tracer)
        → Agrees (delete_loaded r rec p k n u) (delete_loaded r rec' p k n u)
    delete_loaded-Agrees p k (n, none) u = Agrees-and_then (agree n p k u) (λ a w. same_outcome)
    delete_loaded-Agrees p k (n, some err) u = same_outcome

    delete_step-Agrees :
        (n : Node) (p k : Nibbles) (t : Tracer)
        → Agrees (delete_step r rec n p k t) (delete_step r rec' n p k t)
    delete_step-Agrees (short_node key n f) p k t =
        Agrees-elim (ltb (prefix_len k key) (length key)) _ _ _ _ same_outcome (
          Agrees-elim (prefix_len k key == length k) _ _ _ _ same_outcome (
            Agrees-and_then (agree n (p ++ take (length key) k) (drop (length key) k) t)
              (λ a u. same_outcome)))
    delete_step-Agrees (full_node c f) p k t =
        Agrees-child_index k 0 _ _
          (λ i. Agrees-and_then (agree (c i) (p ++ i ∷ []) (drop 1 k) t) (λ a u. same_outcome))
    delete_step-Agrees (value_node v) p k t = same_outcome
    delete_step-Agrees nil_node p k t = same_outcome
    delete_step-Agrees (hash_node h) p k t = Agrees-and_then same_outcome (delete_loaded-Agrees p k)

  pub delete-suc :
      (f : ℕ) (n : Node) (p k : Nibbles) (t : Tracer)
      → Agrees (delete r f n p k t) (delete r (suc f) n p k t)
  unfolding delete
  delete-suc zero n p k t = nothing_yet
  delete-suc (suc f) n p k t =
      delete_step-Agrees (delete r f) (delete r (suc f)) (delete-suc f) n p k t

Agrees-eq :
    {A : Type 0} {o o' : Outcome A} {a : A} {t : Tracer}
    → Agrees o o'
    → o ≡ returns a t
    → o' ≡ returns a t
Agrees-eq nothing_yet h = cc
Agrees-eq same_outcome h = h

Agrees-returns :
    {A : Type 0} (run : ℕ → Outcome A) (a : A) (t : Tracer)
    → ((f : ℕ) → Agrees (run f) (run (suc f)))
    → (f d : ℕ) → run f ≡ returns a t
    → run (d + f) ≡ returns a t
Agrees-returns run a t step f zero h = ap run (omega arith) ∙ h
Agrees-returns {A} run a t step f (suc d) h =
    let e : suc d + f ≡ suc (d + f) = omega arith in
    ap run e ∙ Agrees-eq (step (d + f)) (Agrees-returns run a t step f d h)

-- At least the fuel that was enough.
pub returns-le :
    {A : Type 0} (run : ℕ → Outcome A) (a : A) (t : Tracer) (h f : ℕ)
    → ((g : ℕ) → Agrees (run g) (run (suc g)))
    → h ≤ f
    → run h ≡ returns a t
    → run f ≡ returns a t
returns-le run a t h f step l e =
    let q : f ≡ (f - h) + h = omega arith in ap run q ∙ Agrees-returns run a t step h (f - h) e
