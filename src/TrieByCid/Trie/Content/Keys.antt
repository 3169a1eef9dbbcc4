-- ===== src/TrieByCid/Trie/Content/Keys.antt =====
-- trie.go: keys that share a beginning, and the contents below them.
use ipld_eth_statedb.Base.{
  ℕ, suc, ◌+◌, ◌<◌, ◌≡◌, ◌⊎◌, inl, inr, refl, ap, ap₂, ◌∙◌, sym, subst, Bool, true, false, not,
  ◌||◌, none, [], ◌∷◌, ◌++◌, ◌==◌, ==_refl, ==_iff, Bool-cases, if◌then◌else◌, length, take, drop,
  length-append, ltb, arith,
}
use ipld_eth_statedb.TrieByCid.Trie.Encoding.{prefix_len}
use ipld_eth_statedb.TrieByCid.Trie.Node.{Nibbles}
use ipld_eth_statedb.TrieByCid.Trie.Tracer.{same}
use ipld_eth_statedb.TrieByCid.Trie.Trie.Lookup.{key_at}
use ipld_eth_statedb.TrieByCid.Trie.Content.{Content, Walk, KeyFrom, below}

-- A whole key against the key of a short node: it goes on below the node, or leaves it.
pub data KeyView (key k : Nibbles) : Type 0 where
  under : (rest : Nibbles) → k ≡ key ++ rest → KeyView key k
  forks :
      (pre a b : Nibbles) (i j : ℕ)
      → (i == j) ≡ false
      → key ≡ pre ++ i ∷ a
      → k ≡ pre ++ j ∷ b
      → KeyView key k

KeyView-cons : (x y : ℕ) (xs ys : Nibbles) → x ≡ y → KeyView xs ys → KeyView (x ∷ xs) (y ∷ ys)
KeyView-cons x y xs ys e (under rest h) = under rest (ap₂ (λ u l. u ∷ l) (sym e) h)
KeyView-cons x y xs ys e (forks pre a b i j n h g) =
    forks (x ∷ pre) a b i j n (ap (λ l. x ∷ l) h) (ap₂ (λ u l. u ∷ l) (sym e) g)

Walk-tail : (x : ℕ) (xs : Nibbles) → x < 16 → Walk (x ∷ xs) true → Walk xs true
Walk-tail x xs h (inl w) = w.1
Walk-tail x xs h (inr w) = absurd (omega (arith, w.0))

pub key_view : (key k : Nibbles) (e : Bool) → Walk key e → Walk k true → KeyView key k
key_view [] k e w v = under k refl
key_view (x ∷ xs) [] e w v = absurd (cc)
key_view (x ∷ xs) (y ∷ ys) e w v = at_head (Bool-cases (x == y)) w (key_view xs ys e)
  where
    at_head :
        ((x == y) ≡ true) ⊎ ((x == y) ≡ false)
        → Walk (x ∷ xs) e
        → (Walk xs e → Walk ys true → KeyView xs ys)
        → KeyView (x ∷ xs) (y ∷ ys)
    at_head (inr n) w' rec = forks [] xs ys x y n refl refl
    at_head (inl s) (inl w') rec =
        let q : x ≡ y = (==_iff x y).0 s in
        KeyView-cons x y xs ys q (rec w'.1 (Walk-tail y ys (subst (λ z. z < 16) q w'.0) v))
    at_head (inl s) (inr w') rec =
        under ys (ap₂ (λ u l. u ∷ (l ++ ys)) (sym ((==_iff x y).0 s)) (sym w'.1))

pub drop-append_self : (xs ys : Nibbles) → drop (length xs) (xs ++ ys) ≡ ys
drop-append_self [] ys = refl
drop-append_self (x ∷ xs) ys = drop-append_self xs ys

-- A key that goes on below a short node.
pub prefix_len-append : (xs ys : Nibbles) → prefix_len (xs ++ ys) xs ≡ length xs
unfolding prefix_len
prefix_len-append [] [] = refl
prefix_len-append [] (y ∷ ys) = refl
prefix_len-append (x ∷ xs) ys = rw (==_refl x) (ap suc (prefix_len-append xs ys))

pub below-append : (xs : Nibbles) (c : Content) (ys : Nibbles) → below xs c (xs ++ ys) ≡ c ys
below-append [] c ys = refl
below-append (x ∷ xs) c ys = rw (==_refl x) (below-append xs c ys)

pub KeyFrom-append :
    (xs : Nibbles) (e : Bool) (ys : Nibbles) → Walk xs e → Walk (xs ++ ys) true → KeyFrom e ys
KeyFrom-append [] true ys w v = absurd (cc)
KeyFrom-append [] false ys w v = v
KeyFrom-append (x ∷ xs) e ys (inl w) v = KeyFrom-append xs e ys w.1 (Walk-tail x (xs ++ ys) w.0 v)
KeyFrom-append (x ∷ xs) e ys (inr w) v = ended e xs w.2 w.1 v
  where
    ended :
        (d : Bool) (zs : Nibbles) → d ≡ true → zs ≡ [] → Walk (x ∷ (zs ++ ys)) true → KeyFrom d ys
    ended true [] p q (inl u) = absurd (omega (arith, w.0, u.0))
    ended true [] p q (inr u) = u.1
    ended true (z ∷ zs) p q u = absurd (cc)
    ended false zs p q u = absurd (cc)

-- A key that leaves a short node.
pub prefix_len-fork :
    (pre a b : Nibbles) (i j : ℕ)
    → (i == j) ≡ false
    → prefix_len (pre ++ j ∷ b) (pre ++ i ∷ a) ≡ length pre
unfolding prefix_len
prefix_len-fork [] a b i j n = ground arith
prefix_len-fork (x ∷ xs) a b i j n = rw (==_refl x) (ap suc (prefix_len-fork xs a b i j n))

pub below-fork :
    (pre a b : Nibbles) (i j : ℕ) (c : Content)
    → (i == j) ≡ false
    → below (pre ++ i ∷ a) c (pre ++ j ∷ b) ≡ none
below-fork [] a b i j c n = rw n refl
below-fork (x ∷ xs) a b i j c n = rw (==_refl x) (below-fork xs a b i j c n)

pub Walk-fork :
    (pre a : Nibbles) (i : ℕ) (e : Bool) → Walk (pre ++ i ∷ a) e → Walk pre false × Walk (i ∷ a) e
Walk-fork [] a i e w = (refl, w)
Walk-fork (x ∷ xs) a i e (inl w) = let (u, v) = Walk-fork xs a i e w.1 in (inl (w.0, u), v)
Walk-fork (x ∷ []) a i e (inr w) = absurd (cc)
Walk-fork (x ∷ y ∷ ys) a i e (inr w) = absurd (cc)

-- The test of tryGet.
starts : Nibbles → Nibbles → Bool
starts [] k = true
starts (x ∷ xs) [] = false
starts (x ∷ xs) (y ∷ ys) = if x == y then starts xs ys else false

fits :
    (key k : Nibbles)
    → not (ltb (length k) (length key) || not (same key (take (length key) k))) ≡ starts key k
unfolding starts
fits [] k = ground arith
fits (x ∷ xs) [] = ground arith
fits (x ∷ xs) (y ∷ ys) = ground (arith, fits xs ys)

key_at-starts : (p k key : Nibbles) → key_at (p ++ k) (length p) key ≡ starts key k
key_at-starts p k key =
    let long : ltb (length (p ++ k)) (length p + length key) ≡ ltb (length k) (length key) =
      ground (arith, length-append {0} p k) in
    ap₂ (λ t l. not (t || not (same key (take (length key) l)))) long (drop-append_self p k)
    ∙ fits key k

starts-append : (xs ys : Nibbles) → starts xs (xs ++ ys) ≡ true
unfolding starts
starts-append [] ys = refl
starts-append (x ∷ xs) ys = rw (==_refl x) (starts-append xs ys)

starts-fork :
    (pre a b : Nibbles) (i j : ℕ) → (i == j) ≡ false → starts (pre ++ i ∷ a) (pre ++ j ∷ b) ≡ false
unfolding starts
starts-fork [] a b i j n = rw n refl
starts-fork (x ∷ xs) a b i j n = rw (==_refl x) (starts-fork xs a b i j n)

pub key_at-append : (p key rest : Nibbles) → key_at (p ++ (key ++ rest)) (length p) key ≡ true
key_at-append p key rest = key_at-starts p (key ++ rest) key ∙ starts-append key rest

pub key_at-fork :
    (p pre a b : Nibbles) (i j : ℕ)
    → (i == j) ≡ false
    → key_at (p ++ (pre ++ j ∷ b)) (length p) (pre ++ i ∷ a) ≡ false
key_at-fork p pre a b i j n =
    key_at-starts p (pre ++ j ∷ b) (pre ++ i ∷ a) ∙ starts-fork pre a b i j n
