-- ===== src/TrieByCid/Trie/Content/Writes.antt =====
-- trie.go: contents in which one key is written, below a shared key and below a branch.
use ipld_eth_statedb.Base.{
  ℕ, ◌≡◌, refl, ap, ◌∙◌, sym, Bool, true, false, Option, none, some, [], ◌∷◌, ◌++◌, ◌==◌, ==_refl,
  ==_iff, Bool-cases, ◌⊎◌, inl, inr, if◌then◌else◌, arith,
}
use ipld_eth_statedb.TrieByCid.Trie.Node.{Bytes, Nibbles}
use ipld_eth_statedb.TrieByCid.Trie.Tracer.{same, same_eq}
use ipld_eth_statedb.TrieByCid.Trie.Content.{Content, below, branch, only, write, nothing}

pub same-append : (xs ys zs : Nibbles) → same (xs ++ ys) (xs ++ zs) ≡ same ys zs
same-append [] ys zs = refl
same-append (x ∷ xs) ys zs = rw (==_refl x) (same-append xs ys zs)

-- Where the first nibbles agree the rest decides.
under_head :
    {A : Type 0} (b s : Bool) (v l r w : A)
    → (if s then v else l) ≡ r
    → (if (if b then s else false) then v else (if b then l else w)) ≡ (if b then r else w)
under_head true s v l r w h = h
under_head false s v l r w h = refl

-- A first value.
pub write-nothing :
    (key : Nibbles) (v : Bytes) (c : Content)
    → ((k : Nibbles) → c k ≡ none)
    → (k : Nibbles) → write c key (some v) k ≡ below key (only v) k
write-nothing [] v c m [] = refl
write-nothing [] v c m (y ∷ ys) = m (y ∷ ys)
write-nothing (x ∷ xs) v c m [] = m []
write-nothing (x ∷ xs) v c m (y ∷ ys) =
    ap (λ o. if (if x == y then same xs ys else false) then some v else o)
      (m (y ∷ ys) ∙ sym (if_none (x == y)))
    ∙ under_head (x == y) (same xs ys) (some v) none (below xs (only v) ys) none
        (write-nothing xs v nothing (λ k. refl) ys)
  where
    if_none : (b : Bool) → ◌≡◌ {A = Option Bytes} (if b then none else none) none
    if_none true = refl
    if_none false = refl

-- A write below a key, and a write below a nibble.
pub write-below :
    (xs rest : Nibbles) (c : Content) (v : Option Bytes) (k : Nibbles)
    → write (below xs c) (xs ++ rest) v k ≡ below xs (write c rest v) k
write-below [] rest c v k = refl
write-below (x ∷ xs) rest c v [] = refl
write-below (x ∷ xs) rest c v (y ∷ ys) =
    under_head (x == y) (same (xs ++ rest) ys) v (below xs c ys) (below xs (write c rest v) ys) none
      (write-below xs rest c v ys)

abbrev pub at_nibble : (ℕ → Content) → ℕ → Content → ℕ → Content
at_nibble cs i c j = if i == j then c else cs j

pub write-branch :
    (cs : ℕ → Content) (i : ℕ) (rest : Nibbles) (v : Option Bytes) (k : Nibbles)
    → write (branch cs) (i ∷ rest) v k ≡ branch (at_nibble cs i (write (cs i) rest v)) k
write-branch cs i rest v [] = refl
write-branch cs i rest v (y ∷ ys) = at_head (i == y) (λ e. (==_iff i y).0 e)
  where
    at_head :
        (b : Bool)
        → (b ≡ true → i ≡ y)
        → (if (if b then same rest ys else false) then v else cs y ys)
          ≡ (if b then write (cs i) rest v else cs y) ys
    at_head true e = ap (λ z. if same rest ys then v else cs z ys) (sym (e refl))
    at_head false e = refl

-- A write of a key that leaves another at a nibble.
pub write-fork :
    (pre a b : Nibbles) (i j : ℕ) (c : Content) (v : Bytes)
    → (i == j) ≡ false
    → (k : Nibbles)
    → write (below (pre ++ i ∷ a) c) (pre ++ j ∷ b) (some v) k
      ≡ below pre
          (branch (at_nibble (at_nibble (λ x. nothing) i (below a c)) j (below b (only v))))
          k
write-fork [] a b i j c v n [] = refl
write-fork [] a b i j c v n (y ∷ ys) = at_head (j == y) (i == y) refl refl
  where
    at_head :
        (s t : Bool)
        → (j == y) ≡ s
        → (i == y) ≡ t
        → (if (if s then same b ys else false) then some v else (if t then below a c ys else none))
          ≡ (if s then below b (only v) else (if t then below a c else nothing)) ys
    at_head true true p q = absurd (ground (arith, n, p, q))
    at_head true false p q = write-nothing b v nothing (λ k. refl) ys
    at_head false true p q = refl
    at_head false false p q = refl
write-fork (x ∷ xs) a b i j c v n [] = refl
write-fork (x ∷ xs) a b i j c v n (y ∷ ys) =
    under_head (x == y) (same (xs ++ j ∷ b) ys) (some v) (below (xs ++ i ∷ a) c ys) _ none
      (write-fork xs a b i j c v n ys)

-- Writing what is there changes nothing.
pub write_self :
    (c : Content) (key : Nibbles) (v : Option Bytes) (k : Nibbles)
    → c key ≡ v
    → write c key v k ≡ c k
write_self c key v k h = at_key (Bool-cases (same key k))
  where
    at_key : ((same key k) ≡ true) ⊎ ((same key k) ≡ false) → write c key v k ≡ c k
    at_key (inl e) = rw e (sym h ∙ ap c (same_eq key k e))
    at_key (inr e) = rw e refl
