-- ===== src/TrieByCid/Trie/Tracer.antt =====
-- trie_by_cid/trie/tracer.go: which nodes were read, inserted and deleted since the last commit.
-- Go's maps with a path as the key are functions of the path.
use ipld_eth_statedb.Base.{
  ◌≡◌, refl, ap, ap₂, ◌∙◌, sym, fun_ext, Bool, true, false, Option, none, some, [], ◌∷◌, ◌==◌,
  ==_refl, ==_iff, if◌then◌else◌,
}
use ipld_eth_statedb.TrieByCid.Trie.Node.{Bytes, Nibbles}

abbrev pub same : Nibbles → Nibbles → Bool
same [] [] = true
same [] (y ∷ ys) = false
same (x ∷ xs) [] = false
same (x ∷ xs) (y ∷ ys) = if x == y then same xs ys else false

pub record Tracer : Type 0 where
  pub inserts : Nibbles → Bool
  pub deletes : Nibbles → Bool
  pub access_list : Nibbles → Option Bytes

abbrev pub put : {A : Type 0} → (Nibbles → A) → Nibbles → A → Nibbles → A
put m path a p = if same path p then a else m p

unfoldable pub new_tracer : Tracer
new_tracer = record { inserts = λ p. false; deletes = λ p. false; access_list = λ p. none }

unfoldable pub on_read : Tracer → Nibbles → Bytes → Tracer
on_read t path val = record t { access_list = put t.access_list path (some val) }

unfoldable pub on_insert : Tracer → Nibbles → Tracer
on_insert t path =
    if t.deletes path
    then record t { deletes = put t.deletes path false }
    else record t { inserts = put t.inserts path true }

unfoldable pub on_delete : Tracer → Nibbles → Tracer
on_delete t path =
    if t.inserts path
    then record t { inserts = put t.inserts path false }
    else record t { deletes = put t.deletes path true }

unfoldable pub reset : Tracer → Tracer
unfolding new_tracer
reset t = new_tracer

unfoldable pub copy : Tracer → Tracer
copy t = record {
  inserts = λ p. t.inserts p;
  deletes = λ p. t.deletes p;
  access_list = λ p. t.access_list p;
}

pub same_refl : (p : Nibbles) → same p p ≡ true
same_refl [] = refl
same_refl (x ∷ xs) = ap (λ c. if c then same xs xs else false) (==_refl x) ∙ same_refl xs

pub same_eq : (p q : Nibbles) → same p q ≡ true → p ≡ q
same_eq [] [] h = refl
same_eq [] (y ∷ ys) h = cc
same_eq (x ∷ xs) [] h = cc
same_eq (x ∷ xs) (y ∷ ys) h = heads (x == y) refl (same_eq xs ys) h
  where
    heads :
        (c : Bool)
        → (x == y) ≡ c
        → (same xs ys ≡ true → xs ≡ ys)
        → (if c then same xs ys else false) ≡ true
        → x ∷ xs ≡ y ∷ ys
    heads true e tails g = ap₂ (λ u l. u ∷ l) ((==_iff x y).0 e) (tails g)
    heads false e tails g = absurd (cc)

put_back :
    (m : Nibbles → Bool) (path : Nibbles) (a b : Bool) → m path ≡ b → put (put m path a) path b ≡ m
put_back m path a b h = fun_ext λ p. at_path p (same path p) refl
  where
    at_path :
        (p : Nibbles) (c : Bool) → same path p ≡ c → (if c then b else (if c then a else m p)) ≡ m p
    at_path p true e = sym h ∙ ap m (same_eq path p e)
    at_path p false e = refl

put_same : (m : Nibbles → Bool) (path : Nibbles) (a : Bool) → put m path a path ≡ a
put_same m path a = ap (λ c. if c then a else m path) (same_refl path)

-- A node that is inserted and then deleted leaves the tracer as it was, where neither was tracked.
pub on_delete-on_insert :
    (t : Tracer) (path : Nibbles)
    → t.inserts path ≡ false
    → t.deletes path ≡ false
    → on_delete (on_insert t path) path ≡ t
unfolding on_delete on_insert
on_delete-on_insert t path i d =
    ap
      (λ c.
        let u : Tracer =
          (if c
            then record t { deletes = put t.deletes path false }
            else record t { inserts = put t.inserts path true }) in
        (if u.inserts path
          then record u { inserts = put u.inserts path false }
          else record u { deletes = put u.deletes path true }))
      d
    ∙ ap
        (λ c.
          let u : Tracer = record t { inserts = put t.inserts path true } in
          let r : Tracer =
            (if c
              then record u { inserts = put u.inserts path false }
              else record u { deletes = put u.deletes path true }) in
          r)
        (put_same t.inserts path true)
    ∙ ap (λ m. let r : Tracer = record t { inserts = m } in r)
        (put_back t.inserts path true false i)

-- A node that is deleted and then inserted again leaves the tracer as it was, where neither was
-- tracked.
pub on_insert-on_delete :
    (t : Tracer) (path : Nibbles)
    → t.inserts path ≡ false
    → t.deletes path ≡ false
    → on_insert (on_delete t path) path ≡ t
unfolding on_delete on_insert
on_insert-on_delete t path i d =
    ap
      (λ c.
        let u : Tracer =
          (if c
            then record t { inserts = put t.inserts path false }
            else record t { deletes = put t.deletes path true }) in
        (if u.deletes path
          then record u { deletes = put u.deletes path false }
          else record u { inserts = put u.inserts path true }))
      i
    ∙ ap
        (λ c.
          let u : Tracer = record t { deletes = put t.deletes path true } in
          let r : Tracer =
            (if c
              then record u { deletes = put u.deletes path false }
              else record u { inserts = put u.inserts path true }) in
          r)
        (put_same t.deletes path true)
    ∙ ap (λ m. let r : Tracer = record t { deletes = m } in r)
        (put_back t.deletes path true false d)
