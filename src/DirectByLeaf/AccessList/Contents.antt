-- ===== src/DirectByLeaf/AccessList/Contents.antt =====
-- access_list.go: the additions keep the list valid.
use ipld_eth_statedb.Base.{
  ℕ, zero, suc, ◌≡◌, ◌∙◌, ap, refl, sym, subst, Bool, true, false, Option, none, some, [], ◌∷◌,
  ◌++◌, ◌⊎◌, inl, inr, insert, has, ℤ, pos, negsuc, length, get_elem?, set, arith, ◌==◌, ==_iff,
  if◌then◌else◌, get_elem?-append_self, get_elem?-append_left, get_elem?-append_cases, get_elem?-lt,
  get_elem?-set_cases, get_elem?-set-some,
}
use ipld_eth_statedb.DirectByLeaf.Types.{Address, Hash}
use ipld_eth_statedb.DirectByLeaf.AccessList.{
  AccessList, SlotMap, slot_member, add_address, add_slot, add_slot_at, add_slot_to, add_slot_map,
  IsValid, no_slots, not_empty, new_access_list,
}

-- The empty list is valid.
pub new_access_list-IsValid : IsValid new_access_list
new_access_list-IsValid = record {
  in_range = λ a i h. absurd (cc);
  minus_one = λ a n h. absurd (cc);
  own_map = λ a b i h k. absurd (cc);
  occupied = λ i m h. absurd (cc);
}

module _ (al : AccessList) (v : IsValid al) (a : Address) where
  abbrev at : Bool → ℤ → Address → Option ℤ
  at c idx b = if c then some idx else al.addresses b

  at_minus_one_range :
      (c : Bool) (b : Address) (i : ℕ)
      → at c no_slots b ≡ some (pos i)
      → al.addresses b ≡ some (pos i)
  at_minus_one_range true b i h = absurd (cc)
  at_minus_one_range false b i h = h

  at_minus_one_negative :
      (c : Bool) (b : Address) (n : ℕ) → at c no_slots b ≡ some (negsuc n) → n ≡ 0
  at_minus_one_negative true b n h = cc
  at_minus_one_negative false b n h = v.minus_one b n h

  -- Setting an address to -1 keeps the list valid.
  pub minus_one-IsValid : IsValid (record al { addresses = insert al.addresses a no_slots })
  minus_one-IsValid = record {
    in_range = λ b i h. v.in_range b i (at_minus_one_range (a == b) b i h);
    minus_one = λ b n h. at_minus_one_negative (a == b) b n h;
    own_map = λ b c i h k.
        v.own_map b c i (at_minus_one_range (a == b) b i h) (at_minus_one_range (a == c) c i k);
    occupied = v.occupied;
  }

  at_new_cases :
      (c : Bool) (n : ℕ) (b : Address) (i : ℕ)
      → at c (pos n) b ≡ some (pos i)
      → ((c ≡ true) × (n ≡ i)) ⊎ (al.addresses b ≡ some (pos i))
  at_new_cases true n b i h = inl (refl, cc)
  at_new_cases false n b i h = inr h

  at_new_negative :
      (c : Bool) (n : ℕ) (b : Address) (k : ℕ) → at c (pos n) b ≡ some (negsuc k) → k ≡ 0
  at_new_negative true n b k h = absurd (cc)
  at_new_negative false n b k h = v.minus_one b k h

  not_yet : (b : Address) → al.addresses b ≡ some (pos (length al.slots)) → ⊥
  not_yet b h =
      let (m, g) = v.in_range b (length al.slots) h in
      omega (arith, get_elem?-lt al.slots (length al.slots) m g)

  new_in_range :
      (h : Hash) (b : Address) (i : ℕ)
      → ((a == b) ≡ true) × (length al.slots ≡ i) ⊎ (al.addresses b ≡ some (pos i))
      → (m : SlotMap) × (get_elem? (al.slots ++ (h ∷ []) ∷ []) i ≡ some m)
  new_in_range h b i (inl (e, n)) = (
    h ∷ [],
    subst (λ k. get_elem? (al.slots ++ (h ∷ []) ∷ []) k ≡ some (h ∷ [])) n
        (get_elem?-append_self al.slots [] (h ∷ [])),
  )
  new_in_range h b i (inr e) =
      let (m, g) = v.in_range b i e in (m, get_elem?-append_left al.slots ((h ∷ []) ∷ []) i m g)

  new_own_map :
      (b c : Address) (i : ℕ)
      → ((a == b) ≡ true) × (length al.slots ≡ i) ⊎ (al.addresses b ≡ some (pos i))
      → ((a == c) ≡ true) × (length al.slots ≡ i) ⊎ (al.addresses c ≡ some (pos i))
      → b ≡ c
  new_own_map b c i (inl (e, n)) (inl (f, m)) = sym ((==_iff a b).0 e) ∙ (==_iff a c).0 f
  new_own_map b c i (inl (e, n)) (inr f) =
      absurd (not_yet c (subst (λ k. al.addresses c ≡ some (pos k)) (sym n) f))
  new_own_map b c i (inr e) (inl (f, n)) =
      absurd (not_yet b (subst (λ k. al.addresses b ≡ some (pos k)) (sym n) e))
  new_own_map b c i (inr e) (inr f) = v.own_map b c i e f

  new_occupied :
      (h : Hash) (i : ℕ) (m : SlotMap)
      → (get_elem? al.slots i ≡ some m) ⊎ (h ∷ [] ≡ m)
      → not_empty m ≡ true
  new_occupied h i m (inl g) = v.occupied i m g
  new_occupied h i m (inr g) = ap not_empty (sym g)

  -- A new slot map for an address keeps the list valid.
  add_slot_map-IsValid : (h : Hash) → IsValid (add_slot_map al a h)
  add_slot_map-IsValid h = record {
    in_range = λ b i e. new_in_range h b i (at_new_cases (a == b) (length al.slots) b i e);
    minus_one = λ b k e. at_new_negative (a == b) (length al.slots) b k e;
    own_map = λ b c i e f.
        new_own_map b c i (at_new_cases (a == b) (length al.slots) b i e)
          (at_new_cases (a == c) (length al.slots) c i f);
    occupied = λ i m e. new_occupied h i m (get_elem?-append_cases al.slots (h ∷ []) i m e);
  }

  put_occupied :
      (u : SlotMap) (j : ℕ) (m : SlotMap)
      → not_empty u ≡ true
      → (get_elem? al.slots j ≡ some m) ⊎ (u ≡ m)
      → not_empty m ≡ true
  put_occupied u j m n (inl g) = v.occupied j m g
  put_occupied u j m n (inr g) = subst (λ t. not_empty t ≡ true) g n

  put-IsValid :
      (i : ℕ) (u : SlotMap) → not_empty u ≡ true → IsValid (record al { slots = set al.slots i u })
  put-IsValid i u n = record {
    in_range = λ b j e. let (m, g) = v.in_range b j e in get_elem?-set-some al.slots i j u m g;
    minus_one = v.minus_one;
    own_map = v.own_map;
    occupied = λ j m e. put_occupied u j m n (get_elem?-set_cases al.slots i j u m e);
  }

  add_slot_to-IsValid :
      (h : Hash) (i : ℕ) (m : SlotMap) (member : Bool)
      → let r : AccessList × Bool × Bool =
          if member
          then (al, false, false)
          else (record al { slots = set al.slots i (h ∷ m) }, false, true) in
        IsValid r.0
  add_slot_to-IsValid h i m true = v
  add_slot_to-IsValid h i m false = put-IsValid i (h ∷ m) refl

  -- AddAddress keeps the list valid.
  pub add_address-IsValid : IsValid (add_address al a).0
  unfolding add_address
  add_address-IsValid = added (has al.addresses a)
    where
      added :
          (c : Bool)
          → let r : AccessList × Bool =
              if c
              then (al, false)
              else (record al { addresses = insert al.addresses a no_slots }, true) in
            IsValid r.0
      added true = v
      added false = minus_one-IsValid

  abbrev pub IsValidResult : Option (AccessList × Bool × Bool) → Type 0
  IsValidResult none = ⊥
  IsValidResult (some r) = IsValid r.0

  add_slot_at-IsValid :
      (h : Hash) (idx : ℤ) → al.addresses a ≡ some idx → IsValidResult (add_slot_at al a h idx)
  add_slot_at-IsValid h (negsuc zero) e = add_slot_map-IsValid h
  add_slot_at-IsValid h (negsuc (suc n)) e = absurd (omega (arith, v.minus_one a (suc n) e))
  add_slot_at-IsValid h (pos i) e = at_found (get_elem? al.slots i) (v.in_range a i e)
    where
      at_found :
          (o : Option SlotMap)
          → (m : SlotMap) × (o ≡ some m)
          → IsValidResult (elim o [ none ↦ none | some m ↦ some (add_slot_to al h i m) ])
      at_found none (m, q) = absurd (cc)
      at_found (some m) q = add_slot_to-IsValid h i m (slot_member h m)

  -- In a valid list AddSlot does not panic, and gives a valid list.
  pub add_slot-IsValid : (h : Hash) → IsValidResult (add_slot al a h)
  unfolding add_slot
  add_slot-IsValid h = at_address (al.addresses a) refl
    where
      at_address :
          (o : Option ℤ)
          → al.addresses a ≡ o
          → IsValidResult (elim o [
            | none ↦ some (add_slot_map al a h, true, true)
            | some idx ↦ add_slot_at al a h idx
          ])
      at_address none e = add_slot_map-IsValid h
      at_address (some idx) e = add_slot_at-IsValid h idx e
