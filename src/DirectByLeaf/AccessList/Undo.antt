-- ===== src/DirectByLeaf/AccessList/Undo.antt =====
-- access_list.go: the deletions that the journal makes take back the additions.
use ipld_eth_statedb.Base.{
  ℕ, ◌≡◌, ◌∙◌, ap, ap₂, refl, Bool, true, false, false≢true, Option, none, some, [], ◌∷◌, insert, ℤ,
  pos, negsuc, zero, suc, length, get_elem?, set, arith, inl, inr, ==_refl, if◌then◌else◌,
  Bool-cases, insert-insert, insert_self, delete-insert, take-append_self, get_elem?-append_self,
  set_self, set-set, get_elem?-set_self, get_elem?, subst, some_inj,
}
use ipld_eth_statedb.DirectByLeaf.Types.{Address, Hash}
use ipld_eth_statedb.DirectByLeaf.AccessList.{
  AccessList, SlotMap, slot_member, slot_remove, add_address, add_slot, delete_slot, delete_address,
  IsValid, no_slots, not_empty, delete_slot_from, delete_slot_at, add_slot_map, add_slot_at,
  add_slot_to,
}

slot_remove_absent : (h : Hash) (m : SlotMap) → slot_member h m ≡ false → slot_remove h m ≡ m
slot_remove_absent h [] e = refl
slot_remove_absent h (k ∷ m) e = ground (arith, slot_remove_absent h m)

slot_remove_head : (h : Hash) (m : SlotMap) → slot_member h m ≡ false → slot_remove h (h ∷ m) ≡ m
slot_remove_head h m e = rw (==_refl h) (slot_remove_absent h m e)

-- The journal's undoing of one AddSlot, by its two flags: the slot entry is the newer one.
abbrev pub undo_add_slot : AccessList → Address → Hash → Bool → Bool → Option AccessList
undo_add_slot al address slot addr_change slot_change =
    elim (if slot_change then delete_slot al address slot else some al) [
      | none ↦ none
      | some al' ↦ some (if addr_change then delete_address al' address else al')
    ]

-- Deleting the address where AddAddress says that it added one gives the list before.
pub undo_add_address :
    (al : AccessList) (a : Address)
    → let r = add_address al a in (if r.1 then delete_address r.0 a else r.0) ≡ al
unfolding add_address delete_address
undo_add_address al a = at_address (al.addresses a) refl
  where
    at_address :
        (o : Option ℤ)
        → al.addresses a ≡ o
        → let r : AccessList × Bool =
            (if elim o [ none ↦ false | some i ↦ true ]
              then (al, false)
              else (record al { addresses = insert al.addresses a no_slots }, true)) in
          (if r.1 then delete_address r.0 a else r.0) ≡ al
    at_address (some i) e = refl
    at_address none e =
        ap (λ m. let l : AccessList = record al { addresses = m } in l)
          (delete-insert al.addresses a no_slots e)

delete_slot_found :
    (al : AccessList) (a : Address) (h : Hash) (i : ℕ) (m : SlotMap)
    → al.addresses a ≡ some (pos i)
    → get_elem? al.slots i ≡ some m
    → delete_slot al a h ≡ some (delete_slot_from al a i (slot_remove h m))
unfolding delete_slot
delete_slot_found al a h i m e g = rw (e, delete_slot) (rw (g, delete_slot_at))

delete_slot-add_slot_map :
    (al : AccessList) (a : Address) (h : Hash)
    → delete_slot (add_slot_map al a h) a h
      ≡ some (record al { addresses = insert al.addresses a no_slots })
delete_slot-add_slot_map al a h =
    delete_slot_found (add_slot_map al a h) a h (length al.slots) (h ∷ []) (rw (==_refl a))
      (get_elem?-append_self al.slots [] (h ∷ []))
    ∙ ap (λ m. some (delete_slot_from (add_slot_map al a h) a (length al.slots) m))
        (slot_remove_head h [] refl)
    ∙ ap₂ (λ m t. some (record { addresses = m; slots = t }))
        (insert-insert al.addresses a (pos (length al.slots)) no_slots)
        (take-append_self al.slots ((h ∷ []) ∷ []))

-- Deleting a slot that was added to a slot map gives the list before.
delete_slot-add_slot_to :
    (al : AccessList) (a : Address) (h : Hash) (i : ℕ) (k : Hash) (m : SlotMap)
    → al.addresses a ≡ some (pos i)
    → get_elem? al.slots i ≡ some (k ∷ m)
    → slot_member h (k ∷ m) ≡ false
    → delete_slot (record al { slots = set al.slots i (h ∷ k ∷ m) }) a h ≡ some al
delete_slot-add_slot_to al a h i k m e g n =
    delete_slot_found (record al { slots = set al.slots i (h ∷ k ∷ m) }) a h i (h ∷ k ∷ m) e
      (get_elem?-set_self al.slots i (h ∷ k ∷ m) (k ∷ m) g)
    ∙ ap (λ t. some (delete_slot_from (record al { slots = set al.slots i (h ∷ k ∷ m) }) a i t))
        (slot_remove_head h (k ∷ m) n)
    ∙ ap (λ t. some (record al { slots = t }))
        (set-set al.slots i (h ∷ k ∷ m) (k ∷ m) ∙ set_self al.slots i (k ∷ m) g)

undo_new :
    (al : AccessList) (a : Address) (h : Hash)
    → al.addresses a ≡ none
    → undo_add_slot (add_slot_map al a h) a h true true ≡ some al
unfolding delete_address
undo_new al a h e =
    ap (λ r. elim r [ none ↦ none | some al' ↦ some (delete_address al' a) ])
      (delete_slot-add_slot_map al a h)
    ∙ ap (λ m. some (record al { addresses = m })) (delete-insert al.addresses a no_slots e)

undo_minus_one :
    (al : AccessList) (a : Address) (h : Hash)
    → al.addresses a ≡ some no_slots
    → undo_add_slot (add_slot_map al a h) a h false true ≡ some al
undo_minus_one al a h e =
    ap (λ r. elim r [ none ↦ none | some al' ↦ some al' ]) (delete_slot-add_slot_map al a h)
    ∙ ap (λ m. some (record al { addresses = m })) (insert_self al.addresses a no_slots e)

undo_to :
    (al : AccessList) (a : Address) (h : Hash) (i : ℕ) (m : SlotMap)
    → al.addresses a ≡ some (pos i)
    → get_elem? al.slots i ≡ some m
    → not_empty m ≡ true
    → (r : AccessList × Bool × Bool) → add_slot_to al h i m ≡ r
    → undo_add_slot r.0 a h r.1 r.2 ≡ some al
undo_to al a h i [] e g n r q = absurd (false≢true n)
undo_to al a h i (k ∷ m) e g n r q = elim (Bool-cases (slot_member h (k ∷ m))) [
  | inl old ↦ subst (λ t. undo_add_slot t.0 a h t.1 t.2 ≡ some al) q (rw old refl)
  | inr new ↦
      subst (λ t. undo_add_slot t.0 a h t.1 t.2 ≡ some al) q
        (rw new (
          ap (λ o. elim o [ none ↦ none | some al' ↦ some al' ])
            (delete_slot-add_slot_to al a h i k m e g new)))
]

undo_at :
    (al : AccessList) (a : Address) (h : Hash) (idx : ℤ) (r : AccessList × Bool × Bool)
    → IsValid al
    → al.addresses a ≡ some idx
    → add_slot_at al a h idx ≡ some r
    → undo_add_slot r.0 a h r.1 r.2 ≡ some al
undo_at al a h (negsuc zero) r v e q =
    subst (λ t. undo_add_slot t.0 a h t.1 t.2 ≡ some al) (some_inj q) (undo_minus_one al a h e)
undo_at al a h (negsuc (suc n)) r v e q = cc
undo_at al a h (pos i) r v e q =
    let (m, g) = v.in_range a i e in
    undo_to al a h i m e g (v.occupied i m g) r (
      some_inj
        (subst (λ o. elim o [ none ↦ none | some m ↦ some (add_slot_to al h i m) ] ≡ some r) g q))

undo_found :
    (al : AccessList) (a : Address) (h : Hash) (o : Option ℤ) (r : AccessList × Bool × Bool)
    → IsValid al
    → al.addresses a ≡ o
    → (elim o [ none ↦ some (add_slot_map al a h, true, true) | some idx ↦ add_slot_at al a h idx ])
      ≡ some r
    → undo_add_slot r.0 a h r.1 r.2 ≡ some al
undo_found al a h none r v e q =
    subst (λ t. undo_add_slot t.0 a h t.1 t.2 ≡ some al) (some_inj q) (undo_new al a h e)
undo_found al a h (some idx) r v e q = undo_at al a h idx r v e q

-- In a valid access list, what the journal does for the flags of an AddSlot takes the call back
-- whole: the addresses and the slot maps are those from before.
pub undo_add_slot-add_slot :
    (al : AccessList) (a : Address) (h : Hash) (r : AccessList × Bool × Bool)
    → IsValid al
    → add_slot al a h ≡ some r
    → undo_add_slot r.0 a h r.1 r.2 ≡ some al
unfolding add_slot
undo_add_slot-add_slot al a h r v q = undo_found al a h (al.addresses a) r v refl q
