-- ===== src/DirectByLeaf/StateDb/Transaction/Prepare.antt =====
-- statedb.go: Prepare fills the access list of a transaction.
use ipld_eth_statedb.Base.{
  ℕ, ◌≡◌, refl, ap, Bool, true, false, Option, none, some, ◌∷◌, has, ◌==◌, ==_refl, if◌then◌else◌,
  ℤ, pos, negsuc, zero, suc, insert, set, get_elem?,
}
use ipld_eth_statedb.DirectByLeaf.Types.{Address, Hash}
use ipld_eth_statedb.DirectByLeaf.AccessList.{
  AccessList, IsValid, add_address, add_slot, add_slot_at, add_slot_to, add_slot_map, no_slots,
  SlotMap, slot_member,
}
use ipld_eth_statedb.DirectByLeaf.AccessList.Contents.{
  add_address-IsValid, add_slot-IsValid, IsValidResult,
}
use ipld_eth_statedb.DirectByLeaf.StateDb.Lifecycle.{with_address}
use ipld_eth_statedb.Base.{List, [], false, ◌∙◌}
use ipld_eth_statedb.DirectByLeaf.AccessList.{new_access_list}
use ipld_eth_statedb.DirectByLeaf.TransientStorage.{new_transient_storage}
use ipld_eth_statedb.DirectByLeaf.AccessList.Contents.{new_access_list-IsValid}
use ipld_eth_statedb.DirectByLeaf.StateDb.Lifecycle.{
  Rules, AccessTuple, with_addresses, with_destination, with_slots, with_tuples, berlin_access_list,
  prepare,
}
use ipld_eth_statedb.DirectByLeaf.StateDb.{StateDb}

-- A valid list with the addresses of another.
pub record Grows (al al' : AccessList) : Type 0 where
  pub valid : IsValid al'
  pub keeps : (b : Address) → has al.addresses b ≡ true → has al'.addresses b ≡ true

Grows-trans : {a b c : AccessList} → Grows a b → Grows b c → Grows a c
Grows-trans p q = record { valid = q.valid; keeps = λ x h. q.keeps x (p.keeps x h) }

insert_keeps :
    (c : Bool) (i : ℤ) (o : Option ℤ)
    → (elim o [ none ↦ false | some x ↦ true ]) ≡ true
    → (elim (if c then some i else o) [ none ↦ false | some x ↦ true ]) ≡ true
insert_keeps true i o h = refl
insert_keeps false i o h = h

with_address-Grows : (al : AccessList) (a : Address) → IsValid al → Grows al (with_address al a)
unfolding add_address
with_address-Grows al a v = record {
  valid = add_address-IsValid al v a;
  keeps = λ b h. kept (has al.addresses a) b h;
}
  where
    kept :
        (c : Bool) (b : Address)
        → has al.addresses b ≡ true
        → let r : AccessList × Bool =
            (if c
              then (al, false)
              else (record al { addresses = insert al.addresses a no_slots }, true)) in
          has r.0.addresses b ≡ true
    kept true b h = h
    kept false b h = insert_keeps (a == b) no_slots (al.addresses b) h

-- AddAddress puts the address in the list.
with_address-has : (al : AccessList) (a : Address) → has (with_address al a).addresses a ≡ true
unfolding add_address
with_address-has al a = added (al.addresses a) refl
  where
    added :
        (o : Option ℤ)
        → al.addresses a ≡ o
        → let r : AccessList × Bool =
            (if elim o [ none ↦ false | some i ↦ true ]
              then (al, false)
              else (record al { addresses = insert al.addresses a no_slots }, true)) in
          has r.0.addresses a ≡ true
    added (some i) e = ap (λ o. elim o [ none ↦ false | some x ↦ true ]) e
    added none e =
        ap
          (λ c. elim (if c then some no_slots else al.addresses a) [ none ↦ false | some x ↦ true ])
          (==_refl a)

slot_put_keeps :
    (al : AccessList) (h : Hash) (i : ℕ) (m : SlotMap) (b : Address)
    → has al.addresses b ≡ true
    → has (add_slot_to al h i m).0.addresses b ≡ true
slot_put_keeps al h i m b e = at_member (slot_member h m)
  where
    at_member :
        (c : Bool)
        → let r : AccessList × Bool × Bool =
            (if c
              then (al, false, false)
              else (record al { slots = set al.slots i (h ∷ m) }, false, true)) in
          has r.0.addresses b ≡ true
    at_member true = e
    at_member false = e

abbrev KeepsResult : AccessList → Option (AccessList × Bool × Bool) → Type 0
KeepsResult al none = Unit {0}
KeepsResult al (some r) = (b : Address) → has al.addresses b ≡ true → has r.0.addresses b ≡ true

found_keeps :
    (al : AccessList) (h : Hash) (i : ℕ) (o : Option SlotMap)
    → KeepsResult al (elim o [ none ↦ none | some m ↦ some (add_slot_to al h i m) ])
found_keeps al h i none = tt
found_keeps al h i (some m) = slot_put_keeps al h i m

add_slot_keeps :
    (al : AccessList) (a : Address) (h : Hash) (o : Option ℤ)
    → KeepsResult al (elim o [
      | none ↦ some (add_slot_map al a h, true, true)
      | some idx ↦ add_slot_at al a h idx
    ])
add_slot_keeps al a h none = λ b e. insert_keeps (a == b) _ (al.addresses b) e
add_slot_keeps al a h (some (negsuc zero)) = λ b e. insert_keeps (a == b) _ (al.addresses b) e
add_slot_keeps al a h (some (negsuc (suc n))) = tt
add_slot_keeps al a h (some (pos i)) = found_keeps al h i (get_elem? al.slots i)

-- One more slot: no panic, and nothing is lost.
add_slot-Grows :
    (al : AccessList) (a : Address) (h : Hash)
    → IsValid al
    → (r : AccessList × Bool × Bool) × (add_slot al a h ≡ some r) × Grows al r.0
unfolding add_slot
add_slot-Grows al a h v =
    result (add_slot al a h) (add_slot-IsValid al v a h) (add_slot_keeps al a h (al.addresses a))
      refl
  where
    result :
        (o : Option (AccessList × Bool × Bool))
        → IsValidResult al v a o
        → KeepsResult al o
        → add_slot al a h ≡ o
        → (r : AccessList × Bool × Bool) × (add_slot al a h ≡ some r) × Grows al r.0
    result none w k e = absurd w
    result (some r) w k e = (r, e, record { valid = w; keeps = k })

Grows-refl : (al : AccessList) → IsValid al → Grows al al
Grows-refl al v = record { valid = v; keeps = λ b h. h }

with_slots-Grows :
    (al : AccessList) (a : Address) (keys : List Hash)
    → IsValid al
    → (r : AccessList) × (with_slots al a keys ≡ some r) × Grows al r
unfolding with_slots
with_slots-Grows al a [] v = (al, refl, Grows-refl al v)
with_slots-Grows al a (key ∷ keys) v =
    let (r, e, g) = add_slot-Grows al a key v in
    let (r', e', g') = with_slots-Grows r.0 a keys g.valid in
    (
      r',
      ap (λ o. elim o [ none ↦ none | some (al', addr_mod, slot_mod) ↦ with_slots al' a keys ]) e
          ∙ e',
      Grows-trans g g',
    )

-- Every address of the list is in the access list.
abbrev pub AllIn : AccessList → List Address → Type 0
AllIn al [] = Unit {0}
AllIn al (a ∷ rest) = (has al.addresses a ≡ true) × AllIn al rest

AllIn-Grows : {al al' : AccessList} → Grows al al' → (l : List Address) → AllIn al l → AllIn al' l
AllIn-Grows g [] h = tt
AllIn-Grows g (a ∷ rest) h = (g.keeps a h.0, AllIn-Grows g rest h.1)

with_addresses-Grows :
    (al : AccessList) (l : List Address)
    → IsValid al
    → Grows al (with_addresses al l) × AllIn (with_addresses al l) l
unfolding with_addresses
with_addresses-Grows al [] v = (Grows-refl al v, tt)
with_addresses-Grows al (a ∷ rest) v =
    let g = with_address-Grows al a v in
    let (g', h) = with_addresses-Grows (with_address al a) rest g.valid in
    (Grows-trans g g', (g'.keeps a (with_address-has al a), h))

abbrev pub tuple_addresses : List AccessTuple → List Address
tuple_addresses [] = []
tuple_addresses (el ∷ rest) = el.address ∷ tuple_addresses rest

with_tuples-Grows :
    (al : AccessList) (l : List AccessTuple)
    → IsValid al
    → (r : AccessList) × (with_tuples al l ≡ some r) × Grows al r × AllIn r (tuple_addresses l)
unfolding with_tuples
with_tuples-Grows al [] v = (al, refl, Grows-refl al v, tt)
with_tuples-Grows al (el ∷ rest) v =
    let g = with_address-Grows al el.address v in
    let (r, e, s) =
      with_slots-Grows (with_address al el.address) el.address el.storage_keys g.valid in
    let (r', e', t, h) = with_tuples-Grows r rest s.valid in
    (
      r',
      ap (λ o. elim o [ none ↦ none | some al' ↦ with_tuples al' rest ]) e ∙ e',
      Grows-trans g (Grows-trans s t),
      ((Grows-trans s t).keeps el.address (with_address-has al el.address), h),
    )

with_destination-Grows :
    (al : AccessList) (dst : Option Address) → IsValid al → Grows al (with_destination al dst)
with_destination-Grows al none v = Grows-refl al v
with_destination-Grows al (some a) v = with_address-Grows al a v

coinbase-Grows :
    (c : Bool) (al : AccessList) (a : Address)
    → IsValid al
    → Grows al (if c then with_address al a else al)
coinbase-Grows true al a v = with_address-Grows al a v
coinbase-Grows false al a v = Grows-refl al v

abbrev prepared : StateDb → Option AccessList → Option StateDb
prepared s made = elim made [
  | none ↦ none
  | some al ↦ some (record s { access_list = al; transient_storage = new_transient_storage })
]

-- The access list after Prepare under Berlin.
pub record Warms (sender : Address) (precompiles : List Address) (list : List AccessTuple)
    (t : StateDb) : Type 0 where
  pub valid : IsValid t.access_list
  pub sender_in : has t.access_list.addresses sender ≡ true
  pub precompiles_in : AllIn t.access_list precompiles
  pub tuples_in : AllIn t.access_list (tuple_addresses list)
  pub no_transient : t.transient_storage ≡ new_transient_storage

-- Under Berlin, from any state, Prepare does not panic, and the access list that it makes is valid
-- and holds the sender, each precompile and the address of each tuple; the transient storage is empty.
pub prepare-Warms :
    (s : StateDb) (rules : Rules) (sender coinbase : Address) (dst : Option Address)
    (precompiles : List Address) (list : List AccessTuple)
    → rules.is_berlin ≡ true
    → (t : StateDb) × (prepare s rules sender coinbase dst precompiles list ≡ some t)
      × Warms sender precompiles list t
unfolding prepare berlin_access_list
prepare-Warms s rules sender coinbase dst precompiles list b =
    let first = with_address new_access_list sender in
    let second = with_destination first dst in
    let third = with_addresses second precompiles in
    let g1 = with_address-Grows new_access_list sender new_access_list-IsValid in
    let g2 = with_destination-Grows first dst g1.valid in
    let (g3, ps) = with_addresses-Grows second precompiles g2.valid in
    let (fourth, e, g4, ts) = with_tuples-Grows third list g3.valid in
    let g5 = coinbase-Grows rules.is_shanghai fourth coinbase g4.valid in
    (
      record s {
        access_list = if rules.is_shanghai then with_address fourth coinbase else fourth;
        transient_storage = new_transient_storage;
      },
      ap
            (λ c.
              let made : Option AccessList =
                (if c
                  then berlin_access_list rules.is_shanghai sender coinbase dst precompiles list
                  else some s.access_list) in
              prepared s made)
            b
          ∙ ap
              (λ o.
                let made : Option AccessList = elim o [
                  | none ↦ none
                  | some al' ↦ some (if rules.is_shanghai then with_address al' coinbase else al')
                ] in
                prepared s made)
              e,
      record {
        valid = g5.valid;
        sender_in =
            (Grows-trans g2 (Grows-trans g3 (Grows-trans g4 g5))).keeps sender
              (with_address-has new_access_list sender);
        precompiles_in = AllIn-Grows (Grows-trans g4 g5) precompiles ps;
        tuples_in = AllIn-Grows g5 (tuple_addresses list) ts;
        no_transient = refl;
      },
    )
