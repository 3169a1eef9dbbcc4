-- ===== src/DirectByLeaf/AccessList.antt =====
-- direct_by_leaf/access_list.go: the addresses of the access list with an index into the slot sets
-- (-1 for none), and the slot sets. `none` is a panic: an index out of range, or an unknown address.
pub mod Undo
pub mod Contents
use ipld_eth_statedb.Base.{
  ℕ, zero, ◌≡◌, Bool, true, false, not, ◌&&◌, ◌||◌, Option, none, some, List, [], ◌∷◌, ◌++◌, Map,
  empty_map, insert, delete, has, ℤ, pos, negsuc, length, get_elem?, set, take, ◌==◌, if◌then◌else◌,
}
use ipld_eth_statedb.DirectByLeaf.Types.{Address, Hash}

-- map[common.Hash]struct{}, whose length is read: the keys, each once.
abbrev pub SlotMap : Type 0
SlotMap = List Hash

abbrev pub slot_member : Hash → SlotMap → Bool
slot_member h [] = false
slot_member h (k ∷ m) = if k == h then true else slot_member h m

abbrev pub slot_remove : Hash → SlotMap → SlotMap
slot_remove h [] = []
slot_remove h (k ∷ m) = if k == h then slot_remove h m else k ∷ slot_remove h m

abbrev pub not_empty : SlotMap → Bool
not_empty [] = false
not_empty (k ∷ m) = true

pub record AccessList : Type 0 where
  pub addresses : Map ℤ
  pub slots : List SlotMap

abbrev pub no_slots : ℤ
no_slots = negsuc 0

-- al.slots[idx]
abbrev pub slots_at : List SlotMap → ℤ → Option SlotMap
slots_at slots (pos i) = get_elem? slots i
slots_at slots (negsuc n) = none

unfoldable pub contains_address : AccessList → Address → Bool
contains_address al address = has al.addresses address

abbrev pub contains_at : AccessList → Hash → ℤ → Option (Bool × Bool)
contains_at al slot (negsuc zero) = some (true, false)
contains_at al slot idx = elim (slots_at al.slots idx) [
  | none ↦ none
  | some m ↦ some (true, slot_member slot m)
]

unfoldable pub contains : AccessList → Address → Hash → Option (Bool × Bool)
contains al address slot = elim (al.addresses address) [
  | none ↦ some (false, false)
  | some idx ↦ contains_at al slot idx
]

abbrev pub new_access_list : AccessList
new_access_list = record { addresses = empty_map; slots = [] }

copy_slots : List SlotMap → List SlotMap
copy_slots [] = []
copy_slots (m ∷ ms) = copy_slot_map m ∷ copy_slots ms
  where
    copy_slot_map : SlotMap → SlotMap
    copy_slot_map [] = []
    copy_slot_map (k ∷ rest) = k ∷ copy_slot_map rest

unfoldable pub copy : AccessList → AccessList
unfolding copy_slots
copy a = record { addresses = λ k. a.addresses k; slots = copy_slots a.slots }

unfoldable pub add_address : AccessList → Address → AccessList × Bool
add_address al address =
    if has al.addresses address
    then (al, false)
    else (record al { addresses = insert al.addresses address no_slots }, true)

-- al.addresses[address] = len(al.slots), with a new slot map at the end
abbrev pub add_slot_map : AccessList → Address → Hash → AccessList
add_slot_map al address slot = record {
  addresses = insert al.addresses address (pos (length al.slots));
  slots = al.slots ++ (slot ∷ []) ∷ [];
}

abbrev pub add_slot_to : AccessList → Hash → ℕ → SlotMap → AccessList × Bool × Bool
add_slot_to al slot i m =
    if slot_member slot m
    then (al, false, false)
    else (record al { slots = set al.slots i (slot ∷ m) }, false, true)

abbrev pub add_slot_at : AccessList → Address → Hash → ℤ → Option (AccessList × Bool × Bool)
add_slot_at al address slot (negsuc zero) = some (add_slot_map al address slot, false, true)
add_slot_at al address slot (negsuc n) = none
add_slot_at al address slot (pos i) = elim (get_elem? al.slots i) [
  | none ↦ none
  | some m ↦ some (add_slot_to al slot i m)
]

-- The new list, with the flags (address added, slot added).
unfoldable pub add_slot : AccessList → Address → Hash → Option (AccessList × Bool × Bool)
add_slot al address slot = elim (al.addresses address) [
  | none ↦ some (add_slot_map al address slot, true, true)
  | some idx ↦ add_slot_at al address slot idx
]

abbrev pub delete_slot_from : AccessList → Address → ℕ → SlotMap → AccessList
delete_slot_from al address i [] = record {
  addresses = insert al.addresses address no_slots;
  slots = take i al.slots;
}
delete_slot_from al address i (k ∷ m) = record al { slots = set al.slots i (k ∷ m) }

abbrev pub delete_slot_at : AccessList → Address → Hash → ℤ → Option AccessList
delete_slot_at al address slot (pos i) = elim (get_elem? al.slots i) [
  | none ↦ none
  | some m ↦ some (delete_slot_from al address i (slot_remove slot m))
]
delete_slot_at al address slot (negsuc n) = none

unfoldable pub delete_slot : AccessList → Address → Hash → Option AccessList
delete_slot al address slot = elim (al.addresses address) [
  | none ↦ none
  | some idx ↦ delete_slot_at al address slot idx
]

unfoldable pub delete_address : AccessList → Address → AccessList
delete_address al address = record al { addresses = delete al.addresses address }

-- Each index but -1 names a slot map of its own, and no slot map is empty.
pub record IsValid (al : AccessList) : Type 0 where
  pub in_range :
      (a : Address) (i : ℕ)
      → al.addresses a ≡ some (pos i)
      → (m : SlotMap) × (get_elem? al.slots i ≡ some m)
  pub minus_one : (a : Address) (n : ℕ) → al.addresses a ≡ some (negsuc n) → n ≡ 0
  pub own_map :
      (a b : Address) (i : ℕ)
      → al.addresses a ≡ some (pos i)
      → al.addresses b ≡ some (pos i)
      → a ≡ b
  pub occupied : (i : ℕ) (m : SlotMap) → get_elem? al.slots i ≡ some m → not_empty m ≡ true
