-- ===== src/DirectByLeaf/TransientStorage.antt =====
-- direct_by_leaf/transient_storage.go: storage by address that lasts for one transaction.
use ipld_eth_statedb.Base.{
  ◌≡◌, Option, none, some, Bool, false, ◌&&◌, Map, empty_map, insert, get_or, ◌==◌, if◌then◌else◌,
  ap, ==_iff, or_zero-if, true, refl, fun_ext,
}
use ipld_eth_statedb.DirectByLeaf.Types.{Address, Hash, Storage, zero_hash}

abbrev pub TransientStorage : Type 0
TransientStorage = Map Storage

abbrev pub new_transient_storage : TransientStorage
new_transient_storage = empty_map

-- The inner map of an address, made where it is missing.
abbrev pub made : Option Storage → Storage
made none = empty_map
made (some val) = val

abbrev pub read : Option Storage → Hash → Hash
read none key = zero_hash
read (some val) key = get_or val key zero_hash

unfoldable pub set : TransientStorage → Address → Hash → Hash → TransientStorage
set t addr key value = insert t addr (insert (made (t addr)) key value)

unfoldable pub get : TransientStorage → Address → Hash → Hash
get t addr key = read (t addr) key

unfoldable pub copy : TransientStorage → TransientStorage
copy t addr = elim (t addr) [ none ↦ none | some val ↦ some (λ key. val key) ]

read-insert :
    (m : Storage) (k j v : Hash)
    → read (some (insert m k v)) j ≡ (if k == j then v else read (some m) j)
read-insert m k j v = or_zero-if (k == j) (m j) v zero_hash

read_write :
    (same : Bool) (old here : Option Storage) (k j v : Hash)
    → (same ≡ true → old ≡ here)
    → read (if same then some (insert (made old) k v) else here) j
      ≡ (if same && (k == j) then v else read here j)
read_write false old here k j v h = refl
read_write true old none k j v h = rw (h refl) (read-insert empty_map k j v)
read_write true old (some m) k j v h = rw (h refl) (read-insert m k j v)

-- A read after a write gives the written value at its address and key, and what was there elsewhere.
pub get-set :
    (t : TransientStorage) (a b : Address) (k j v : Hash)
    → get (set t a k v) b j ≡ (if (a == b) && (k == j) then v else get t b j)
unfolding get set
get-set t a b k j v = read_write (a == b) (t a) (t b) k j v (λ e. ap t ((==_iff a b).0 e))

copied : (o : Option Storage) → (elim o [ none ↦ none | some val ↦ some (λ key. val key) ]) ≡ o
copied none = refl
copied (some val) = refl

pub copy_lem : (t : TransientStorage) → copy t ≡ t
unfolding copy
copy_lem t = fun_ext λ a. copied (t a)
