-- ===== src/DirectByLeaf/Database.antt =====
-- direct_by_leaf/state_database.go, with the rows of sql.go and Keccak256ToCid of internal/util.go: the
-- reads of accounts, slots and code, with the two caches in front of the code. The SQL rows, the
-- caches (fastcache and lru) and the encodings are what the definitions take.
pub mod Cached
pub mod Tests
use ipld_eth_statedb.Base.{
  ℕ, Bool, ◌≡◌, ◌⊎◌, ◌||◌, Option, none, some, [], ◌∷◌, ℤ, length, if◌then◌else◌,
}
use ipld_eth_statedb.DirectByLeaf.Types.{Hash, Bytes}
use ipld_eth_statedb.DirectByLeaf.Env.{StateAccount, StateDatabase}

-- What both caches promise: a value that is found was put there, and entries may be dropped at any
-- time. A lookup may change the cache (lru moves the entry to the front).
pub record Cache (C V : Type 0) : Type 0 where
  pub fresh : C
  pub get : C → Hash → Option V × C
  pub set : C → Hash → V → C
  pub get-fresh : (k : Hash) → (get fresh k).0 ≡ none
  pub get-get :
      (c : C) (k j : Hash) → ((get (get c k).1 j).0 ≡ none) ⊎ ((get (get c k).1 j).0 ≡ (get c j).0)
  pub get-set :
      (c : C) (k j : Hash) (v : V)
      → ((get (set c k v) j).0 ≡ none)
        ⊎ (((get (set c k v) j).0 ≡ (get c j).0) ⊎ ((k ≡ j) × ((get (set c k v) j).0 ≡ some v)))

-- The rows as scanned, a string as its bytes.
pub record StateAccountResult : Type 0 where
  pub balance : Bytes
  pub nonce : ℕ
  pub code_hash : Bytes
  pub storage_root : Bytes
  pub removed : Bool

pub record StorageSlotResult : Type 0 where
  pub value : Bytes
  pub removed : Bool
  pub state_leaf_removed : Bool

-- The second part of an answer is Go's `error`, a number for which error it is.
pub record Queries : Type 0 where
  -- multihash.Encode with KECCAK_256, and cid.NewCidV1 with RawBinary as a string
  pub encode_multihash : Hash → Bytes × Option ℕ
  pub cid_v1 : Bytes → Bytes
  -- GetContractCodePgStr, GetStateAccount and GetStorageSlot
  pub contract_code_row : Bytes → Bytes × Option ℕ
  pub state_account_row : Hash → Hash → StateAccountResult × Option ℕ
  pub storage_slot_row : Hash → Hash → Hash → StorageSlotResult × Option ℕ
  -- big.Int.SetString in base 10, common.HexToHash
  pub set_string : Bytes → ℤ
  pub hex_to_hash : Bytes → Hash
  -- fmt.Errorf("cannot derive CID ...") around an error, and errNotFound
  pub cannot_derive_cid : ℕ → ℕ
  pub err_not_found : ℕ

abbrev pub cid_or_error : (Bytes → Bytes) → Bytes × Option ℕ → Bytes × Option ℕ
cid_or_error cid (buf, some e) = ([], some e)
cid_or_error cid (buf, none) = (cid buf, none)

abbrev pub keccak256_to_cid : Queries → Hash → Bytes × Option ℕ
keccak256_to_cid q h = cid_or_error q.cid_v1 (q.encode_multihash h)

abbrev pub account_of_row : Queries → StateAccountResult × Option ℕ → Option StateAccount × Option ℕ
account_of_row q (res, some e) = (none, some e)
account_of_row q (res, none) = if res.removed then (none, none) else (
  some (record {
    nonce = res.nonce;
    balance = some (q.set_string res.balance);
    root = q.hex_to_hash res.storage_root;
    code_hash = some (q.hex_to_hash res.code_hash);
  }),
  none,
)

unfoldable pub state_account : Queries → Hash → Hash → Option StateAccount × Option ℕ
state_account q address_hash block_hash =
    account_of_row q (q.state_account_row address_hash block_hash)

abbrev pub slot_of_row : StorageSlotResult × Option ℕ → Bytes × Option ℕ
slot_of_row (res, some e) = ([], some e)
slot_of_row (res, none) =
    if res.removed || res.state_leaf_removed then ([], none) else (res.value, none)

unfoldable pub storage_value : Queries → Hash → Hash → Hash → Bytes × Option ℕ
storage_value q address_hash slot_hash block_hash =
    slot_of_row (q.storage_slot_row address_hash slot_hash block_hash)

-- The caches of a stateDatabase.
pub record StateDatabaseCaches (C S : Type 0) : Type 0 where
  pub code_cache : C
  pub code_size_cache : S

abbrev pub value_or_nil : Option Bytes → Bytes
value_or_nil none = []
value_or_nil (some code) = code

-- len(code), err
abbrev pub size_of_code : Option Bytes × Option ℕ → ℕ × Option ℕ
size_of_code (code, err) = (length (value_or_nil code), err)

module _ {C S : Type 0} (codes : Cache C Bytes) (sizes : Cache S ℕ) (q : Queries) where
  unfoldable pub new_state_database : StateDatabaseCaches C S
  new_state_database = record { code_cache = codes.fresh; code_size_cache = sizes.fresh }

  abbrev pub code_of_row :
      StateDatabaseCaches C S
      → Hash
      → Bytes × Option ℕ
      → (Option Bytes × Option ℕ) × StateDatabaseCaches C S
  code_of_row s h (code, some e) = ((none, some e), s)
  code_of_row s h ([], none) = ((none, some q.err_not_found), s)
  code_of_row s h (b ∷ bs, none) = (
    (some (b ∷ bs), none),
    record {
      code_cache = codes.set s.code_cache h (b ∷ bs);
      code_size_cache = sizes.set s.code_size_cache h (length (b ∷ bs));
    },
  )

  abbrev pub code_of_cid :
      StateDatabaseCaches C S
      → Hash
      → Bytes × Option ℕ
      → (Option Bytes × Option ℕ) × StateDatabaseCaches C S
  code_of_cid s h (cid, some e) = ((none, some (q.cannot_derive_cid e)), s)
  code_of_cid s h (cid, none) = code_of_row s h (q.contract_code_row cid)

  abbrev pub cached_or_code :
      StateDatabaseCaches C S → Hash → Bytes → (Option Bytes × Option ℕ) × StateDatabaseCaches C S
  cached_or_code s h (b ∷ bs) = ((some (b ∷ bs), none), s)
  cached_or_code s h [] = code_of_cid s h (keccak256_to_cid q h)

  unfoldable pub contract_code :
      StateDatabaseCaches C S → Hash → (Option Bytes × Option ℕ) × StateDatabaseCaches C S
  contract_code s h =
      let g = codes.get s.code_cache h in
      cached_or_code (record s { code_cache = g.1 }) h (value_or_nil g.0)

  abbrev pub cached_or_size :
      StateDatabaseCaches C S → Hash → Option ℕ → (ℕ × Option ℕ) × StateDatabaseCaches C S
  cached_or_size s h (some size) = ((size, none), s)
  cached_or_size s h none = let r = contract_code s h in (size_of_code r.0, r.1)

  unfoldable pub contract_code_size :
      StateDatabaseCaches C S → Hash → (ℕ × Option ℕ) × StateDatabaseCaches C S
  contract_code_size s h =
      let g = sizes.get s.code_size_cache h in
      cached_or_size (record s { code_size_cache = g.1 }) h g.0
