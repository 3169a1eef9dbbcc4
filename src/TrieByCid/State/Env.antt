-- ===== src/TrieByCid/State/Env.antt =====
-- What an object of trie_by_cid/state uses and does not implement: the hash function, RLP and the byte
-- conversion of go-ethereum, a snapshot, and the interfaces `Database` and `Trie` of database.go. The
-- last part of an answer is Go's `error`, a number for which error it is.
use ipld_eth_statedb.Base.{ℕ, ◌≡◌, ◌==◌, Option, none, [], if◌then◌else◌}
use ipld_eth_statedb.DirectByLeaf.Types.{Address, Hash, Bytes}

-- TryGet, TryUpdate, TryDelete, Hash and CopyTrie. A method changes the trie that it is called on.
pub record TrieMethods (T : Type 0) : Type 0 where
  pub try_get : T → Hash → (Bytes × Option ℕ) × T
  pub try_update : T → Hash → Bytes → Option ℕ × T
  pub try_delete : T → Hash → Option ℕ × T
  pub hash : T → Hash × T
  pub copy : T → T

-- Either what was asked for, or an error.
pub data OrError (A : Type 0) : Type 0 where
  ok : A → OrError A
  failed : ℕ → OrError A

pub record Env (T : Type 0) : Type 0 where
  pub tries : TrieMethods T
  pub open_storage_trie : Hash → Hash → Hash → OrError T
  pub contract_code : Hash → Option Bytes × Option ℕ
  pub contract_code_size : Hash → ℕ × Option ℕ
  -- crypto.Keccak256Hash of an address, of a slot key, and of a code
  pub keccak_address : Address → Hash
  pub keccak_key : Hash → Hash
  pub keccak_code : Bytes → Hash
  -- rlp.Split: the content and the error
  pub rlp_split : Bytes → Bytes × Option ℕ
  -- common.Hash.SetBytes
  pub bytes_to_hash : Bytes → Hash
  -- rlp.EncodeToBytes(common.TrimLeftZeroes(value[:]))
  pub encode_value : Hash → Bytes

-- What a trie holds: a blob for each slot, empty for a slot that is missing.
abbrev pub Blobs : Type 0
Blobs = Hash → Bytes

abbrev pub put : Blobs → Hash → Bytes → Blobs
put m k v j = if k == j then v else m j

-- What a storage trie promises while no node of it is missing from the database. The tries of
-- secure_trie.go keep it: see `storage_laws` of StorageTrie.
pub record TrieLaws {T : Type 0} (tries : TrieMethods T) : Type 1 where
  pub Holds : T → Blobs → Type 0
  pub get-Holds :
      (t : T) (m : Blobs) (k : Hash)
      → Holds t m
      → (t' : T) × (tries.try_get t k ≡ ((m k, none), t')) × Holds t' m
  pub update-Holds :
      (t : T) (m : Blobs) (k : Hash) (v : Bytes)
      → Holds t m
      → (t' : T) × (tries.try_update t k v ≡ (none, t')) × Holds t' (put m k v)
  pub delete-Holds :
      (t : T) (m : Blobs) (k : Hash)
      → Holds t m
      → (t' : T) × (tries.try_delete t k ≡ (none, t')) × Holds t' (put m k [])
  pub copy-Holds : (t : T) (m : Blobs) → Holds t m → Holds (tries.copy t) m
