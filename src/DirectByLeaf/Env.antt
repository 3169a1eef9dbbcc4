-- ===== src/DirectByLeaf/Env.antt =====
-- What the package calls and does not implement: the hash function, RLP splitting and the byte
-- conversion of go-ethereum, and a `StateDatabase` (the interface of state_database.go), whose
-- answers are taken to be the same for the same arguments. The second part of an answer is Go's
-- `error`, here a number for which error it is.
use ipld_eth_statedb.Base.{ℕ, Option, ℤ}
use ipld_eth_statedb.DirectByLeaf.Types.{Address, Hash, Bytes}

-- types.StateAccount as it is read; `none` is a nil pointer or a nil slice.
pub record StateAccount : Type 0 where
  pub nonce : ℕ
  pub balance : Option ℤ
  pub root : Hash
  pub code_hash : Option Hash

pub record StateDatabase : Type 0 where
  pub contract_code : Hash → Option Bytes × Option ℕ
  pub contract_code_size : Hash → ℕ × Option ℕ
  pub state_account : Hash → Hash → Option StateAccount × Option ℕ
  pub storage_value : Hash → Hash → Hash → Bytes × Option ℕ

pub record Env : Type 0 where
  pub db : StateDatabase
  -- crypto.Keccak256Hash of an address, of a slot key, and of a code
  pub keccak_address : Address → Hash
  pub keccak_key : Hash → Hash
  pub keccak_code : Bytes → Hash
  -- rlp.Split: the content and the error
  pub rlp_split : Bytes → Bytes × Option ℕ
  -- common.Hash.SetBytes
  pub bytes_to_hash : Bytes → Hash
