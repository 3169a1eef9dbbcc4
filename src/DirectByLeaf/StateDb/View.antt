-- ===== src/DirectByLeaf/StateDb/View.antt =====
-- What a caller can read of the state database: the specification that the caches, the live objects
-- and the journal implement. Loading an account, a slot or a code leaves the view as it is.
pub mod Objects
pub mod Find
pub mod Undo
pub mod Getters
use ipld_eth_statedb.Base.{
  ℕ, Bool, Option, none, some, List, Map, ◌==◌, if◌then◌else◌, length, or_zero,
}
use ipld_eth_statedb.DirectByLeaf.Types.{Address, Hash, Bytes, Storage, zero_hash}
use ipld_eth_statedb.DirectByLeaf.Env.{Env, StateAccount}
use ipld_eth_statedb.DirectByLeaf.AccessList.{AccessList}
use ipld_eth_statedb.DirectByLeaf.TransientStorage
use ipld_eth_statedb.DirectByLeaf.StateObject
use ipld_eth_statedb.DirectByLeaf.StateObject.{StateObject, Account, empty_code_hash}
use ipld_eth_statedb.DirectByLeaf.StateDb.{StateDb, Log}

-- An account: `stored` and `committed` are the slots where no fake storage stands before them.
pub record AccountView : Type 0 where
  pub address : Address
  pub account : Account
  pub code : Option Bytes
  pub stored : Hash → Hash
  pub committed : Hash → Hash
  pub fake : Option Storage
  pub suicided : Bool
  pub deleted : Bool

pub record StateView : Type 0 where
  pub origin_block_hash : Hash
  pub accounts : Map AccountView
  pub refund : ℕ
  pub thash : Hash
  pub tx_index : ℕ
  pub logs : Map (List Log)
  pub log_size : ℕ
  pub preimages : Map Bytes
  pub access_list : AccessList
  pub transient : Address → Hash → Hash

abbrev pub map_option {ℓ κ} : {A : Type ℓ} {B : Type κ} → (A → B) → Option A → Option B
map_option f none = none
map_option f (some a) = some (f a)

abbrev pub bind_option {ℓ κ} : {A : Type ℓ} {B : Type κ} → Option A → (A → Option B) → Option B
bind_option none f = none
bind_option (some a) f = f a

module _ (env : Env) where
  abbrev pub slot_answer : Bytes × Option ℕ → Hash
  slot_answer (enc, some e) = zero_hash
  slot_answer (enc, none) =
      if length enc == 0 then zero_hash else env.bytes_to_hash (env.rlp_split enc).0

  abbrev pub committed_value : Hash → Hash → Option Hash → Hash → Hash
  committed_value addr_hash block_hash (some value) key = value
  committed_value addr_hash block_hash none key =
      slot_answer (env.db.storage_value addr_hash (env.keccak_key key) block_hash)

  abbrev pub code_value : Option Bytes → Hash → Option Bytes
  code_value (some code) code_hash = some code
  code_value none code_hash =
      if code_hash == empty_code_hash env then none else (env.db.contract_code code_hash).0

  abbrev pub object_view : StateObject → AccountView
  object_view o = record {
    address = o.address;
    account = o.account;
    code = code_value o.code o.account.code_hash;
    stored = λ k.
        or_zero (o.dirty_storage k)
          (committed_value o.addr_hash o.block_hash (o.origin_storage k) k);
    committed = λ k. committed_value o.addr_hash o.block_hash (o.origin_storage k) k;
    fake = o.fake_storage;
    suicided = o.suicided;
    deleted = o.deleted;
  }

  -- The object that the database gives for an address.
  abbrev pub loaded_from : Address → Hash → Option StateAccount × Option ℕ → Option StateObject
  loaded_from a block_hash (data', some e) = none
  loaded_from a block_hash (none, none) = none
  loaded_from a block_hash (some data', none) = some (StateObject.new_object env a data' block_hash)

  abbrev pub loaded : Address → Hash → Option StateObject
  loaded a block_hash =
      loaded_from a block_hash (env.db.state_account (env.keccak_address a) block_hash)

  abbrev pub found : Address → Hash → Option StateObject → Option StateObject
  found a block_hash (some obj) = some obj
  found a block_hash none = loaded a block_hash

  abbrev pub view : StateDb → StateView
  view s = record {
    origin_block_hash = s.origin_block_hash;
    accounts = λ a. map_option object_view (found a s.origin_block_hash (s.state_objects a));
    refund = s.refund;
    thash = s.thash;
    tx_index = s.tx_index;
    logs = s.logs;
    log_size = s.log_size;
    preimages = s.preimages;
    access_list = s.access_list;
    transient = λ a k. TransientStorage.get s.transient_storage a k;
  }
