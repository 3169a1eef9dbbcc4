-- ===== src/DirectByLeaf/StateDb.antt =====
-- direct_by_leaf/statedb.go and journal.go: the state database, its journal, and its methods.
-- A live object is written back at its address by `set_state_object`: a Go pointer into the map of
-- live objects, through which a method writes. The journal keeps its entries newest first.
pub mod Access
pub mod Revert
pub mod Setters
pub mod Lifecycle
pub mod Calls
pub mod View
pub mod Rollback
pub mod Transaction
use ipld_eth_statedb.Base.{
  ℕ, ◌+◌, ◌-◌, ◌%◌, ◌^◌, Bool, Option, none, some, List, [], ◌∷◌, Map, Keys, empty_map, no_keys, ℤ,
  ◌==◌, if◌then◌else◌,
}
use ipld_eth_statedb.DirectByLeaf.Types.{Address, Hash, Bytes}
use ipld_eth_statedb.DirectByLeaf.AccessList.{AccessList, new_access_list}
use ipld_eth_statedb.DirectByLeaf.TransientStorage.{TransientStorage, new_transient_storage}
use ipld_eth_statedb.DirectByLeaf.StateObject.{StateObject, DbError}

-- types.Log: what its maker gives, and the three fields that AddLog writes.
pub record Log : Type 0 where
  pub address : Address
  pub topics : List Hash
  pub payload : Bytes
  pub tx_hash : Hash
  pub tx_index : ℕ
  pub index : ℕ

pub data JournalEntry : Type 0 where
  create_object_change : Address → JournalEntry
  reset_object_change : StateObject → Bool → JournalEntry
  suicide_change : Address → Bool → ℤ → JournalEntry
  balance_change : Address → ℤ → JournalEntry
  nonce_change : Address → ℕ → JournalEntry
  storage_change : Address → Hash → Hash → JournalEntry
  code_change : Address → Option Bytes → Hash → JournalEntry
  refund_change : ℕ → JournalEntry
  add_log_change : Hash → JournalEntry
  add_preimage_change : Hash → JournalEntry
  touch_change : Address → JournalEntry
  access_list_add_account_change : Address → JournalEntry
  access_list_add_slot_change : Address → Hash → JournalEntry
  transient_storage_change : Address → Hash → Hash → JournalEntry

pub record Journal : Type 0 where
  pub entries : List JournalEntry
  pub dirties : Map ℕ

abbrev pub new_journal : Journal
new_journal = record { entries = []; dirties = empty_map }

pub record Revision : Type 0 where
  pub id : ℕ
  pub journal_index : ℕ

pub record StateDb : Type 0 where
  pub origin_block_hash : Hash
  pub state_objects : Map StateObject
  pub state_objects_pending : Keys
  pub state_objects_dirty : Keys
  pub state_objects_destruct : Keys
  pub db_err : Option DbError
  pub refund : ℕ
  pub thash : Hash
  pub tx_index : ℕ
  pub logs : Map (List Log)
  pub log_size : ℕ
  pub preimages : Map Bytes
  pub access_list : AccessList
  pub transient_storage : TransientStorage
  pub journal : Journal
  pub valid_revisions : List Revision
  pub next_revision_id : ℕ

-- uint64 and uint
abbrev pub word : ℕ
word = 2 ^ 64

unfoldable pub new : Hash → StateDb
new block_hash = record {
  origin_block_hash = block_hash;
  state_objects = empty_map;
  state_objects_pending = no_keys;
  state_objects_dirty = no_keys;
  state_objects_destruct = no_keys;
  db_err = none;
  refund = 0;
  thash = 0;
  tx_index = 0;
  logs = empty_map;
  log_size = 0;
  preimages = empty_map;
  access_list = new_access_list;
  transient_storage = new_transient_storage;
  journal = new_journal;
  valid_revisions = [];
  next_revision_id = 0;
}
