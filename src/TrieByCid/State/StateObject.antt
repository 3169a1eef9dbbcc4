-- ===== src/TrieByCid/State/StateObject.antt =====
-- trie_by_cid/state/state_object.go: an account with its storage trie, and the entries of journal.go
-- that its methods append. A method that also writes to the state database takes the part of it that
-- an object uses and returns it with the object.
pub mod Slots
pub mod Stored
pub mod Reads
pub mod Writes
pub mod Order
pub mod Flush
pub mod Block
pub mod Fresh
pub mod Tests
use ipld_eth_statedb.Base.{
  ℕ, ◌+◌, Bool, true, false, ◌&&◌, Option, none, some, List, [], ◌∷◌, Map, Keys, empty_map, insert,
  get_or, ℤ, ◌+ℤ◌, ◌-ℤ◌, pos, is_zero, ◌==◌, if◌then◌else◌, length,
}
use ipld_eth_statedb.DirectByLeaf.Types.{Address, Hash, Bytes, Storage, zero_hash}
use ipld_eth_statedb.DirectByLeaf.Env.{StateAccount}
use ipld_eth_statedb.DirectByLeaf.StateObject.{Account, empty_root, or_else, merge}
use ipld_eth_statedb.TrieByCid.State.Env.{Env, TrieMethods, OrError, ok, failed}

-- The first error that was met, by what was being done.
pub data DbError : Type 0 where
  load_storage split_slot update_storage : ℕ → DbError
  load_code load_code_size : Hash → ℕ → DbError

-- The entries of the journal that name a change to an object.
pub data JournalEntry : Type 0 where
  touch_change : Address → JournalEntry
  balance_change : Address → ℤ → JournalEntry
  nonce_change : Address → ℕ → JournalEntry
  storage_change : Address → Hash → Hash → JournalEntry
  code_change : Address → Option Bytes → Hash → JournalEntry

pub record Journal : Type 0 where
  pub entries : List JournalEntry
  pub dirties : Map ℕ

-- The part of a StateDB that objects use. `snap` is the Storage method of the snapshot, `prefetcher` the
-- trie method of the prefetcher, each `none` where the pointer is nil.
pub record StateDb (T : Type 0) : Type 0 where
  pub original_root : Hash
  pub prefetcher : Option (Hash → Hash → Option T)
  pub snap : Option (Hash → Hash → Bytes × Option ℕ)
  pub snap_storage : Map (Map Bytes)
  pub state_objects_destruct : Keys
  pub db_err : Option DbError
  pub journal : Journal
  pub storage_updated : ℕ
  pub storage_deleted : ℕ

pub record StateObject (T : Type 0) : Type 0 where
  pub address : Address
  pub addr_hash : Hash
  pub account : Account
  pub trie : Option T
  pub code : Option Bytes
  pub origin_storage : Storage
  pub pending_storage : Storage
  pub dirty_storage : Storage
  pub dirty_code : Bool
  pub suicided : Bool
  pub deleted : Bool

abbrev pub ripemd : Address
ripemd = 3

abbrev pub dirty : Journal → Address → Journal
dirty j a = record j { dirties = insert j.dirties a (get_or j.dirties a 0 + 1) }

abbrev pub account_of : JournalEntry → Address
account_of (touch_change a) = a
account_of (balance_change a prev) = a
account_of (nonce_change a prev) = a
account_of (storage_change a key prev) = a
account_of (code_change a code prev) = a

-- Each of these entries dirties its account.
unfoldable pub append : Journal → JournalEntry → Journal
append j e = dirty (record j { entries = e ∷ j.entries }) (account_of e)

module _ {T : Type 0} where
  -- The first error stays.
  abbrev pub set_error : StateDb T → DbError → StateDb T
  set_error d e = record d { db_err = some (or_else d.db_err e) }

  abbrev pub note_error : StateDb T → Option ℕ → (ℕ → DbError) → StateDb T
  note_error d none wrap = d
  note_error d (some e) wrap = set_error d (wrap e)

  abbrev pub journalled : StateDb T → JournalEntry → StateDb T
  journalled d e = record d { journal = append d.journal e }

  unfoldable pub mark_suicided : StateObject T → StateObject T
  mark_suicided s = record s { suicided = true }

  unfoldable pub touch : StateObject T → StateDb T → StateDb T
  touch s d =
      let d' = journalled d (touch_change s.address) in
      if s.address == ripemd then record d' { journal = dirty d'.journal s.address } else d'

  abbrev pub set_balance_field : StateObject T → ℤ → StateObject T
  set_balance_field s amount = record s { account = record (s.account) { balance = amount } }

  unfoldable pub set_balance : StateObject T → StateDb T → ℤ → StateObject T × StateDb T
  set_balance s d amount =
      (set_balance_field s amount, journalled d (balance_change s.address s.account.balance))

  unfoldable pub sub_balance : StateObject T → StateDb T → ℤ → StateObject T × StateDb T
  sub_balance s d amount =
      if is_zero amount then (s, d) else set_balance s d (s.account.balance -ℤ amount)

  abbrev pub set_nonce_field : StateObject T → ℕ → StateObject T
  set_nonce_field s nonce = record s { account = record (s.account) { nonce = nonce } }

  unfoldable pub set_nonce : StateObject T → StateDb T → ℕ → StateObject T × StateDb T
  set_nonce s d nonce =
      (set_nonce_field s nonce, journalled d (nonce_change s.address s.account.nonce))

  abbrev pub set_code_field : StateObject T → Hash → Option Bytes → StateObject T
  set_code_field s code_hash code = record s {
    code = code;
    account = record (s.account) { code_hash = code_hash };
    dirty_code = true;
  }

  unfoldable pub set_state_field : StateObject T → Hash → Hash → StateObject T
  set_state_field s key value = record s { dirty_storage = insert s.dirty_storage key value }

  -- The prefetcher that finalise informs has a state of its own.
  unfoldable pub finalise : StateObject T → StateObject T
  finalise s = record s {
    pending_storage = merge s.pending_storage s.dirty_storage;
    dirty_storage = empty_map;
  }

  -- revert of the entries above, on the object of the account.
  unfoldable pub revert_entry : StateObject T → JournalEntry → StateObject T
  unfolding set_state_field
  revert_entry s (touch_change a) = s
  revert_entry s (balance_change a prev) = set_balance_field s prev
  revert_entry s (nonce_change a prev) = set_nonce_field s prev
  revert_entry s (storage_change a key prev) = set_state_field s key prev
  revert_entry s (code_change a code prev) = set_code_field s prev code

  abbrev pub from_prefetcher : Option (Hash → Hash → Option T) → Hash → Hash → Option T
  from_prefetcher none addr_hash root = none
  from_prefetcher (some trie) addr_hash root =
      if root == empty_root then none else trie addr_hash root

  abbrev pub opened : StateObject T → OrError T → OrError T × StateObject T
  opened s (ok t) = (ok t, record s { trie = some t })
  opened s (failed e) = (failed e, s)

module _ {T : Type 0} (env : Env T) where
  abbrev pub empty_code_hash : Hash
  empty_code_hash = env.keccak_code []

  unfoldable pub empty : StateObject T → Bool
  empty s =
      (s.account.nonce == 0)
      && (is_zero s.account.balance && (s.account.code_hash == empty_code_hash))

  unfoldable pub new_object : Address → StateAccount → StateObject T
  new_object address data' = record {
    address = address;
    addr_hash = env.keccak_address address;
    account = record {
      nonce = data'.nonce;
      balance = or_else data'.balance (pos 0);
      root = if data'.root == zero_hash then empty_root else data'.root;
      code_hash = or_else data'.code_hash empty_code_hash;
    };
    trie = none;
    code = none;
    origin_storage = empty_map;
    pending_storage = empty_map;
    dirty_storage = empty_map;
    dirty_code = false;
    suicided = false;
    deleted = false;
  }

  unfoldable pub add_balance : StateObject T → StateDb T → ℤ → StateObject T × StateDb T
  add_balance s d amount =
      if is_zero amount
      then (s, if empty s then touch s d else d)
      else set_balance s d (s.account.balance +ℤ amount)

  abbrev pub loaded_code :
      StateObject T → StateDb T → Option Bytes × Option ℕ → Option Bytes × StateObject T × StateDb T
  loaded_code s d (code, err) =
      (code, record s { code = code }, note_error d err (load_code s.account.code_hash))

  unfoldable pub get_code : StateObject T → StateDb T → Option Bytes × StateObject T × StateDb T
  get_code s d = elim s.code [
    | some code ↦ (some code, s, d)
    | none ↦
        if s.account.code_hash == empty_code_hash
        then (none, s, d)
        else loaded_code s d (env.contract_code s.account.code_hash)
  ]

  abbrev pub loaded_size : StateObject T → StateDb T → ℕ × Option ℕ → ℕ × StateDb T
  loaded_size s d (size, err) = (size, note_error d err (load_code_size s.account.code_hash))

  unfoldable pub code_size : StateObject T → StateDb T → ℕ × StateDb T
  code_size s d = elim s.code [
    | some code ↦ (length code, d)
    | none ↦
        if s.account.code_hash == empty_code_hash
        then (0, d)
        else loaded_size s d (env.contract_code_size s.account.code_hash)
  ]

  unfoldable pub set_code :
      StateObject T → StateDb T → Hash → Option Bytes → StateObject T × StateDb T
  set_code s d code_hash code =
      let r = get_code s d in
      let entry = code_change r.1.address r.0 r.1.account.code_hash in
      (set_code_field r.1 code_hash code, journalled r.2 entry)

  abbrev pub copied : Option T → Option T
  copied none = none
  copied (some t) = some (env.tries.copy t)

  unfoldable pub deep_copy : StateObject T → StateObject T
  unfolding new_object
  deep_copy s =
      record (new_object s.address (record {
        nonce = s.account.nonce;
        balance = some s.account.balance;
        root = s.account.root;
        code_hash = some s.account.code_hash;
      })) {
        trie = copied s.trie;
        code = s.code;
        dirty_storage = λ key. s.dirty_storage key;
        origin_storage = λ key. s.origin_storage key;
        pending_storage = λ key. s.pending_storage key;
        suicided = s.suicided;
        dirty_code = s.dirty_code;
        deleted = s.deleted;
      }
