-- ===== src/DirectByLeaf/StateObject.antt =====
-- direct_by_leaf/state_object.go: the methods of an account's object that need nothing of the state
-- database around it. A method that writes a cache or an error returns the object with its result.
use ipld_eth_statedb.Base.{
  ℕ, Bool, true, false, ◌&&◌, Option, none, some, [], empty_map, insert, get_or, ℤ, pos, is_zero,
  ◌==◌, if◌then◌else◌, length,
}
use ipld_eth_statedb.DirectByLeaf.Types.{Address, Hash, Bytes, Storage, zero_hash}
use ipld_eth_statedb.DirectByLeaf.Env.{Env, StateAccount}

-- emptyRoot
abbrev pub empty_root : Hash
empty_root = 0x56e81f171bcc55a6ff8345e692c0f86e5b48e01b996cadc001622fb5e363b421

-- The account of an object, with no nil field: see `new_object`.
pub record Account : Type 0 where
  pub nonce : ℕ
  pub balance : ℤ
  pub root : Hash
  pub code_hash : Hash

-- The first error that an object or a state database met, by what was being done.
pub data DbError : Type 0 where
  load_account load_code load_code_size : Hash → ℕ → DbError
  load_slot split_slot : ℕ → DbError

pub record StateObject : Type 0 where
  pub address : Address
  pub addr_hash : Hash
  pub block_hash : Hash
  pub account : Account
  pub db_err : Option DbError
  pub code : Option Bytes
  pub origin_storage : Storage
  pub pending_storage : Storage
  pub dirty_storage : Storage
  pub fake_storage : Option Storage
  pub dirty_code : Bool
  pub suicided : Bool
  pub deleted : Bool

abbrev pub or_else {ℓ} : {A : Type ℓ} → Option A → A → A
or_else none d = d
or_else (some a) d = a

-- The first error stays.
unfoldable pub first_error : Option DbError → DbError → Option DbError
first_error none e = some e
first_error (some old) e = some old

unfoldable pub set_error : StateObject → DbError → StateObject
unfolding first_error
set_error s e = record s { db_err = first_error s.db_err e }

-- s.setError(wrap(err)) where err is not nil
abbrev pub note_error : StateObject → Option ℕ → (ℕ → DbError) → StateObject
note_error s none wrap = s
note_error s (some e) wrap = set_error s (wrap e)

unfoldable pub mark_suicided : StateObject → StateObject
mark_suicided s = record s { suicided = true }

unfoldable pub set_balance_field : StateObject → ℤ → StateObject
set_balance_field s amount = record s { account = record (s.account) { balance = amount } }

unfoldable pub set_nonce_field : StateObject → ℕ → StateObject
set_nonce_field s nonce = record s { account = record (s.account) { nonce = nonce } }

unfoldable pub set_code_field : StateObject → Hash → Option Bytes → StateObject
set_code_field s code_hash code = record s {
  code = code;
  account = record (s.account) { code_hash = code_hash };
  dirty_code = true;
}

unfoldable pub set_state_field : StateObject → Hash → Hash → StateObject
set_state_field s key value = record s { dirty_storage = insert s.dirty_storage key value }

-- The entries of `storage` over those of `old`.
abbrev pub merge : Storage → Storage → Storage
merge old storage key = elim (storage key) [ none ↦ old key | some value ↦ some value ]

unfoldable pub set_storage : StateObject → Storage → StateObject
set_storage s storage = record s {
  fake_storage = some (merge (or_else s.fake_storage empty_map) storage);
}

unfoldable pub finalise : StateObject → StateObject
finalise s = record s {
  pending_storage = merge s.pending_storage s.dirty_storage;
  dirty_storage = empty_map;
}

module _ (env : Env) where
  abbrev pub empty_code_hash : Hash
  empty_code_hash = env.keccak_code []

  unfoldable pub empty : StateObject → Bool
  empty s =
      (s.account.nonce == 0)
      && (is_zero s.account.balance && (s.account.code_hash == empty_code_hash))

  unfoldable pub new_object : Address → StateAccount → Hash → StateObject
  new_object address data' block_hash = record {
    address = address;
    addr_hash = env.keccak_address address;
    block_hash = block_hash;
    account = record {
      nonce = data'.nonce;
      balance = or_else data'.balance (pos 0);
      root = if data'.root == zero_hash then empty_root else data'.root;
      code_hash = or_else data'.code_hash empty_code_hash;
    };
    db_err = none;
    code = none;
    origin_storage = empty_map;
    pending_storage = empty_map;
    dirty_storage = empty_map;
    fake_storage = none;
    dirty_code = false;
    suicided = false;
    deleted = false;
  }

  -- The value in an encoded slot, with the object that notes a failed split.
  abbrev pub decode_slot : StateObject → Bytes → Hash × StateObject
  decode_slot s enc = if length enc == 0 then (zero_hash, s) else (
    env.bytes_to_hash (env.rlp_split enc).0,
    note_error s (env.rlp_split enc).1 DbError.split_slot,
  )

  -- What the database answers for a slot: an error is noted and nothing is cached.
  abbrev pub load_slot_answer : StateObject → Hash → Bytes × Option ℕ → Hash × StateObject
  load_slot_answer s key (enc, some e) = (zero_hash, set_error s (DbError.load_slot e))
  load_slot_answer s key (enc, none) =
      let r = decode_slot s enc in
      (r.0, record (r.1) { origin_storage = insert r.1.origin_storage key r.0 })

  abbrev pub load_slot_value : StateObject → Hash → Hash × StateObject
  load_slot_value s key =
      load_slot_answer s key (env.db.storage_value s.addr_hash (env.keccak_key key) s.block_hash)

  abbrev pub committed_or_load : StateObject → Hash → Hash × StateObject
  committed_or_load s key = elim (s.origin_storage key) [
    | some value ↦ (value, s)
    | none ↦ load_slot_value s key
  ]

  unfoldable pub get_committed_state : StateObject → Hash → Hash × StateObject
  get_committed_state s key = elim s.fake_storage [
    | some fake ↦ (get_or fake key zero_hash, s)
    | none ↦ committed_or_load s key
  ]

  unfoldable pub get_state : StateObject → Hash → Hash × StateObject
  get_state s key = elim s.fake_storage [
    | some fake ↦ (get_or fake key zero_hash, s)
    | none ↦ elim (s.dirty_storage key) [
      | some value ↦ (value, s)
      | none ↦ get_committed_state s key
    ]
  ]

  abbrev pub load_code_value : StateObject → Option Bytes × Option ℕ → Option Bytes × StateObject
  load_code_value s (code, err) =
      (code, record (note_error s err (DbError.load_code s.account.code_hash)) { code = code })

  unfoldable pub get_code : StateObject → Option Bytes × StateObject
  get_code s = elim s.code [
    | some code ↦ (some code, s)
    | none ↦
        if s.account.code_hash == empty_code_hash
        then (none, s)
        else load_code_value s (env.db.contract_code s.account.code_hash)
  ]

  abbrev pub load_size : StateObject → ℕ × Option ℕ → ℕ × StateObject
  load_size s (size, err) = (size, note_error s err (DbError.load_code_size s.account.code_hash))

  unfoldable pub code_size : StateObject → ℕ × StateObject
  code_size s = elim s.code [
    | some code ↦ (length code, s)
    | none ↦
        if s.account.code_hash == empty_code_hash
        then (0, s)
        else load_size s (env.db.contract_code_size s.account.code_hash)
  ]

  -- newObject fills the object in from the account again, and then from the caches.
  unfoldable pub deep_copy : StateObject → StateObject
  unfolding new_object
  deep_copy s =
      record (new_object s.address
        (record {
          nonce = s.account.nonce;
          balance = some s.account.balance;
          root = s.account.root;
          code_hash = some s.account.code_hash;
        })
        s.block_hash) {
          code = s.code;
          dirty_storage = λ key. s.dirty_storage key;
          origin_storage = λ key. s.origin_storage key;
          pending_storage = λ key. s.pending_storage key;
          suicided = s.suicided;
          dirty_code = s.dirty_code;
          deleted = s.deleted;
        }
