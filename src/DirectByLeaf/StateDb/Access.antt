-- ===== src/DirectByLeaf/StateDb/Access.antt =====
-- direct_by_leaf/statedb.go: finding an account's object, and the getters.
use ipld_eth_statedb.Base.{ℕ, Bool, true, false, Option, none, some, insert, ℤ, pos, if◌then◌else◌}
use ipld_eth_statedb.DirectByLeaf.Types.{Address, Hash, Bytes, zero_hash}
use ipld_eth_statedb.DirectByLeaf.Env.{Env, StateAccount}
use ipld_eth_statedb.DirectByLeaf.AccessList
use ipld_eth_statedb.DirectByLeaf.TransientStorage
use ipld_eth_statedb.DirectByLeaf.StateObject
use ipld_eth_statedb.DirectByLeaf.StateObject.{StateObject, DbError, first_error}
use ipld_eth_statedb.DirectByLeaf.StateDb.{StateDb}

unfoldable pub set_error : StateDb → DbError → StateDb
unfolding first_error
set_error s e = record s { db_err = first_error s.db_err e }

unfoldable pub set_state_object : StateDb → StateObject → StateDb
set_state_object s object = record s {
  state_objects = insert s.state_objects object.address object;
}

abbrev pub alive : Option StateObject → Option StateObject
alive none = none
alive (some obj) = if obj.deleted then none else some obj

module _ (env : Env) where
  abbrev pub load_answer :
      StateDb → Address → Option StateAccount × Option ℕ → Option StateObject × StateDb
  load_answer s addr (data', some e) = (none, set_error s (DbError.load_account addr e))
  load_answer s addr (none, none) = (none, s)
  load_answer s addr (some data', none) =
      let obj = StateObject.new_object env addr data' s.origin_block_hash in
      (some obj, set_state_object s obj)

  abbrev pub live_or_load : StateDb → Address → Option StateObject → Option StateObject × StateDb
  live_or_load s addr (some obj) = (some obj, s)
  live_or_load s addr none =
      load_answer s addr (env.db.state_account (env.keccak_address addr) s.origin_block_hash)

  unfoldable pub get_deleted_state_object : StateDb → Address → Option StateObject × StateDb
  get_deleted_state_object s addr = live_or_load s addr (s.state_objects addr)

  unfoldable pub get_state_object : StateDb → Address → Option StateObject × StateDb
  get_state_object s addr = let r = get_deleted_state_object s addr in (alive r.0, r.1)

  -- A getter of an account: `missing` where there is none, else the object's answer, with what the
  -- method cached written back.
  abbrev pub answer_of {ℓ} :
      {A : Type ℓ}
      → A
      → (StateObject → A × StateObject)
      → Option StateObject × StateDb
      → A × StateDb
  answer_of missing read (none, s) = (missing, s)
  answer_of missing read (some obj, s) = let r = read obj in (r.0, set_state_object s r.1)

  abbrev pub field_of {ℓ} :
      {A : Type ℓ} → A → (StateObject → A) → Option StateObject × StateDb → A × StateDb
  field_of missing read (none, s) = (missing, s)
  field_of missing read (some obj, s) = (read obj, s)

  unfoldable pub exist : StateDb → Address → Bool × StateDb
  exist s addr = field_of false (λ obj. true) (get_state_object s addr)

  unfoldable pub empty : StateDb → Address → Bool × StateDb
  empty s addr = field_of true (StateObject.empty env) (get_state_object s addr)

  unfoldable pub get_balance : StateDb → Address → ℤ × StateDb
  get_balance s addr = field_of (pos 0) (λ obj. obj.account.balance) (get_state_object s addr)

  unfoldable pub get_nonce : StateDb → Address → ℕ × StateDb
  get_nonce s addr = field_of 0 (λ obj. obj.account.nonce) (get_state_object s addr)

  unfoldable pub get_code : StateDb → Address → Option Bytes × StateDb
  get_code s addr = answer_of none (StateObject.get_code env) (get_state_object s addr)

  unfoldable pub get_code_size : StateDb → Address → ℕ × StateDb
  get_code_size s addr = answer_of 0 (StateObject.code_size env) (get_state_object s addr)

  unfoldable pub get_code_hash : StateDb → Address → Hash × StateDb
  get_code_hash s addr = field_of zero_hash (λ obj. obj.account.code_hash) (get_state_object s addr)

  unfoldable pub get_state : StateDb → Address → Hash → Hash × StateDb
  get_state s addr hash =
      answer_of zero_hash (λ obj. StateObject.get_state env obj hash) (get_state_object s addr)

  unfoldable pub get_committed_state : StateDb → Address → Hash → Hash × StateDb
  get_committed_state s addr hash =
      answer_of zero_hash (λ obj. StateObject.get_committed_state env obj hash)
        (get_state_object s addr)

  unfoldable pub has_suicided : StateDb → Address → Bool × StateDb
  has_suicided s addr = field_of false (λ obj. obj.suicided) (get_state_object s addr)

unfoldable pub get_refund : StateDb → ℕ
get_refund s = s.refund

unfoldable pub get_transient_state : StateDb → Address → Hash → Hash
get_transient_state s addr key = TransientStorage.get s.transient_storage addr key

unfoldable pub address_in_access_list : StateDb → Address → Bool
address_in_access_list s addr = AccessList.contains_address s.access_list addr

unfoldable pub slot_in_access_list : StateDb → Address → Hash → Option (Bool × Bool)
slot_in_access_list s addr slot = AccessList.contains s.access_list addr slot
