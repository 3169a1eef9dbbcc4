-- ===== src/DirectByLeaf/StateDb/Setters.antt =====
-- direct_by_leaf/statedb.go and state_object.go: the methods that change the state under the
-- journal. A method of `stateObject` takes the live object and writes it back.
use ipld_eth_statedb.Base.{
  ℕ, ◌+◌, ◌-◌, ◌%◌, Bool, true, false, Option, none, some, [], ◌∷◌, ◌++◌, insert, with_key, get_or,
  has, ℤ, pos, is_zero, ◌+ℤ◌, ◌-ℤ◌, ◌==◌, ltb, if◌then◌else◌,
}
use ipld_eth_statedb.DirectByLeaf.Types.{Address, Hash, Bytes, Storage}
use ipld_eth_statedb.DirectByLeaf.Env.{Env, StateAccount}
use ipld_eth_statedb.DirectByLeaf.AccessList
use ipld_eth_statedb.DirectByLeaf.AccessList.{AccessList}
use ipld_eth_statedb.DirectByLeaf.TransientStorage
use ipld_eth_statedb.DirectByLeaf.StateObject
use ipld_eth_statedb.DirectByLeaf.StateObject.{StateObject}
use ipld_eth_statedb.DirectByLeaf.StateDb.{
  StateDb, Log, create_object_change, reset_object_change, suicide_change, balance_change,
  nonce_change, storage_change, code_change, refund_change, add_log_change, add_preimage_change,
  touch_change, access_list_add_account_change, access_list_add_slot_change,
  transient_storage_change, word,
}
use ipld_eth_statedb.DirectByLeaf.StateDb.Access.{
  get_state_object, get_deleted_state_object, set_state_object, get_transient_state,
}
use ipld_eth_statedb.DirectByLeaf.StateDb.Revert.{dirty, journal_append}

unfoldable pub add_log : StateDb → Log → StateDb
unfolding journal_append
add_log s0 log =
    let s = journal_append s0 (add_log_change s0.thash) in
    let log' = record log { tx_hash = s.thash; tx_index = s.tx_index; index = s.log_size } in
    record s {
      logs = insert s.logs s.thash (get_or s.logs s.thash [] ++ log' ∷ []);
      log_size = (s.log_size + 1) % word;
    }

unfoldable pub add_preimage : StateDb → Hash → Bytes → StateDb
unfolding journal_append
add_preimage s hash preimage =
    if has s.preimages hash
    then s
    else (let t = journal_append s (add_preimage_change hash) in
        record t { preimages = insert t.preimages hash preimage })

unfoldable pub add_refund : StateDb → ℕ → StateDb
unfolding journal_append
add_refund s gas =
    let t = journal_append s (refund_change s.refund) in
    record t { refund = (t.refund + gas) % word }

-- `none` is the panic on a counter below zero.
unfoldable pub sub_refund : StateDb → ℕ → Option StateDb
unfolding journal_append
sub_refund s gas =
    let t = journal_append s (refund_change s.refund) in
    if ltb t.refund gas then none else some (record t { refund = t.refund - gas })

unfoldable pub set_transient_state_field : StateDb → Address → Hash → Hash → StateDb
set_transient_state_field s addr key value = record s {
  transient_storage = TransientStorage.set s.transient_storage addr key value;
}

unfoldable pub set_transient_state : StateDb → Address → Hash → Hash → StateDb
unfolding set_transient_state_field journal_append
set_transient_state s addr key value =
    let prev = get_transient_state s addr key in
    if prev == value
    then s
    else set_transient_state_field (journal_append s (transient_storage_change addr key prev)) addr
        key value

abbrev pub note_address : StateDb → Address → AccessList × Bool → StateDb
note_address s addr (al, true) =
    journal_append (record s { access_list = al }) (access_list_add_account_change addr)
note_address s addr (al, false) = record s { access_list = al }

unfoldable pub add_address_to_access_list : StateDb → Address → StateDb
unfolding journal_append
add_address_to_access_list s addr = note_address s addr (AccessList.add_address s.access_list addr)

abbrev pub note_slot : StateDb → Address → Hash → AccessList × Bool × Bool → StateDb
note_slot s addr slot (al, addr_mod, slot_mod) =
    let t = record s { access_list = al } in
    let u = if addr_mod then journal_append t (access_list_add_account_change addr) else t in
    if slot_mod then journal_append u (access_list_add_slot_change addr slot) else u

abbrev pub note_slot_result :
    StateDb → Address → Hash → Option (AccessList × Bool × Bool) → Option StateDb
note_slot_result s addr slot none = none
note_slot_result s addr slot (some r) = some (note_slot s addr slot r)

-- `none` is an index out of range in the access list.
unfoldable pub add_slot_to_access_list : StateDb → Address → Hash → Option StateDb
unfolding journal_append
add_slot_to_access_list s addr slot =
    note_slot_result s addr slot (AccessList.add_slot s.access_list addr slot)

unfoldable pub ripemd : Address
ripemd = 3

unfoldable pub touch : StateObject → StateDb → StateDb
unfolding journal_append ripemd
touch obj s0 =
    let s = journal_append s0 (touch_change obj.address) in
    if obj.address == ripemd then record s { journal = dirty s.journal obj.address } else s

unfoldable pub object_set_balance : StateObject → ℤ → StateDb → StateDb
unfolding journal_append
object_set_balance obj amount s =
    set_state_object (journal_append s (balance_change obj.address obj.account.balance))
      (StateObject.set_balance_field obj amount)

unfoldable pub object_set_nonce : StateObject → ℕ → StateDb → StateDb
unfolding journal_append
object_set_nonce obj nonce s =
    set_state_object (journal_append s (nonce_change obj.address obj.account.nonce))
      (StateObject.set_nonce_field obj nonce)

unfoldable pub object_sub_balance : StateObject → ℤ → StateDb → StateDb
unfolding object_set_balance
object_sub_balance obj amount s =
    if is_zero amount then s else object_set_balance obj (obj.account.balance -ℤ amount) s

abbrev pub object_suicide : StateObject → StateDb → StateDb
object_suicide obj s =
    set_state_object
      (journal_append s (suicide_change obj.address obj.suicided obj.account.balance))
      (StateObject.set_balance_field (StateObject.mark_suicided obj) (pos 0))

module _ (env : Env) where
  unfoldable pub object_add_balance : StateObject → ℤ → StateDb → StateDb
  unfolding object_set_balance
  object_add_balance obj amount s =
      if is_zero amount
      then (if StateObject.empty env obj then touch obj s else s)
      else object_set_balance obj (obj.account.balance +ℤ amount) s

  -- SetCode reads the code before it, which may load it into the object.
  unfoldable pub object_set_code : StateObject → Hash → Option Bytes → StateDb → StateDb
  unfolding journal_append
  object_set_code obj0 code_hash code s =
      let (prevcode, obj) = StateObject.get_code env obj0 in
      set_state_object (journal_append s (code_change obj.address prevcode obj.account.code_hash))
        (StateObject.set_code_field obj code_hash code)

  abbrev pub journal_slot : StateObject → Hash → Hash → Hash → StateDb → StateDb
  journal_slot obj key value prev s =
      if prev == value
      then set_state_object s obj
      else set_state_object (journal_append s (storage_change obj.address key prev))
          (StateObject.set_state_field obj key value)

  unfoldable pub object_set_state : StateObject → Hash → Hash → StateDb → StateDb
  unfolding journal_append
  object_set_state obj key value s = elim obj.fake_storage [
    | some fake ↦ set_state_object s (record obj { fake_storage = some (insert fake key value) })
    | none ↦
        let (prev, obj') = StateObject.get_state env obj key in journal_slot obj' key value prev s
  ]

  -- types.StateAccount{}
  abbrev pub no_account : StateAccount
  no_account = record { nonce = 0; balance = none; root = 0; code_hash = none }

  abbrev pub create_over :
      Address → Option StateObject × StateDb → StateObject × Option StateObject × StateDb
  create_over addr (none, s) =
      let newobj = StateObject.new_object env addr no_account s.origin_block_hash in
      (newobj, none, set_state_object (journal_append s (create_object_change addr)) newobj)
  create_over addr (some prev, s) =
      let newobj = StateObject.new_object env addr no_account s.origin_block_hash in
      let prevdestruct = s.state_objects_destruct prev.address in
      let t = record s {
        state_objects_destruct = with_key s.state_objects_destruct prev.address;
      } in
      (
        newobj,
        (if prev.deleted then none else some prev),
        set_state_object (journal_append t (reset_object_change prev prevdestruct)) newobj,
      )

  -- The new object, the one it replaces unless that was deleted, and the state.
  unfoldable pub create_object : StateDb → Address → StateObject × Option StateObject × StateDb
  unfolding journal_append
  create_object s addr = create_over addr (get_deleted_state_object env s addr)

  abbrev pub create_if_missing : Address → Option StateObject × StateDb → StateObject × StateDb
  create_if_missing addr (some obj, s) = (obj, s)
  create_if_missing addr (none, s) = let (obj, prev, t) = create_object s addr in (obj, t)

  unfoldable pub get_or_new_state_object : StateDb → Address → StateObject × StateDb
  get_or_new_state_object s addr = create_if_missing addr (get_state_object env s addr)

  -- A setter works on the account's object, which is made where it is missing.
  abbrev pub on_object : (StateObject → StateDb → StateDb) → StateObject × StateDb → StateDb
  on_object act (obj, s) = act obj s

  unfoldable pub add_balance : StateDb → Address → ℤ → StateDb
  add_balance s addr amount =
      on_object (λ obj. object_add_balance obj amount) (get_or_new_state_object s addr)

  unfoldable pub sub_balance : StateDb → Address → ℤ → StateDb
  sub_balance s addr amount =
      on_object (λ obj. object_sub_balance obj amount) (get_or_new_state_object s addr)

  unfoldable pub set_balance : StateDb → Address → ℤ → StateDb
  set_balance s addr amount =
      on_object (λ obj. object_set_balance obj amount) (get_or_new_state_object s addr)

  unfoldable pub set_nonce : StateDb → Address → ℕ → StateDb
  set_nonce s addr nonce =
      on_object (λ obj. object_set_nonce obj nonce) (get_or_new_state_object s addr)

  -- The hash of nil is that of the empty slice.
  unfoldable pub set_code : StateDb → Address → Option Bytes → StateDb
  set_code s addr code =
      on_object (λ obj. object_set_code obj (env.keccak_code (StateObject.or_else code [])) code)
        (get_or_new_state_object s addr)

  unfoldable pub set_state : StateDb → Address → Hash → Hash → StateDb
  set_state s addr key value =
      on_object (λ obj. object_set_state obj key value) (get_or_new_state_object s addr)

  unfoldable pub set_storage : StateDb → Address → Storage → StateDb
  set_storage s addr storage =
      let t = record s { state_objects_destruct = with_key s.state_objects_destruct addr } in
      on_object (λ obj u. set_state_object u (StateObject.set_storage obj storage))
        (get_or_new_state_object t addr)

  abbrev pub suicide_found : Option StateObject × StateDb → Bool × StateDb
  suicide_found (none, s) = (false, s)
  suicide_found (some obj, s) = (true, object_suicide obj s)

  unfoldable pub suicide : StateDb → Address → Bool × StateDb
  unfolding journal_append
  suicide s addr = suicide_found (get_state_object env s addr)

  abbrev pub carry_balance : StateObject × Option StateObject × StateDb → StateDb
  carry_balance (newobj, none, s) = s
  carry_balance (newobj, some prev, s) =
      set_state_object s (StateObject.set_balance_field newobj prev.account.balance)

  unfoldable pub create_account : StateDb → Address → StateDb
  create_account s addr = carry_balance (create_object s addr)
