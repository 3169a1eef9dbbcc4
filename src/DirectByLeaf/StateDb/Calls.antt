-- ===== src/DirectByLeaf/StateDb/Calls.antt =====
-- The interface of vm.StateDB as statedb.go implements it: the calls that an execution makes between
-- a snapshot and its revert, and executions with calls nested under snapshots of their own.
use ipld_eth_statedb.Base.{ℕ, ◌≡◌, Option, some, ℤ}
use ipld_eth_statedb.DirectByLeaf.Types.{Address, Hash, Bytes}
use ipld_eth_statedb.DirectByLeaf.Env.{Env}
use ipld_eth_statedb.DirectByLeaf.StateDb.{StateDb, Log}
use ipld_eth_statedb.DirectByLeaf.StateDb.Access
use ipld_eth_statedb.DirectByLeaf.StateDb.Setters
use ipld_eth_statedb.DirectByLeaf.StateDb.Lifecycle.{snapshot, revert_to_snapshot}

pub data Call : Type 0 where
  exist empty get_balance get_nonce get_code_hash has_suicided get_code : Address → Call
  get_state get_committed_state : Address → Hash → Call
  add_balance sub_balance set_balance : Address → ℤ → Call
  set_nonce : Address → ℕ → Call
  set_code : Address → Option Bytes → Call
  set_state set_transient_state : Address → Hash → Hash → Call
  suicide create_account add_address_to_access_list : Address → Call
  add_slot_to_access_list : Address → Hash → Call
  add_log : Log → Call
  add_preimage : Hash → Bytes → Call
  add_refund sub_refund : ℕ → Call

module _ (env : Env) where
  -- The state after a call; `none` where the call panics.
  unfoldable pub perform : Call → StateDb → Option StateDb
  perform (exist a) s = some (Access.exist env s a).1
  perform (empty a) s = some (Access.empty env s a).1
  perform (get_balance a) s = some (Access.get_balance env s a).1
  perform (get_nonce a) s = some (Access.get_nonce env s a).1
  perform (get_code_hash a) s = some (Access.get_code_hash env s a).1
  perform (has_suicided a) s = some (Access.has_suicided env s a).1
  perform (get_code a) s = some (Access.get_code env s a).1
  perform (get_state a key) s = some (Access.get_state env s a key).1
  perform (get_committed_state a key) s = some (Access.get_committed_state env s a key).1
  perform (add_balance a amount) s = some (Setters.add_balance env s a amount)
  perform (sub_balance a amount) s = some (Setters.sub_balance env s a amount)
  perform (set_balance a amount) s = some (Setters.set_balance env s a amount)
  perform (set_nonce a nonce) s = some (Setters.set_nonce env s a nonce)
  perform (set_code a code) s = some (Setters.set_code env s a code)
  perform (set_state a key value) s = some (Setters.set_state env s a key value)
  perform (set_transient_state a key value) s = some (Setters.set_transient_state s a key value)
  perform (suicide a) s = some (Setters.suicide env s a).1
  perform (create_account a) s = some (Setters.create_account env s a)
  perform (add_address_to_access_list a) s = some (Setters.add_address_to_access_list s a)
  perform (add_slot_to_access_list a slot) s = Setters.add_slot_to_access_list s a slot
  perform (add_log log) s = some (Setters.add_log s log)
  perform (add_preimage hash preimage) s = some (Setters.add_preimage s hash preimage)
  perform (add_refund gas) s = some (Setters.add_refund s gas)
  perform (sub_refund gas) s = Setters.sub_refund s gas

  -- `called`: one call; `kept`: a snapshot that is not reverted to; `reverted`: a snapshot, an
  -- execution, and the revert to that snapshot.
  pub data Run : StateDb → StateDb → Type 0 where
    start : (s : StateDb) → Run s s
    called : {s t u : StateDb} → Run s t → (c : Call) → perform c t ≡ some u → Run s u
    kept : {s t : StateDb} → Run s t → Run s (snapshot t).1
    reverted :
        {s t u w : StateDb}
        → Run s t
        → Run (snapshot t).1 u
        → revert_to_snapshot env u (snapshot t).0 ≡ some w
        → Run s w
