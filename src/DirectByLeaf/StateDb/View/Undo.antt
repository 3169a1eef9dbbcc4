-- ===== src/DirectByLeaf/StateDb/View/Undo.antt =====
-- journal.go on views: what undoing an entry does to the view, and that `revert_entry` does it.
use ipld_eth_statedb.Base.{
  ℕ, ◌+◌, ◌-◌, ◌%◌, ◌≡◌, refl, ap, ap₂, ◌∙◌, fun_ext, Bool, true, false, Option, none, some, Map,
  ◌==◌, if◌then◌else◌, insert, delete, get_or, or_zero-if, List, [], ℤ, ◌&&◌,
}
use ipld_eth_statedb.DirectByLeaf.Types.{Address, Hash, Bytes}
use ipld_eth_statedb.DirectByLeaf.Env.{Env}
use ipld_eth_statedb.DirectByLeaf.AccessList
use ipld_eth_statedb.DirectByLeaf.AccessList.{AccessList}
use ipld_eth_statedb.DirectByLeaf.TransientStorage
use ipld_eth_statedb.DirectByLeaf.StateObject
use ipld_eth_statedb.DirectByLeaf.StateObject.{StateObject}
use ipld_eth_statedb.DirectByLeaf.StateDb.{
  StateDb, Log, JournalEntry, create_object_change, reset_object_change, suicide_change,
  balance_change, nonce_change, storage_change, code_change, refund_change, add_log_change,
  add_preimage_change, touch_change, access_list_add_account_change, access_list_add_slot_change,
  transient_storage_change, word,
}
use ipld_eth_statedb.DirectByLeaf.StateDb.Access.{
  get_deleted_state_object, get_state_object, set_state_object, alive,
}
use ipld_eth_statedb.DirectByLeaf.StateDb.Revert.{
  revert_entry, write_live, write_if_live, logs_without_last,
}
use ipld_eth_statedb.DirectByLeaf.StateDb.View.{
  AccountView, StateView, map_option, object_view, found, loaded, view, code_value,
}
use ipld_eth_statedb.DirectByLeaf.StateDb.View.Find.{
  get_deleted_state_object-Finds, view-set_state_object,
}

abbrev pub write_account :
    (AccountView → AccountView) → StateView → Option AccountView → Option StateView
write_account w v none = none
write_account w v (some x) =
    if x.deleted then none else some (record v { accounts = insert v.accounts x.address (w x) })

abbrev pub write_account_if :
    (AccountView → AccountView) → StateView → Option AccountView → StateView
write_account_if w v none = v
write_account_if w v (some x) =
    if x.deleted then v else record v { accounts = insert v.accounts x.address (w x) }

abbrev pub with_balance : ℤ → AccountView → AccountView
with_balance amount x = record x { account = record (x.account) { balance = amount } }

abbrev pub with_nonce : ℕ → AccountView → AccountView
with_nonce nonce x = record x { account = record (x.account) { nonce = nonce } }

abbrev pub with_slot : Hash → Hash → AccountView → AccountView
with_slot key value x = record x { stored = λ k. if key == k then value else x.stored k }

abbrev pub with_suicided : Bool → ℤ → AccountView → AccountView
with_suicided suicided amount x = record x {
  suicided = suicided;
  account = record (x.account) { balance = amount };
}

module _ (env : Env) where
  abbrev pub with_code : Hash → Option Bytes → AccountView → AccountView
  with_code code_hash code x = record x {
    code = code_value env code code_hash;
    account = record (x.account) { code_hash = code_hash };
  }

  abbrev pub undo_view : JournalEntry → StateView → Option StateView
  undo_view (create_object_change a) v = some (record v {
    accounts = λ b.
        if a == b
        then map_option (object_view env) (loaded env b v.origin_block_hash)
        else v.accounts b;
  })
  undo_view (reset_object_change prev prevdestruct) v =
      some (record v { accounts = insert v.accounts prev.address (object_view env prev) })
  undo_view (suicide_change a prev prevbalance) v =
      some (write_account_if (with_suicided prev prevbalance) v (v.accounts a))
  undo_view (balance_change a prev) v = write_account (with_balance prev) v (v.accounts a)
  undo_view (nonce_change a prev) v = write_account (with_nonce prev) v (v.accounts a)
  undo_view (storage_change a key prevalue) v =
      write_account (with_slot key prevalue) v (v.accounts a)
  undo_view (code_change a prevcode prevhash) v =
      write_account (with_code prevhash prevcode) v (v.accounts a)
  undo_view (refund_change prev) v = some (record v { refund = prev })
  undo_view (add_log_change txhash) v =
      map_option (λ logs'. record v { logs = logs'; log_size = (v.log_size + word - 1) % word })
        (logs_without_last v.logs txhash (get_or v.logs txhash []))
  undo_view (add_preimage_change hash) v = some (record v { preimages = delete v.preimages hash })
  undo_view (touch_change a) v = some v
  undo_view (access_list_add_account_change a) v =
      some (record v { access_list = AccessList.delete_address v.access_list a })
  undo_view (access_list_add_slot_change a slot) v =
      map_option (λ al. record v { access_list = al }) (AccessList.delete_slot v.access_list a slot)
  undo_view (transient_storage_change a key prevalue) v =
      some (record v {
        transient = λ b k. if (a == b) && (key == k) then prevalue else v.transient b k;
      })

  -- A write on objects that the views follow.
  pub record Follows (w : StateObject → StateObject) (u : AccountView → AccountView) : Type 0 where
    pub same_view : (o : StateObject) → object_view env (w o) ≡ u (object_view env o)
    pub same_address : (o : StateObject) → (w o).address ≡ o.address

  abbrev pub set_view : StateView → Address → AccountView → StateView
  set_view v a x = record v { accounts = insert v.accounts a x }

  written :
      (w : StateObject → StateObject) (u : AccountView → AccountView) (s t : StateDb)
      (o : StateObject)
      → Follows w u
      → view env t ≡ view env s
      → view env (set_state_object t (w o))
        ≡ set_view (view env s) o.address (u (object_view env o))
  written w u s t o f e =
      view-set_state_object env t (w o)
      ∙ ap (λ v. set_view v (w o).address (object_view env (w o))) e
      ∙ ap₂ (set_view (view env s)) (f.same_address o) (f.same_view o)

  write_live-view :
      (w : StateObject → StateObject) (u : AccountView → AccountView) (s t : StateDb)
      (o : Option StateObject)
      → Follows w u
      → view env t ≡ view env s
      → map_option (view env) (write_live w (alive o, t))
        ≡ write_account u (view env s) (map_option (object_view env) o)
  write_live-view w u s t none f e = refl
  write_live-view w u s t (some o) f e = if_deleted o.deleted
    where
      if_deleted :
          (d : Bool)
          → map_option (view env) (write_live w ((if d then none else some o), t))
            ≡ (if d then none else some (set_view (view env s) o.address (u (object_view env o))))
      if_deleted true = refl
      if_deleted false = ap some (written w u s t o f e)

  write_if_live-view :
      (w : StateObject → StateObject) (u : AccountView → AccountView) (s t : StateDb)
      (o : Option StateObject)
      → Follows w u
      → view env t ≡ view env s
      → view env (write_if_live w (alive o, t))
        ≡ write_account_if u (view env s) (map_option (object_view env) o)
  write_if_live-view w u s t none f e = e
  write_if_live-view w u s t (some o) f e = if_deleted o.deleted
    where
      if_deleted :
          (d : Bool)
          → view env (write_if_live w ((if d then none else some o), t))
            ≡ (if d then view env s else set_view (view env s) o.address (u (object_view env o)))
      if_deleted true = e
      if_deleted false = written w u s t o f e

  -- Undoing a write on the live object of an address.
  revert_write :
      (w : StateObject → StateObject) (u : AccountView → AccountView) (s : StateDb) (a : Address)
      → Follows w u
      → map_option (view env) (write_live w (get_state_object env s a))
        ≡ write_account u (view env s) ((view env s).accounts a)
  unfolding get_state_object
  revert_write w u s a f =
      let r = get_deleted_state_object env s a in
      let F = get_deleted_state_object-Finds env s a in
      write_live-view w u s r.1 r.0 f F.view_eq
      ∙ ap (λ o. write_account u (view env s) (map_option (object_view env) o)) F.object_eq

  revert_write_if :
      (w : StateObject → StateObject) (u : AccountView → AccountView) (s : StateDb) (a : Address)
      → Follows w u
      → view env (write_if_live w (get_state_object env s a))
        ≡ write_account_if u (view env s) ((view env s).accounts a)
  unfolding get_state_object
  revert_write_if w u s a f =
      let r = get_deleted_state_object env s a in
      let F = get_deleted_state_object-Finds env s a in
      write_if_live-view w u s r.1 r.0 f F.view_eq
      ∙ ap (λ o. write_account_if u (view env s) (map_option (object_view env) o)) F.object_eq

  pub balance-Follows :
      (amount : ℤ) → Follows (λ o. StateObject.set_balance_field o amount) (with_balance amount)
  unfolding StateObject.set_balance_field
  balance-Follows amount = record { same_view = λ o. refl; same_address = λ o. refl }

  pub nonce-Follows :
      (nonce : ℕ) → Follows (λ o. StateObject.set_nonce_field o nonce) (with_nonce nonce)
  unfolding StateObject.set_nonce_field
  nonce-Follows nonce = record { same_view = λ o. refl; same_address = λ o. refl }

  pub code-Follows :
      (h : Hash) (c : Option Bytes)
      → Follows (λ o. StateObject.set_code_field o h c) (with_code h c)
  unfolding StateObject.set_code_field
  code-Follows h c = record { same_view = λ o. refl; same_address = λ o. refl }

  pub slot-Follows :
      (key value : Hash)
      → Follows (λ o. StateObject.set_state_field o key value) (with_slot key value)
  unfolding StateObject.set_state_field
  slot-Follows key value = record {
    same_view = λ o.
        ap
          (λ (f : Hash → Hash).
            let x : AccountView = record (object_view env o) { stored = f } in x)
          (fun_ext λ k. or_zero-if (key == k) (o.dirty_storage k) value _);
    same_address = λ o. refl;
  }

  suicided-Follows :
      (b : Bool) (amount : ℤ)
      → Follows
          (λ o. StateObject.set_balance_field (record o { suicided = b }) amount)
          (with_suicided b amount)
  unfolding StateObject.set_balance_field
  suicided-Follows b amount = record { same_view = λ o. refl; same_address = λ o. refl }

  logs_undone :
      (s : StateDb) (r : Option (Map (List Log)))
      → map_option (view env) (elim r [
        | none ↦ none
        | some logs' ↦ some (record s { logs = logs'; log_size = (s.log_size + word - 1) % word })
      ])
        ≡ map_option
            (λ logs'. record (view env s) {
              logs = logs';
              log_size = (s.log_size + word - 1) % word;
            })
            r
  logs_undone s none = refl
  logs_undone s (some logs') = refl

  slot_undone :
      (s : StateDb) (r : Option AccessList)
      → map_option
          (view env)
          (elim r [ none ↦ none | some al ↦ some (record s { access_list = al }) ])
        ≡ map_option (λ al. record (view env s) { access_list = al }) r
  slot_undone s none = refl
  slot_undone s (some al) = refl

  created_undone :
      (c : Bool) (b : Address) (h : Hash) (o : Option StateObject)
      → map_option (object_view env) (found env b h (if c then none else o)) ≡ (
          if c
          then map_option (object_view env) (loaded env b h)
          else map_option (object_view env) (found env b h o))
  created_undone true b h o = refl
  created_undone false b h o = refl

  -- Undoing a journal entry does to the view what `undo_view` says, for every kind of entry.
  pub view-revert_entry :
      (e : JournalEntry) (s : StateDb)
      → map_option (view env) (revert_entry env e s) ≡ undo_view e (view env s)
  unfolding revert_entry
  view-revert_entry (create_object_change a) s =
      ap (λ m. some (record (view env s) { accounts = m }))
        (fun_ext λ b. created_undone (a == b) b s.origin_block_hash (s.state_objects b))
  view-revert_entry (reset_object_change prev prevdestruct) s =
      ap some (view-set_state_object env s prev)
  view-revert_entry (suicide_change a prev prevbalance) s =
      ap some (revert_write_if _ _ s a (suicided-Follows prev prevbalance))
  view-revert_entry (balance_change a prev) s = revert_write _ _ s a (balance-Follows prev)
  view-revert_entry (nonce_change a prev) s = revert_write _ _ s a (nonce-Follows prev)
  view-revert_entry (storage_change a key prevalue) s =
      revert_write _ _ s a (slot-Follows key prevalue)
  view-revert_entry (code_change a prevcode prevhash) s =
      revert_write _ _ s a (code-Follows prevhash prevcode)
  view-revert_entry (refund_change prev) s = refl
  view-revert_entry (add_log_change txhash) s =
      logs_undone s (logs_without_last s.logs txhash (get_or s.logs txhash []))
  view-revert_entry (add_preimage_change hash) s = refl
  view-revert_entry (touch_change a) s = refl
  view-revert_entry (access_list_add_account_change a) s = refl
  view-revert_entry (access_list_add_slot_change a slot) s =
      slot_undone s (AccessList.delete_slot s.access_list a slot)
  view-revert_entry (transient_storage_change a key prevalue) s =
      ap (λ t. some (record (view env s) { transient = t }))
        (fun_ext λ b. fun_ext λ k. TransientStorage.get-set s.transient_storage a b key k prevalue)
