-- ===== src/DirectByLeaf/StateDb/View/Find.antt =====
-- statedb.go: finding an account's object answers from the view and leaves the view as it is, and an
-- object written back shows in the view at its address.
use ipld_eth_statedb.Base.{
  ℕ, ◌≡◌, refl, ap, ◌∙◌, sym, fun_ext, Bool, true, false, Option, none, some, Map, ◌==◌,
  if◌then◌else◌, insert, insert_self,
}
use ipld_eth_statedb.DirectByLeaf.Types.{Address, Hash}
use ipld_eth_statedb.DirectByLeaf.Env.{Env, StateAccount}
use ipld_eth_statedb.DirectByLeaf.StateObject.{StateObject, new_object}
use ipld_eth_statedb.DirectByLeaf.StateDb.{StateDb}
use ipld_eth_statedb.DirectByLeaf.StateDb.Access.{
  get_deleted_state_object, set_state_object, set_error, live_or_load, load_answer,
}
use ipld_eth_statedb.DirectByLeaf.StateDb.View.{
  AccountView, StateView, map_option, object_view, found, loaded_from, view,
}

module _ (env : Env) where
  abbrev pub with_accounts : StateDb → Map AccountView → StateView
  with_accounts s accounts = record (view env s) { accounts = accounts }

  found_insert :
      (c : Bool) (a : Address) (h : Hash) (obj : StateObject) (o : Option StateObject)
      → map_option (object_view env) (found env a h (if c then some obj else o))
        ≡ (if c then some (object_view env obj) else map_option (object_view env) (found env a h o))
  found_insert true a h obj o = refl
  found_insert false a h obj o = refl

  -- Writing an object back changes the view at the object's address only.
  pub view-set_state_object :
      (s : StateDb) (obj : StateObject)
      → view env (set_state_object s obj)
        ≡ with_accounts s (insert (view env s).accounts obj.address (object_view env obj))
  unfolding set_state_object
  view-set_state_object s obj =
      ap (with_accounts s)
        (fun_ext λ a. found_insert (obj.address == a) a s.origin_block_hash obj (s.state_objects a))

  -- What finding the object of an address gives, as a result and a state.
  pub record Finds (s : StateDb) (a : Address) (r : Option StateObject × StateDb) : Type 0 where
    pub object_eq : r.0 ≡ found env a s.origin_block_hash (s.state_objects a)
    pub view_eq : view env r.1 ≡ view env s
    pub journal_eq : r.1.journal ≡ s.journal
    pub revisions_eq : r.1.valid_revisions ≡ s.valid_revisions
    pub next_eq : r.1.next_revision_id ≡ s.next_revision_id

  answered-Finds :
      (s : StateDb) (a : Address) (answer : Option StateAccount × Option ℕ)
      → loaded_from env a s.origin_block_hash answer
        ≡ found env a s.origin_block_hash (s.state_objects a)
      → Finds s a (load_answer env s a answer)
  unfolding set_error new_object
  answered-Finds s a (data', some e) q = record {
    object_eq = q;
    view_eq = refl;
    journal_eq = refl;
    revisions_eq = refl;
    next_eq = refl;
  }
  answered-Finds s a (none, none) q = record {
    object_eq = q;
    view_eq = refl;
    journal_eq = refl;
    revisions_eq = refl;
    next_eq = refl;
  }
  answered-Finds s a (some data', none) q = record {
    object_eq = q;
    view_eq =
        view-set_state_object s (new_object env a data' s.origin_block_hash)
        ∙ ap (with_accounts s)
            (insert_self (view env s).accounts a _ (ap (map_option (object_view env)) (sym q)));
    journal_eq = unfold set_state_object in refl;
    revisions_eq = unfold set_state_object in refl;
    next_eq = unfold set_state_object in refl;
  }

  located-Finds :
      (s : StateDb) (a : Address) (o : Option StateObject)
      → s.state_objects a ≡ o
      → Finds s a (live_or_load env s a o)
  located-Finds s a (some obj) e = record {
    object_eq = ap (found env a s.origin_block_hash) (sym e);
    view_eq = refl;
    journal_eq = refl;
    revisions_eq = refl;
    next_eq = refl;
  }
  located-Finds s a none e =
      answered-Finds s a (env.db.state_account (env.keccak_address a) s.origin_block_hash)
        (ap (found env a s.origin_block_hash) (sym e))

  -- getDeletedStateObject finds the view's object, and loading it keeps the view and the journal.
  pub get_deleted_state_object-Finds :
      (s : StateDb) (a : Address) → Finds s a (get_deleted_state_object env s a)
  unfolding get_deleted_state_object
  get_deleted_state_object-Finds s a = located-Finds s a (s.state_objects a) refl
