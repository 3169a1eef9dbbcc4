-- ===== src/DirectByLeaf/StateDb/Rollback/Create.antt =====
-- statedb.go: the journal takes back the making of an account's object, and CreateAccount.
use ipld_eth_statedb.Base.{
  ◌≡◌, refl, ap, ap₂, ◌∙◌, sym, subst, fun_ext, Bool, true, false, Option, none, some, [], ◌∷◌, Map,
  insert_self, insert-insert, ◌==◌, ==_iff, ==_refl, if◌then◌else◌, with_key,
}
use ipld_eth_statedb.DirectByLeaf.Types.{Address, Hash}
use ipld_eth_statedb.DirectByLeaf.Env.{Env}
use ipld_eth_statedb.DirectByLeaf.StateObject
use ipld_eth_statedb.DirectByLeaf.StateObject.{StateObject, new_object}
use ipld_eth_statedb.DirectByLeaf.StateDb.{
  StateDb, JournalEntry, create_object_change, reset_object_change,
}
use ipld_eth_statedb.DirectByLeaf.StateDb.Access.{
  set_state_object, get_state_object, get_deleted_state_object, alive,
}
use ipld_eth_statedb.DirectByLeaf.StateDb.Revert.{journal_append}
use ipld_eth_statedb.DirectByLeaf.StateDb.Setters.{
  create_object, create_over, create_if_missing, get_or_new_state_object, create_account,
  carry_balance, no_account,
}
use ipld_eth_statedb.DirectByLeaf.StateDb.View.{
  AccountView, StateView, view, object_view, map_option, bind_option, found, loaded,
}
use ipld_eth_statedb.DirectByLeaf.StateDb.View.Find.{
  get_deleted_state_object-Finds, view-set_state_object,
}
use ipld_eth_statedb.DirectByLeaf.StateDb.View.Undo.{undo_view, set_view}
use ipld_eth_statedb.DirectByLeaf.StateDb.Rollback.Valid.{
  IsValid, Safe, Safe-trans, Safe-of_entries,
}
use ipld_eth_statedb.DirectByLeaf.StateDb.Rollback.Accounts.{Holds, set_view-IsValid}

module _ (env : Env) where
  -- Finding an object is a step with nothing to take back.
  pub found-Safe :
      (s : StateDb) (a : Address)
      → IsValid (view env s)
      → Safe env s (get_deleted_state_object env s a).1
  found-Safe s a v =
      let f = get_deleted_state_object-Finds env s a in
      Safe-of_entries env s _ [] (subst IsValid (sym f.view_eq) v)
        (record { revisions_eq = f.revisions_eq; next_eq = f.next_eq })
        (ap (λ j. j.entries) f.journal_eq) (ap some f.view_eq)

  -- A found object is the account of the address in the view.
  pub found-account :
      (s : StateDb) (a : Address)
      → (view env (get_deleted_state_object env s a).1).accounts a
        ≡ map_option (object_view env) (get_deleted_state_object env s a).0
  found-account s a =
      let f = get_deleted_state_object-Finds env s a in
      ap (λ (v : StateView). v.accounts a) f.view_eq
      ∙ ap (map_option (object_view env)) (sym f.object_eq)

  created_at :
      (acc : Map AccountView) (a b : Address) (h : Hash) (x : AccountView) (c : Bool)
      → (c ≡ true → a ≡ b)
      → acc a ≡ none
      → map_option (object_view env) (loaded env a h) ≡ none
      → (if c then map_option (object_view env) (loaded env b h) else if c then some x else acc b)
        ≡ acc b
  created_at acc a b h x true e n l =
      ap (λ d. map_option (object_view env) (loaded env d h)) (sym (e refl))
      ∙ l
      ∙ sym n
      ∙ ap acc (e refl)
  created_at acc a b h x false e n l = refl

  -- The entry of a new object takes back whatever stands at its address.
  create_back :
      (v : StateView) (a : Address) (x : AccountView)
      → v.accounts a ≡ none
      → map_option (object_view env) (loaded env a v.origin_block_hash) ≡ none
      → undo_view env (create_object_change a) (set_view env v a x) ≡ some v
  create_back v a x n l =
      ap (λ m. some (let w : StateView = record v { accounts = m } in w))
        (fun_ext
          λ b. created_at v.accounts a b v.origin_block_hash x (a == b) (λ c. (==_iff a b).0 c) n l)

  reset_back :
      (v : StateView) (prev : StateObject) (d : Bool) (x : AccountView)
      → v.accounts prev.address ≡ some (object_view env prev)
      → undo_view env (reset_object_change prev d) (set_view env v prev.address x) ≡ some v
  reset_back v prev d x h =
      ap (λ m. some (let w : StateView = record v { accounts = m } in w))
        (insert-insert v.accounts prev.address x (object_view env prev)
          ∙ insert_self v.accounts prev.address (object_view env prev) h)

  -- A state `t` that is `s` with the object `obj` at its address under the one entry `e`.
  pub record Made (s : StateDb) (a : Address) (obj : StateObject) (t : StateDb) : Type 0 where
    pub entry : JournalEntry
    pub address_eq : obj.address ≡ a
    pub fresh : obj.deleted ≡ false
    pub no_fake_storage : obj.fake_storage ≡ none
    pub shown : view env t ≡ set_view env (view env s) a (object_view env obj)
    pub entries_eq : t.journal.entries ≡ entry ∷ s.journal.entries
    pub revisions_eq : t.valid_revisions ≡ s.valid_revisions
    pub next_eq : t.next_revision_id ≡ s.next_revision_id
    pub back :
        (x : AccountView) → undo_view env entry (set_view env (view env s) a x) ≡ some (view env s)

  pub Made-Safe :
      (s : StateDb) (a : Address) (obj : StateObject) (t : StateDb)
      → IsValid (view env s)
      → Made s a obj t
      → Safe env s t
  Made-Safe s a obj t v m =
      Safe-of_entries env s t (m.entry ∷ [])
        (subst IsValid (sym m.shown) (
          set_view-IsValid env (view env s) a (object_view env obj) v m.address_eq
            m.no_fake_storage))
        (record { revisions_eq = m.revisions_eq; next_eq = m.next_eq }) m.entries_eq
        (ap (λ w. bind_option (undo_view env m.entry w) some) m.shown
          ∙ ap (λ o. bind_option o some) (m.back (object_view env obj)))

  pub Made-Holds :
      (s : StateDb) (a : Address) (obj : StateObject) (t : StateDb)
      → Made s a obj t
      → Holds env t obj
  Made-Holds s a obj t m = record {
    held =
        ap (view env t).accounts m.address_eq
        ∙ ap (λ (v : StateView). v.accounts a) m.shown
        ∙ ap (λ c. if c then some (object_view env obj) else (view env s).accounts a) (==_refl a);
    is_alive = m.fresh;
  }

  created-Made :
      (a : Address) (o : Option StateObject) (s : StateDb)
      → IsValid (view env s)
      → (view env s).accounts a ≡ map_option (object_view env) o
      → (o ≡ none → map_option (object_view env) (loaded env a s.origin_block_hash) ≡ none)
      → let r = create_over env a (o, s) in Made s a r.0 r.2
  unfolding journal_append new_object
  created-Made a none s v e l = record {
    entry = create_object_change a;
    address_eq = refl;
    fresh = refl;
    no_fake_storage = refl;
    shown =
        view-set_state_object env (journal_append s (create_object_change a))
          (new_object env a (no_account env) s.origin_block_hash);
    entries_eq = unfold set_state_object in refl;
    revisions_eq = unfold set_state_object in refl;
    next_eq = unfold set_state_object in refl;
    back = λ x. create_back (view env s) a x e (l refl);
  }
  created-Made a (some prev) s v e l = record {
    entry = reset_object_change prev (s.state_objects_destruct prev.address);
    address_eq = refl;
    fresh = refl;
    no_fake_storage = refl;
    shown =
        view-set_state_object env
          (journal_append
            (record s { state_objects_destruct = with_key s.state_objects_destruct prev.address })
            (reset_object_change prev (s.state_objects_destruct prev.address)))
          (new_object env a (no_account env) s.origin_block_hash);
    entries_eq = unfold set_state_object in refl;
    revisions_eq = unfold set_state_object in refl;
    next_eq = unfold set_state_object in refl;
    back = λ x.
        subst
          (λ b.
            undo_view env (reset_object_change prev (s.state_objects_destruct prev.address))
              (set_view env (view env s) b x)
            ≡ some (view env s))
          (v.keyed a (object_view env prev) e)
          (reset_back (view env s) prev (s.state_objects_destruct prev.address) x
            (ap (view env s).accounts (v.keyed a (object_view env prev) e) ∙ e));
  }

  not_loaded :
      (s : StateDb) (a : Address) (o : Option StateObject)
      → found env a s.origin_block_hash o ≡ none
      → loaded env a s.origin_block_hash ≡ none
  not_loaded s a none h = h
  not_loaded s a (some obj) h = cc

  -- createObject, from the state in which the old object was found.
  pub create_object-Made :
      (s : StateDb) (a : Address)
      → IsValid (view env s)
      → let r = create_object env s a in Made (get_deleted_state_object env s a).1 a r.0 r.2
  unfolding create_object
  create_object-Made s a v =
      let f = get_deleted_state_object-Finds env s a in
      created-Made a (get_deleted_state_object env s a).0 (get_deleted_state_object env s a).1
        (subst IsValid (sym f.view_eq) v) (found-account s a)
        (λ n.
          ap (λ h. map_option (object_view env) (loaded env a h))
            (ap (λ (w : StateView). w.origin_block_hash) f.view_eq)
          ∙ ap (map_option (object_view env))
              (not_loaded s a (s.state_objects a) (sym f.object_eq ∙ n)))

  pub record GotOrNew (s : StateDb) (r : StateObject × StateDb) : Type 0 where
    pub safe : Safe env s r.1
    pub holds : Holds env r.1 r.0

  missing-GotOrNew :
      (s t : StateDb) (a : Address)
      → IsValid (view env s)
      → Safe env s t
      → let r = create_object env t a in GotOrNew s (r.0, r.2)
  missing-GotOrNew s t a v p =
      let m = create_object-Made t a p.valid in
      record {
        safe = Safe-trans env p (
            Safe-trans env (found-Safe t a p.valid)
              (Made-Safe _ a _ _ (found-Safe t a p.valid).valid m));
        holds = Made-Holds _ a _ _ m;
      }

  got-GotOrNew :
      (s t : StateDb) (a : Address) (o : Option StateObject)
      → IsValid (view env s)
      → Safe env s t
      → (view env t).accounts a ≡ map_option (object_view env) o
      → GotOrNew s (create_if_missing env a (alive o, t))
  got-GotOrNew s t a none v p e = missing-GotOrNew s t a v p
  got-GotOrNew s t a (some obj) v p e = if_deleted obj.deleted refl
    where
      if_deleted :
          (d : Bool)
          → obj.deleted ≡ d
          → GotOrNew s (create_if_missing env a ((if d then none else some obj), t))
      if_deleted true q = missing-GotOrNew s t a v p
      if_deleted false q = record {
        safe = p;
        holds = record {
          held = ap (view env t).accounts (p.valid.keyed a (object_view env obj) e) ∙ e;
          is_alive = q;
        };
      }

  -- getOrNewStateObject gives the account's object, and the journal takes back its making.
  pub get_or_new_state_object-GotOrNew :
      (s : StateDb) (a : Address)
      → IsValid (view env s)
      → GotOrNew s (get_or_new_state_object env s a)
  unfolding get_or_new_state_object get_state_object
  get_or_new_state_object-GotOrNew s a v =
      got-GotOrNew s (get_deleted_state_object env s a).1 a (get_deleted_state_object env s a).0 v
        (found-Safe s a v) (found-account s a)

  carried :
      (s t : StateDb) (a : Address) (obj obj' : StateObject)
      → Made s a obj t
      → obj'.address ≡ obj.address
      → obj'.deleted ≡ obj.deleted
      → obj'.fake_storage ≡ obj.fake_storage
      → Made s a obj' (set_state_object t obj')
  carried s t a obj obj' m e d f = record {
    entry = m.entry;
    address_eq = e ∙ m.address_eq;
    fresh = d ∙ m.fresh;
    no_fake_storage = f ∙ m.no_fake_storage;
    shown =
        view-set_state_object env t obj'
        ∙ ap₂ (λ w b. set_view env w b (object_view env obj')) m.shown (e ∙ m.address_eq)
        ∙ ap (λ c. let w : StateView = record (view env s) { accounts = c } in w)
            (insert-insert (view env s).accounts a (object_view env obj) (object_view env obj'));
    entries_eq = unfold set_state_object in m.entries_eq;
    revisions_eq = unfold set_state_object in m.revisions_eq;
    next_eq = unfold set_state_object in m.next_eq;
    back = m.back;
  }

  carried-Safe :
      (s : StateDb) (a : Address) (r : StateObject × Option StateObject × StateDb)
      → IsValid (view env s)
      → Made s a r.0 r.2
      → Safe env s (carry_balance env r)
  carried-Safe s a (obj, none, t) v m = Made-Safe s a obj t v m
  carried-Safe s a (obj, some prev, t) v m =
      unfold StateObject.set_balance_field in
      Made-Safe s a _ _ v (carried s t a obj _ m refl refl refl)

  -- The journal takes back CreateAccount, the balance carried over included.
  pub create_account-Safe :
      (s : StateDb) (a : Address) → IsValid (view env s) → Safe env s (create_account env s a)
  unfolding create_account
  create_account-Safe s a v =
      let p = found-Safe s a v in
      Safe-trans env p (carried-Safe _ a (create_object env s a) p.valid (create_object-Made s a v))
