-- ===== src/DirectByLeaf/StateDb/Rollback/Writes.antt =====
-- state_object.go: the journal takes back SetCode and SetState, which read what they replace.
use ipld_eth_statedb.Base.{
  ◌≡◌, refl, ap, ◌∙◌, sym, subst, fun_ext, Bool, true, false, Option, none, some, [], insert,
  insert_self, ◌==◌, ==_iff, if◌then◌else◌,
}
use ipld_eth_statedb.DirectByLeaf.Types.{Hash, Bytes, Storage}
use ipld_eth_statedb.DirectByLeaf.Env.{Env}
use ipld_eth_statedb.DirectByLeaf.StateObject
use ipld_eth_statedb.DirectByLeaf.StateObject.{StateObject}
use ipld_eth_statedb.DirectByLeaf.StateDb.{StateDb, code_change, storage_change}
use ipld_eth_statedb.DirectByLeaf.StateDb.Access.{set_state_object}
use ipld_eth_statedb.DirectByLeaf.StateDb.Revert.{journal_append}
use ipld_eth_statedb.DirectByLeaf.StateDb.Setters.{object_set_code, object_set_state, journal_slot}
use ipld_eth_statedb.DirectByLeaf.StateDb.View.{
  AccountView, StateView, view, object_view, code_value,
}
use ipld_eth_statedb.DirectByLeaf.StateDb.View.Objects.{
  Reads, get_code-Reads, get_state-Reads, code_value_twice, through,
}
use ipld_eth_statedb.DirectByLeaf.StateDb.View.Find.{view-set_state_object}
use ipld_eth_statedb.DirectByLeaf.StateDb.View.Undo.{with_slot, slot-Follows}
use ipld_eth_statedb.DirectByLeaf.StateDb.Rollback.Valid.{IsValid, Safe, Safe-of_entries}
use ipld_eth_statedb.DirectByLeaf.StateDb.Rollback.Accounts.{Holds, written-Safe, account_back}

module _ (env : Env) where
  -- An object that a read has cached into is still the account of its address.
  pub Holds-Reads :
      {A : Type 0} (s : StateDb) (o : StateObject) (value : A) (r : A × StateObject)
      → Holds env s o
      → Reads env o value r
      → Holds env s r.1
  Holds-Reads s o value r h q = record {
    held = ap (view env s).accounts q.address_eq ∙ h.held ∙ ap some (sym q.view_eq);
    is_alive = ap (λ (x : AccountView). x.deleted) q.view_eq ∙ h.is_alive;
  }

  -- Writing back an object of an unchanged view.
  pub cached-Safe :
      (s : StateDb) (o : StateObject)
      → IsValid (view env s)
      → Holds env s o
      → Safe env s (set_state_object s o)
  cached-Safe s o v h =
      let same =
        view-set_state_object env s o
        ∙ ap (λ m. let w : StateView = record (view env s) { accounts = m } in w)
            (insert_self (view env s).accounts o.address (object_view env o) h.held) in
      Safe-of_entries env s _ [] (subst IsValid (sym same) v)
        (unfold set_state_object in record { revisions_eq = refl; next_eq = refl })
        (unfold set_state_object in refl) (ap some same)

  coded-Safe :
      (s : StateDb) (o : StateObject) (r : Option Bytes × StateObject) (h : Hash) (c : Option Bytes)
      → IsValid (view env s)
      → Holds env s o
      → Reads env o (object_view env o).code r
      → Safe env s (
          set_state_object
            (journal_append s (code_change r.1.address r.0 r.1.account.code_hash))
            (StateObject.set_code_field r.1 h c))
  unfolding StateObject.set_code_field
  coded-Safe s o r h c v k q =
      let k' = Holds-Reads s o (object_view env o).code r k q in
      written-Safe env s r.1 (StateObject.set_code_field r.1 h c) _ v k' refl refl (
        account_back env (view env s) r.1.address (object_view env r.1) _ _ k'.held refl k'.is_alive
          (ap (λ d. let x : AccountView = record (object_view env r.1) { code = d } in x)
            (ap (λ p. code_value env p r.1.account.code_hash)
                (q.value_eq ∙ ap (λ (x : AccountView). x.code) (sym q.view_eq))
              ∙ code_value_twice env r.1.code r.1.account.code_hash)))

  pub object_set_code-Safe :
      (s : StateDb) (o : StateObject) (h : Hash) (c : Option Bytes)
      → IsValid (view env s)
      → Holds env s o
      → Safe env s (object_set_code env o h c s)
  unfolding object_set_code
  object_set_code-Safe s o h c v k =
      coded-Safe s o (StateObject.get_code env o) h c v k (get_code-Reads env o)

  slot_back :
      (stored : Hash → Hash) (key value prev : Hash)
      → prev ≡ stored key
      → (k : Hash) (c : Bool) → (c ≡ true → key ≡ k)
      → (if c then prev else if c then value else stored k) ≡ stored k
  slot_back stored key value prev p k true e = p ∙ ap stored (e refl)
  slot_back stored key value prev p k false e = refl

  slotted-Safe :
      (s : StateDb) (o : StateObject) (key value prev : Hash)
      → IsValid (view env s)
      → Holds env s o
      → prev ≡ (object_view env o).stored key
      → Safe env s (journal_slot env o key value prev s)
  unfolding journal_append
  slotted-Safe s o key value prev v h p = if_same (prev == value)
    where
      back :
          with_slot key prev (object_view env (StateObject.set_state_field o key value))
          ≡ object_view env o
      back =
          ap (with_slot key prev) ((slot-Follows env key value).same_view o)
          ∙ ap
              (λ (f : Hash → Hash).
                let x : AccountView = record (object_view env o) { stored = f } in x)
              (fun_ext λ k.
                slot_back (object_view env o).stored key value prev p k (key == k)
                  (λ c. (==_iff key k).0 c))

      if_same :
          (c : Bool)
          → Safe env s (
              if c
              then set_state_object s o
              else set_state_object
                  (journal_append s (storage_change o.address key prev))
                  (StateObject.set_state_field o key value))
      if_same true = cached-Safe s o v h
      if_same false =
          unfold StateObject.set_state_field in
          written-Safe env s o (StateObject.set_state_field o key value) _ v h refl refl (
            account_back env (view env s) o.address (object_view env o) _ _ h.held refl h.is_alive
              back)

  read_slot :
      (fake : Option Storage) (key value : Hash) → fake ≡ none → through fake key value ≡ value
  read_slot none key value e = refl
  read_slot (some f) key value e = cc

  not_fake :
      (s : StateDb) (o : StateObject) (key value : Hash) (fake : Option Storage)
      → IsValid (view env s)
      → Holds env s o
      → fake ≡ none
      → o.fake_storage ≡ none
      → (r : Hash × StateObject)
      → Reads env o (through o.fake_storage key ((object_view env o).stored key)) r
      → Safe env s (elim fake [
        | some f ↦ set_state_object s (record o { fake_storage = some (insert f key value) })
        | none ↦ journal_slot env r.1 key value r.0 s
      ])
  not_fake s o key value (some f) v h e g r q = absurd (cc)
  not_fake s o key value none v h e g r q =
      slotted-Safe s r.1 key value r.0 v (Holds-Reads s o _ r h q) (
        q.value_eq
        ∙ read_slot o.fake_storage key _ g
        ∙ ap (λ (x : AccountView). x.stored key) (sym q.view_eq))

  pub object_set_state-Safe :
      (s : StateDb) (o : StateObject) (key value : Hash)
      → IsValid (view env s)
      → Holds env s o
      → Safe env s (object_set_state env o key value s)
  unfolding object_set_state
  object_set_state-Safe s o key value v h =
      let e = v.no_fake o.address (object_view env o) h.held in
      not_fake s o key value o.fake_storage v h e e (StateObject.get_state env o key)
        (get_state-Reads env o key)
