-- ===== src/DirectByLeaf/StateDb/Rollback/Access.antt =====
-- statedb.go: the journal takes back AddAddressToAccessList and AddSlotToAccessList.
use ipld_eth_statedb.Base.{
  ◌≡◌, refl, ap, Bool, true, false, Option, none, some, some_inj, [], ◌∷◌, if◌then◌else◌,
}
use ipld_eth_statedb.DirectByLeaf.Types.{Address, Hash}
use ipld_eth_statedb.DirectByLeaf.Env.{Env}
use ipld_eth_statedb.DirectByLeaf.AccessList
use ipld_eth_statedb.DirectByLeaf.AccessList.{AccessList}
use ipld_eth_statedb.DirectByLeaf.AccessList.Undo.{
  undo_add_slot, undo_add_slot-add_slot, undo_add_address,
}
use ipld_eth_statedb.DirectByLeaf.AccessList.Contents.{
  add_address-IsValid, add_slot-IsValid, IsValidResult,
}
use ipld_eth_statedb.DirectByLeaf.StateDb.{
  StateDb, access_list_add_account_change, access_list_add_slot_change,
}
use ipld_eth_statedb.DirectByLeaf.StateDb.Revert.{journal_append}
use ipld_eth_statedb.DirectByLeaf.StateDb.Setters.{
  add_address_to_access_list, add_slot_to_access_list, note_address, note_slot, note_slot_result,
}
use ipld_eth_statedb.DirectByLeaf.StateDb.View.{StateView, view, map_option, bind_option}
use ipld_eth_statedb.DirectByLeaf.StateDb.Rollback.Steps
use ipld_eth_statedb.DirectByLeaf.StateDb.Rollback.Valid.{IsValid, Safe, Safe-of_entries}

module _ (env : Env) (s : StateDb) (v : IsValid (view env s)) (a : Address) where
  abbrev with_list : AccessList → StateView
  with_list al = record (view env s) { access_list = al }

  listed : (al : AccessList) → AccessList.IsValid al → IsValid (with_list al)
  listed al w = record {
    keyed = v.keyed;
    no_fake = v.no_fake;
    access = w;
    logs_filled = v.logs_filled;
    log_size_fits = v.log_size_fits;
  }

  noted :
      (r : AccessList × Bool)
      → AccessList.IsValid r.0
      → (if r.1 then AccessList.delete_address r.0 a else r.0) ≡ s.access_list
      → Safe env s (note_address s a r)
  unfolding journal_append
  noted (al, true) w e =
      Safe-of_entries env s _ (access_list_add_account_change a ∷ []) (listed al w)
        (record { revisions_eq = refl; next_eq = refl }) refl (ap (λ l. some (with_list l)) e)
  noted (al, false) w e =
      Safe-of_entries env s _ [] (listed al w) (record { revisions_eq = refl; next_eq = refl }) refl
        (ap (λ l. some (with_list l)) e)

  pub add_address_to_access_list-Safe : Safe env s (add_address_to_access_list s a)
  unfolding add_address_to_access_list
  add_address_to_access_list-Safe =
      noted (AccessList.add_address s.access_list a) (add_address-IsValid s.access_list v.access a)
        (undo_add_address s.access_list a)

  -- The access list after the two entries of an AddSlot are undone.
  both_undone :
      (o : Option AccessList)
      → (elim o [ none ↦ none | some l ↦ some (AccessList.delete_address l a) ])
        ≡ some s.access_list
      → bind_option
          (map_option with_list o)
          (Steps.undo_views env (access_list_add_account_change a ∷ []))
        ≡ some (view env s)
  both_undone none q = cc
  both_undone (some l) q = ap (λ l'. some (with_list l')) (some_inj q)

  slot_undone :
      (o : Option AccessList)
      → (elim o [ none ↦ none | some l ↦ some l ]) ≡ some s.access_list
      → bind_option (map_option with_list o) some ≡ some (view env s)
  slot_undone none q = cc
  slot_undone (some l) q = ap (λ l'. some (with_list l')) (some_inj q)

  noted_slot :
      (h : Hash) (r : AccessList × Bool × Bool)
      → AccessList.IsValid r.0
      → undo_add_slot r.0 a h r.1 r.2 ≡ some s.access_list
      → Safe env s (note_slot s a h r)
  unfolding journal_append
  noted_slot h (al, true, true) w e =
      Safe-of_entries env s _
        (access_list_add_slot_change a h ∷ access_list_add_account_change a ∷ []) (listed al w)
        (record { revisions_eq = refl; next_eq = refl }) refl
        (both_undone (AccessList.delete_slot al a h) e)
  noted_slot h (al, true, false) w e =
      Safe-of_entries env s _ (access_list_add_account_change a ∷ []) (listed al w)
        (record { revisions_eq = refl; next_eq = refl }) refl
        (ap (λ l. some (with_list l)) (some_inj e))
  noted_slot h (al, false, true) w e =
      Safe-of_entries env s _ (access_list_add_slot_change a h ∷ []) (listed al w)
        (record { revisions_eq = refl; next_eq = refl }) refl
        (slot_undone (AccessList.delete_slot al a h) e)
  noted_slot h (al, false, false) w e =
      Safe-of_entries env s _ [] (listed al w) (record { revisions_eq = refl; next_eq = refl }) refl
        (ap (λ l. some (with_list l)) (some_inj e))

  slot_result :
      (h : Hash) (o : Option (AccessList × Bool × Bool))
      → AccessList.add_slot s.access_list a h ≡ o
      → IsValidResult s.access_list v.access a o
      → (t : StateDb) × (note_slot_result s a h o ≡ some t) × Safe env s t
  slot_result h none e w = absurd w
  slot_result h (some r) e w = (
    note_slot s a h r,
    refl,
    noted_slot h r w (undo_add_slot-add_slot s.access_list a h r v.access e),
  )

  -- In a valid state AddSlotToAccessList does not panic, and the journal takes it back.
  pub add_slot_to_access_list-Safe :
      (h : Hash) → (t : StateDb) × (add_slot_to_access_list s a h ≡ some t) × Safe env s t
  unfolding add_slot_to_access_list
  add_slot_to_access_list-Safe h =
      slot_result h (AccessList.add_slot s.access_list a h) refl
        (add_slot-IsValid s.access_list v.access a h)
